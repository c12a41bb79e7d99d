-- ===== src/Jobs/Publish/Drain.antt =====
-- The loop of app/jobs/publish_outbox.py ends, and leaves no event to publish.
use mathlib.Core.List.{append-nil, append_assoc}
use canals_assessment.Prelude.{
  ℕ, zero, suc, ◌+◌, ◌<◌, ◌≡◌, refl, ap, ◌∙◌, sym, ◌≢◌, String, Bool, true, false, ◌&&◌, Option,
  some, List, [], ◌∷◌, ◌++◌, map, arith, All, length, length-append, take, All-take, contains, inl,
  inr,
}
use canals_assessment.Prelude.Sorting.{sort_by, sort_by-empty, All-sort_by}
use canals_assessment.Sql.{select_rows, update_rows}
use canals_assessment.Sql.Laws.{All-select_rows, none_selected, select_rows-test, List-cases}
use canals_assessment.Db.Rows.{Db, OutboxEvent}
use canals_assessment.Db.Tx.{Result, ok, begin}
use canals_assessment.Repositories.Outbox.{
  mark_processed, is_unset, is_claimable, created_leb, process,
}
use canals_assessment.Jobs.Sweep.{at_time}
use canals_assessment.Jobs.Publish.{
  LoggingEventPublisher, log_entry, log_event, claimed, event_ids, publish_all, finish,
  publish_once, relay, main,
}

-- The number of events that are not marked.
abbrev pub unset_count : Db → ℕ
unset_count db = length (select_rows (λ e. is_unset e.processed_at) db.outbox)

-- The database once the ids are marked.
abbrev pub marked_db : List ℕ → Db → Db
marked_db [] db = db
marked_db (i ∷ is) db = record db {
  outbox = update_rows (λ e. contains e.id (i ∷ is)) (process db.now) db.outbox;
}

publish_all-logs :
    (es : List OutboxEvent) (sink : LoggingEventPublisher)
    → publish_all log_event es sink ≡ (ok tt, sink ++ map log_entry es)
unfolding publish_all
publish_all-logs [] sink = ap (λ l. (ok tt, l)) (sym (append-nil sink))
publish_all-logs (e ∷ es) sink =
    publish_all-logs es (sink ++ log_entry e ∷ [])
    ∙ ap (λ l. (ok tt, l)) (append_assoc sink (log_entry e ∷ []) (map log_entry es))

-- A run with the logging publisher marks its events, logs them and returns their number.
publish_once-logs :
    (locked : List ℕ) (batch : ℕ) (db : Db) (sink : LoggingEventPublisher)
    → publish_once log_event locked batch db sink ≡ (
      ok (length (claimed locked batch db)),
      marked_db (event_ids (claimed locked batch db)) db,
      sink ++ map log_entry (claimed locked batch db),
    )
unfolding publish_once finish mark_processed begin
publish_once-logs locked batch db sink =
    rw (publish_all-logs (claimed locked batch db) sink) (ended (claimed locked batch db))
  where
    ended :
        (es : List OutboxEvent)
        → finish log_event es (ok tt, sink ++ map log_entry es) db
          ≡ (ok (length es), marked_db (event_ids es) db, sink ++ map log_entry es)
    ended [] = refl
    ended (e ∷ es) = refl

counted :
    (test : OutboxEvent → Bool) (now : ℕ) (rows : List OutboxEvent)
    → length (select_rows (λ e. is_unset e.processed_at) (update_rows test (process now) rows))
        + length (select_rows (λ e. test e && is_unset e.processed_at) rows)
      ≡ length (select_rows (λ e. is_unset e.processed_at) rows)
counted test now [] = refl
counted test now (e ∷ es) = ground (arith, counted test now es)

module _ (locked : List ℕ) (n : ℕ) (db : Db) where
  -- A batch of no events leaves nothing to claim.
  claimed_none : claimed locked (suc n) db ≡ [] → select_rows (is_claimable locked) db.outbox ≡ []
  claimed_none h =
      sort_by-empty created_leb (select_rows (is_claimable locked) db.outbox)
        (first_none (sort_by created_leb (select_rows (is_claimable locked) db.outbox)) h)
    where
      first_none : (es : List OutboxEvent) → take (suc n) es ≡ [] → es ≡ []
      first_none [] k = refl
      first_none (e ∷ es) k = cc

  -- Every claimed event is unset.
  claimed_unset : All (λ e. is_claimable locked e ≡ true) (claimed locked (suc n) db)
  claimed_unset =
      All-take (λ e. is_claimable locked e ≡ true) (suc n)
        (sort_by created_leb (select_rows (is_claimable locked) db.outbox))
        (All-sort_by created_leb (λ e. is_claimable locked e ≡ true)
          (select_rows (is_claimable locked) db.outbox)
          (select_rows-test (is_claimable locked) db.outbox))

  -- What fails on every row of the table fails on every claimed event.
  claimed-All :
      (test : OutboxEvent → Bool)
      → All (λ e. test e ≡ false) db.outbox
      → All (λ e. test e ≡ false) (claimed locked (suc n) db)
  claimed-All test h =
      All-take (λ e. test e ≡ false) (suc n)
        (sort_by created_leb (select_rows (is_claimable locked) db.outbox))
        (All-sort_by created_leb (λ e. test e ≡ false) (select_rows (is_claimable locked) db.outbox)
          (All-select_rows (is_claimable locked) (λ e. test e ≡ false) db.outbox h))

  -- A batch of some events marks at least one that was unset.
  unset_fewer :
      (e : OutboxEvent) (es : List OutboxEvent)
      → claimed locked (suc n) db ≡ e ∷ es
      → unset_count (marked_db (event_ids (e ∷ es)) db) < unset_count db
  unset_fewer e es h =
      let test = λ (x : OutboxEvent). contains x.id (event_ids (e ∷ es)) in
      elim (List-cases (select_rows (λ x. test x && is_unset x.processed_at) db.outbox)) [
        | inl nothing ↦
            let fails = rw h at (
              claimed-All (λ x. test x && is_unset x.processed_at)
                (none_selected (λ x. test x && is_unset x.processed_at) db.outbox nothing)) in
            let passes = rw h at claimed_unset in absurd (never e es fails.0 passes.0)
        | inr (x, xs, found) ↦ omega (arith, counted test db.now db.outbox, ap length found)
      ]
    where
      never :
          (x : OutboxEvent) (xs : List OutboxEvent)
          → (contains x.id (event_ids (x ∷ xs)) && is_unset x.processed_at) ≡ false
          → is_claimable locked x ≢ true
      never x xs a b = ground (arith, a, b)

-- Transactions of the loop that published something, one after the other: from the fuel, database and
-- sink at the start to those after the last of them.
pub data Rounds (batch : ℕ) (locks : ℕ → List ℕ) (clock : ℕ → ℕ)
    : ℕ → Db → LoggingEventPublisher → ℕ → Db → LoggingEventPublisher → Type 0 where
  no_round :
      (fuel : ℕ) (db : Db) (sink : LoggingEventPublisher)
      → Rounds batch locks clock fuel db sink fuel db sink
  round :
      (fuel m left : ℕ) (db mid new : Db) (sink logged ended : LoggingEventPublisher)
      → publish_once log_event (locks fuel) batch (at_time (clock fuel) db) sink
        ≡ (ok (suc m), mid, logged)
      → Rounds batch locks clock fuel mid logged left new ended
      → Rounds batch locks clock (suc fuel) db sink left new ended

-- What the loop has done when it ends: after some transactions that published something came a last
-- one, on the database `before`, that found nothing; what is then left to claim is what was locked in
-- that one; the loop has returned the number of events that it logged, after what the sink had; and no
-- table but the outbox has changed.
pub record Relays (batch : ℕ) (locks : ℕ → List ℕ) (clock : ℕ → ℕ) (fuel total : ℕ) (old : Db)
    (sink : LoggingEventPublisher) (r : Result (Option ℕ) × Db × LoggingEventPublisher)
    : Type 0 where
  pub sent : List (String × ℕ)
  pub returned : r.0 ≡ ok (some (total + length sent))
  pub logged_so : r.2 ≡ sink ++ sent
  pub last : ℕ
  pub before : Db
  pub rounds : Rounds batch locks clock fuel old sink (suc last) before r.2
  pub last_one :
      publish_once log_event (locks last) batch (at_time (clock last) before) r.2 ≡ (ok 0, r.1, r.2)
  pub nothing_left : select_rows (is_claimable (locks last)) r.1.outbox ≡ []
  pub elsewhere : r.1 ≡ record old { outbox = r.1.outbox; now = r.1.now }

length-log_entry : (es : List OutboxEvent) → length (map log_entry es) ≡ length es
length-log_entry [] = refl
length-log_entry (e ∷ es) = omega (arith, length-log_entry es)

module _ (n : ℕ) (locks : ℕ → List ℕ) (clock : ℕ → ℕ) where
  relayed_last :
      (fuel total : ℕ) (db : Db) (sink : LoggingEventPublisher)
      → claimed (locks fuel) (suc n) (at_time (clock fuel) db) ≡ []
      → Relays
          (suc n)
          locks
          clock
          (suc fuel)
          total
          db
          sink
          (ok (some total), at_time (clock fuel) db, sink)
  relayed_last fuel total db sink h = record {
    sent = [];
    returned = ap (λ k. ok (some k)) (omega arith);
    logged_so = sym (append-nil sink);
    last = fuel;
    before = db;
    rounds = no_round (suc fuel) db sink;
    last_one =
        publish_once-logs (locks fuel) (suc n) (at_time (clock fuel) db) sink
        ∙ rw h (ap (λ l. (ok 0, at_time (clock fuel) db, l)) (append-nil sink));
    nothing_left = claimed_none (locks fuel) n (at_time (clock fuel) db) h;
    elsewhere = refl;
  }

  Relays-more :
      (fuel total : ℕ) (e : OutboxEvent) (es : List OutboxEvent) (db : Db)
      (sink : LoggingEventPublisher) (r : Result (Option ℕ) × Db × LoggingEventPublisher)
      → claimed (locks fuel) (suc n) (at_time (clock fuel) db) ≡ e ∷ es
      → Relays
          (suc n)
          locks
          clock
          fuel
          (total + suc (length es))
          (marked_db (event_ids (e ∷ es)) (at_time (clock fuel) db))
          (sink ++ map log_entry (e ∷ es))
          r
      → Relays (suc n) locks clock (suc fuel) total db sink r
  Relays-more fuel total e es db sink r some_events d = record {
    sent = map log_entry (e ∷ es) ++ d.sent;
    returned =
        d.returned
        ∙ ap (λ k. ok (some k))
            (omega
              (arith, length-append (map log_entry (e ∷ es)) d.sent, length-log_entry (e ∷ es)));
    logged_so = d.logged_so ∙ append_assoc sink (map log_entry (e ∷ es)) d.sent;
    last = d.last;
    before = d.before;
    rounds =
        round fuel (length es) (suc d.last) db
          (marked_db (event_ids (e ∷ es)) (at_time (clock fuel) db)) d.before sink
          (sink ++ map log_entry (e ∷ es)) r.2
          (publish_once-logs (locks fuel) (suc n) (at_time (clock fuel) db) sink
            ∙ rw some_events refl)
          d.rounds;
    last_one = d.last_one;
    nothing_left = d.nothing_left;
    elsewhere = d.elsewhere;
  }

  relay-Relays :
      (fuel total : ℕ) (db : Db) (sink : LoggingEventPublisher)
      → unset_count db < fuel
      → Relays (suc n) locks clock fuel total db sink (relay (suc n) fuel locks clock total db sink)
  unfolding relay
  relay-Relays zero total db sink h = absurd (omega arith)
  relay-Relays (suc fuel) total db sink h =
      let now = at_time (clock fuel) db in
      rw (publish_once-logs (locks fuel) (suc n) now sink)
        (elim (List-cases (claimed (locks fuel) (suc n) now)) [
          | inl nothing ↦ rw (nothing, append-nil sink) (relayed_last fuel total db sink nothing)
          | inr (e, es, some_events) ↦ rw some_events (
              Relays-more fuel total e es db sink
                (relay (suc n) fuel locks clock (total + suc (length es))
                  (marked_db (event_ids (e ∷ es)) now) (sink ++ map log_entry (e ∷ es)))
                some_events
                (relay-Relays fuel (total + suc (length es)) (marked_db (event_ids (e ∷ es)) now)
                  (sink ++ map log_entry (e ∷ es))
                  (omega (arith, unset_fewer (locks fuel) n now e es some_events))))
        ])

-- The loop of the publisher ends: with fuel for one transaction more than there are unprocessed
-- events, whatever rows other workers hold locked and whatever the times of its transactions, it runs
-- transactions that publish something and then a last one that finds nothing; all that is then left to
-- claim is what was locked in that last transaction; it returns the number of events that it logged;
-- and no table but the outbox has changed.
pub main-Relays :
    (locks : ℕ → List ℕ) (clock : ℕ → ℕ) (fuel : ℕ) (db : Db)
    → unset_count db < fuel
    → Relays 100 locks clock fuel 0 db [] (main fuel locks clock db)
unfolding main
main-Relays locks clock fuel db = relay-Relays 99 locks clock fuel 0 db []
