-- ===== src/Jobs/Sweep/Drain.antt =====
-- The loop of app/jobs/sweep_reservations.py ends, and leaves no expired hold.
use canals_assessment.Prelude.{
  ℕ, zero, suc, ◌+◌, ◌<◌, ◌≡◌, refl, ap, ◌∙◌, true, false, Option, some, List, [], ◌∷◌, map, arith,
  All, sum_by, length, if◌then◌else◌, take, inl, inr,
}
use canals_assessment.Prelude.Sorting.{sort_by, sort_by-empty, All-sort_by}
use canals_assessment.Domain.Enums.{ReservationStatus, is_active}
use canals_assessment.Domain.Values.{ReleasedItem}
use canals_assessment.Sql.{select_rows}
use canals_assessment.Sql.Laws.{
  All-select_rows, none_selected, select_rows-test, sum_by-update_rows, update_rows-none,
  List-cases,
}
use canals_assessment.Db.Rows.{Db, StockReservation}
use canals_assessment.Db.Tx.{Result, ok, begin, pure, ◌>>=◌}
use canals_assessment.Repositories.Reservation.{
  sweep_expired, is_swept, expired_ids, has_expired, expires_leb, released_item, settle_row,
}
use canals_assessment.Repositories.Reservation.Ledger.{IsLedger}
use canals_assessment.Repositories.Reservation.Settle.{sweep_expired-Settles}
use canals_assessment.Repositories.Accounts.{IsLedger-same}
use canals_assessment.Jobs.Sweep.{sweep_once, at_time, drain, main}

-- The number of active reservations.
abbrev pub active_count : Db → ℕ
active_count db = sum_by (λ s. if is_active s.status then 1 else 0) db.stock_reservations

sum_by-one : (rs : List StockReservation) → sum_by (λ s. 1) rs ≡ length rs
sum_by-one [] = refl
sum_by-one (r ∷ rs) = omega (arith, sum_by-one rs)

length-released : (rs : List StockReservation) → length (map released_item rs) ≡ length rs
length-released [] = refl
length-released (r ∷ rs) = omega (arith, length-released rs)

-- The rows that the sweep at hand selects.
abbrev pub swept : ℕ → Db → List StockReservation
swept batch db = select_rows (is_swept (expired_ids batch db)) db.stock_reservations

-- The first row in the order of expiry is in the subquery's result.
first_swept :
    (n : ℕ) (rs : List StockReservation)
    → All (λ s. is_active s.status ≡ true) rs
    → All (λ s. is_swept (map (λ r. r.id) (take (suc n) rs)) s ≡ false) rs
    → rs ≡ []
first_swept n [] h k = refl
first_swept n (r ∷ rs) h k = ground (arith, h.0, k.0)

-- A sweep that claims nothing found nothing expired.
swept_none :
    (n : ℕ) (db : Db)
    → swept (suc n) db ≡ []
    → select_rows (has_expired db.now) db.stock_reservations ≡ []
unfolding expired_ids
swept_none n db h =
    let expired = select_rows (has_expired db.now) db.stock_reservations in
    let ids = map (λ (s : StockReservation). s.id) (take (suc n) (sort_by expires_leb expired)) in
    sort_by-empty expires_leb expired (
      first_swept n (sort_by expires_leb expired)
        (All-sort_by expires_leb (λ s. is_active s.status ≡ true) expired
          (active_of expired (select_rows-test (has_expired db.now) db.stock_reservations)))
        (All-sort_by expires_leb (λ s. is_swept ids s ≡ false) expired
          (All-select_rows (has_expired db.now) (λ s. is_swept ids s ≡ false) db.stock_reservations
            (none_selected (is_swept ids) db.stock_reservations h))))
  where
    active_of :
        (rs : List StockReservation)
        → All (λ s. has_expired db.now s ≡ true) rs
        → All (λ s. is_active s.status ≡ true) rs
    active_of [] k = tt
    active_of (r ∷ rs) k = (ground (arith, k.0), active_of rs k.1)

module _ (base : ℕ → ℕ → ℕ) (batch : ℕ) where
  pub sweep_once-ok :
      (db : Db)
      → IsLedger base db
      → sweep_once batch db ≡ (ok (length (swept batch db)), (sweep_expired batch db).1)
  unfolding sweep_once begin
  sweep_once-ok db l =
      let rows = swept batch db in
      let t = sweep_expired batch db in
      let returned : t ≡ (ok (map released_item rows), t.1) =
        ap (λ (r : Result (List ReleasedItem)). (r, t.1))
          (sweep_expired-Settles base batch db l).0 in
      swept_so t returned
    where
      swept_so :
          (t : Result (List ReleasedItem) × Db)
          → t ≡ (ok (map released_item (swept batch db)), (sweep_expired batch db).1)
          → (begin (λ d. t) >>= λ released. pure (length released)) db
            ≡ (ok (length (swept batch db)), (sweep_expired batch db).1)
      swept_so t e = rw (e, length-released (swept batch db)) refl

  active_count-swept :
      (db : Db)
      → IsLedger base db
      → active_count (sweep_expired batch db).1 + length (swept batch db) ≡ active_count db
  active_count-swept db l = rw (sweep_expired-Settles base batch db l).1.reservations (
      omega (
        arith,
        sum_by-one (swept batch db),
        sum_by-update_rows (is_swept (expired_ids batch db))
            (λ s. if is_active s.status then 1 else 0) (λ s. 1)
            (settle_row ReservationStatus.expired db.now) db.stock_reservations
            (λ s t. ground arith),
      ))

-- What a run of the loop has done: it returned, and no hold of the database that it left has expired
-- at the time of its last transaction; the total has grown by the number of holds released.
pub record Drains (base : ℕ → ℕ → ℕ) (total : ℕ) (old : Db) (r : Result (Option ℕ) × Db)
    : Type 0 where
  pub released : ℕ
  pub returned : r.0 ≡ ok (some (total + released))
  pub ledger : IsLedger base r.1
  pub none_expired : select_rows (has_expired r.1.now) r.1.stock_reservations ≡ []
  pub counted : active_count r.1 + released ≡ active_count old

module _ (base : ℕ → ℕ → ℕ) (n : ℕ) (clock : ℕ → ℕ) where
  at_time-IsLedger : (t : ℕ) (db : Db) → IsLedger base db → IsLedger base (at_time t db)
  at_time-IsLedger t db = IsLedger-same base db (at_time t db) refl refl

  drained_last :
      (total t : ℕ) (db : Db)
      → IsLedger base db
      → swept (suc n) (at_time t db) ≡ []
      → Drains base total db (ok (some total), (sweep_expired (suc n) (at_time t db)).1)
  drained_last total t db l h =
      let now = at_time t db in
      let s = (sweep_expired-Settles base (suc n) now (at_time-IsLedger t db l)).1 in
      let same : (sweep_expired (suc n) now).1.stock_reservations ≡ db.stock_reservations =
        s.reservations
        ∙ update_rows-none (is_swept (expired_ids (suc n) now))
            (settle_row ReservationStatus.expired t) db.stock_reservations h in
      let time : (sweep_expired (suc n) now).1.now ≡ t = ap (λ (d : Db). d.now) s.elsewhere in
      record {
        released = 0;
        returned = ground arith;
        ledger = s.ledger;
        none_expired = rw (same, time) (swept_none n now h);
        counted = rw same (omega arith);
      }

  Drains-more :
      (total m : ℕ) (db mid : Db) (r : Result (Option ℕ) × Db)
      → active_count mid + m ≡ active_count db
      → Drains base (total + m) mid r
      → Drains base total db r
  Drains-more total m db mid r h d = record {
    released = m + d.released;
    returned = d.returned ∙ ap (λ k. ok (some k)) (omega arith);
    ledger = d.ledger;
    none_expired = d.none_expired;
    counted = omega (arith, h, d.counted);
  }

  drain-Drains :
      (fuel total : ℕ) (db : Db)
      → IsLedger base db
      → active_count db < fuel
      → Drains base total db (drain (suc n) fuel clock total db)
  unfolding drain
  drain-Drains zero total db l h = absurd (omega arith)
  drain-Drains (suc fuel) total db l h =
      let now = at_time (clock fuel) db in
      let ledger = at_time-IsLedger (clock fuel) db l in
      let counted = active_count-swept base (suc n) now ledger in
      rw (sweep_once-ok base (suc n) now ledger) (elim (List-cases (swept (suc n) now)) [
        | inl nothing ↦ rw nothing (drained_last total (clock fuel) db l nothing)
        | inr (x, rest, some_rows) ↦ rw some_rows (
            Drains-more total (suc (length rest)) db (sweep_expired (suc n) now).1
              (drain (suc n) fuel clock (total + suc (length rest)) (sweep_expired (suc n) now).1)
              (rw some_rows at counted)
              (drain-Drains fuel (total + suc (length rest)) (sweep_expired (suc n) now).1
                (sweep_expired-Settles base (suc n) now ledger).1.ledger
                (omega (arith, rw some_rows at counted))))
      ])

-- The loop of the sweeper ends: with fuel for one transaction more than there are active
-- reservations, from a database whose account holds, it returns the number of holds that it has
-- released, whatever the times of its transactions; no hold is then expired at the time of the
-- last one, and the account holds.
pub main-Drains :
    (base : ℕ → ℕ → ℕ) (clock : ℕ → ℕ) (fuel : ℕ) (db : Db)
    → IsLedger base db
    → active_count db < fuel
    → Drains base 0 db (main fuel clock db)
unfolding main
main-Drains base clock fuel db = drain-Drains base 499 clock fuel 0 db
