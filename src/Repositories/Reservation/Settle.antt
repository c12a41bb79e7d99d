-- ===== src/Repositories/Reservation/Settle.antt =====
-- `_settle`, `release_reservation`, `settle_for_order` and `sweep_expired` of
-- app/repositories/reservation.py.
use canals_assessment.Prelude.{
  ℕ, ◌+◌, ◌<◌, ◌≡◌, refl, sym, ap, ◌∙◌, Bool, true, false, List, [], ◌∷◌, map, arith, All, sum_by,
  if◌then◌else◌,
}
use canals_assessment.Prelude.Sorting.{sort_by, sum_by-sort_by, All-sort_by}
use canals_assessment.Domain.Enums.{ReservationStatus, is_active}
use canals_assessment.Sql.{update_rows, select_rows}
use canals_assessment.Sql.Laws.{
  All-update_rows, All-select_rows, sum_by-update_rows, sum_by-update_rows_same, select-update_rows,
  update_rows-none,
}
use canals_assessment.Db.Rows.{Db, StockReservation}
use canals_assessment.Db.Tx.{Result}
use canals_assessment.Repositories.Reservation.{
  give_back, settle, settle_row, released_item, released_leb, holds_for, release_reservation,
  settle_for_order, is_swept, expired_ids, sweep_expired,
}
use canals_assessment.Repositories.Reservation.Ledger.{
  reserved_at, on_hand_at, held_at, held, held_for, is_holding, IsLedger,
}
use canals_assessment.Repositories.Reservation.GiveBack.{
  owed, owed_at, IsReturnable, IsOwing, give_back-GivesBack,
}

owed_at-released :
    (v p : ℕ) (rs : List StockReservation)
    → owed_at v p (map released_item rs) ≡ sum_by (λ s. if held_for v p s then s.quantity else 0) rs
owed_at-released v p [] = refl
owed_at-released v p (s ∷ rs) = omega (arith, owed_at-released v p rs)

returnable :
    (rs : List StockReservation)
    → All (λ s. 0 < s.quantity) rs
    → All IsReturnable (map released_item rs)
returnable [] h = tt
returnable (s ∷ rs) h = (h.0, returnable rs h.1)

-- What a settlement of the rows that satisfy `test` has done: the account holds, each pair's
-- `reserved` has fallen by what those rows held, they have the new status, and no other table has
-- changed.
pub record Settles (base : ℕ → ℕ → ℕ) (test : StockReservation → Bool) (status : ReservationStatus)
    (old new : Db) : Type 0 where
  pub ledger : IsLedger base new
  pub reserved :
      (v p : ℕ)
      → reserved_at v p new.inventory
          + owed_at v p (map released_item (select_rows test old.stock_reservations))
        ≡ reserved_at v p old.inventory
  pub on_hand : (v p : ℕ) → on_hand_at v p new.inventory ≡ on_hand_at v p old.inventory
  pub reservations :
      new.stock_reservations ≡ update_rows test (settle_row status old.now) old.stock_reservations
  pub elsewhere :
      new ≡ record old { inventory = new.inventory; stock_reservations = new.stock_reservations }

module _ (base : ℕ → ℕ → ℕ) (test : StockReservation → Bool) (status : ReservationStatus)
    (active : (s : StockReservation) → test s ≡ true → is_active s.status ≡ true)
    (ends : is_holding status ≡ false) where
  abbrev claimed_db : Db → Db
  claimed_db db = record db {
    stock_reservations = update_rows test (settle_row status db.now) db.stock_reservations;
  }

  held-claimed :
      (v p : ℕ) (db : Db)
      → held_at v p (claimed_db db).stock_reservations
          + owed_at v p (map released_item (select_rows test db.stock_reservations))
        ≡ held_at v p db.stock_reservations
  held-claimed v p db = rw (owed_at-released v p (select_rows test db.stock_reservations)) (
      sum_by-update_rows test (held v p) (λ s. if held_for v p s then s.quantity else 0)
        (settle_row status db.now) db.stock_reservations (λ s t. ground (arith, active s t)))

  claimed_db-IsOwing :
      (db : Db)
      → IsLedger base db
      → IsOwing base
          (sort_by released_leb (map released_item (select_rows test db.stock_reservations)))
          (claimed_db db)
  claimed_db-IsOwing db l = record {
    keyed = l.keyed;
    bounded = l.bounded;
    positive =
        All-update_rows test (λ s. 0 < s.quantity) (settle_row status db.now) db.stock_reservations
          (λ s t h. h) l.positive;
    accounted = λ v p. omega (
      arith,
      l.accounted v p,
      held-claimed v p db,
      sum_by-sort_by released_leb (owed v p)
          (map released_item (select_rows test db.stock_reservations)),
    );
  }

  -- A settlement never raises, returns what its rows held, and hands exactly that back.
  pub settle-Settles :
      (db : Db)
      → IsLedger base db
      → ((settle test status db).0
          ≡ Result.ok (map released_item (select_rows test db.stock_reservations)))
        × Settles base test status db (settle test status db).1
  unfolding settle
  settle-Settles db l =
      let rows = select_rows test db.stock_reservations in
      let items = sort_by released_leb (map released_item rows) in
      let new = (give_back items (claimed_db db)).1 in
      let g =
        give_back-GivesBack base items (claimed_db db)
          (All-sort_by released_leb IsReturnable (map released_item rows) (
            returnable rows
              (All-select_rows test (λ s. 0 < s.quantity) db.stock_reservations l.positive)))
          (claimed_db-IsOwing db l) in
      let moved : new.stock_reservations ≡ (claimed_db db).stock_reservations =
        ap (λ (d : Db). d.stock_reservations) g.1.elsewhere in
      rw g.0 (
        refl,
        record {
          ledger = g.1.ledger;
          reserved = λ v p. omega (
            arith,
            g.1.reserved v p,
            sum_by-sort_by released_leb (owed v p) (map released_item rows),
          );
          on_hand = g.1.on_hand;
          reservations = moved;
          elsewhere =
              g.1.elsewhere
              ∙ ap (λ rs. record db { inventory = new.inventory; stock_reservations = rs })
                  (sym moved);
        },
      )

-- With no active reservation there is nothing to release.
release_nothing :
    (order : ℕ) (db : Db)
    → select_rows (holds_for order) db.stock_reservations ≡ []
    → release_reservation order db ≡ (Result.ok [], db)
unfolding release_reservation settle give_back
release_nothing order db h = rw (
  h,
  update_rows-none (holds_for order) (settle_row ReservationStatus.released db.now)
      db.stock_reservations h,
)

module _ (base : ℕ → ℕ → ℕ) (order : ℕ) (db : Db) (l : IsLedger base db) where
  -- Releasing an order's stock never raises while the account holds, returns exactly what the
  -- order's active reservations held, and lowers `reserved` of each pair by just that.
  pub release_reservation-Settles :
      ((release_reservation order db).0
        ≡ Result.ok (map released_item (select_rows (holds_for order) db.stock_reservations)))
      × Settles base
          (holds_for order)
          ReservationStatus.released
          db
          (release_reservation order db).1
  unfolding release_reservation
  release_reservation-Settles =
      settle-Settles base (holds_for order) ReservationStatus.released (λ s t. ground arith) refl db
        l

  pub nothing_held :
      select_rows (holds_for order) (release_reservation order db).1.stock_reservations ≡ []
  nothing_held = rw release_reservation-Settles.1.reservations (
      select-update_rows (holds_for order) (settle_row ReservationStatus.released db.now)
        db.stock_reservations (λ s t. ground arith))

  -- A second release of the same order is a no-op: it returns nothing and changes no table.
  pub release_twice :
      release_reservation order (release_reservation order db).1
      ≡ (Result.ok [], (release_reservation order db).1)
  release_twice = release_nothing order (release_reservation order db).1 nothing_held

module _ (base : ℕ → ℕ → ℕ) (batch : ℕ) (db : Db) (l : IsLedger base db) where
  -- A sweep never raises while the account holds, returns what the rows that it claimed held, and
  -- hands back just that; it changes nothing but inventory and those reservations.
  pub sweep_expired-Settles :
      ((sweep_expired batch db).0
        ≡ Result.ok (
            map released_item
              (select_rows (is_swept (expired_ids batch db)) db.stock_reservations)))
      × Settles base
          (is_swept (expired_ids batch db))
          ReservationStatus.expired
          db
          (sweep_expired batch db).1
  unfolding sweep_expired
  sweep_expired-Settles =
      settle-Settles base (is_swept (expired_ids batch db)) ReservationStatus.expired
        (λ s t. ground arith) refl db l

-- A committed hold keeps its units in `reserved`: the account, if it holds before, holds after
-- `settle_for_order` with `committed`, which never raises, and inventory is as before.
pub settle_for_order-IsLedger :
    (base : ℕ → ℕ → ℕ) (order : ℕ) (db : Db)
    → IsLedger base db
    → ((settle_for_order order ReservationStatus.committed db).0 ≡ Result.ok tt)
      × IsLedger base (settle_for_order order ReservationStatus.committed db).1
      × ((settle_for_order order ReservationStatus.committed db).1.inventory ≡ db.inventory)
unfolding settle_for_order
settle_for_order-IsLedger base order db l = (
  refl,
  record {
    keyed = l.keyed;
    bounded = l.bounded;
    positive =
        All-update_rows (holds_for order) (λ s. 0 < s.quantity)
          (settle_row ReservationStatus.committed db.now) db.stock_reservations (λ s t h. h)
          l.positive;
    accounted = λ v p. omega (
      arith,
      l.accounted v p,
      sum_by-update_rows_same (holds_for order) (held v p)
          (settle_row ReservationStatus.committed db.now) db.stock_reservations
          (λ s t. ground arith),
    );
  },
  refl,
)
