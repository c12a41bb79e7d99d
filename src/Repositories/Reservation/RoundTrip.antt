-- ===== src/Repositories/Reservation/RoundTrip.antt =====
-- `release_reservation` undoes `reserve_stock`: app/repositories/reservation.py.
use canals_assessment.Prelude.{ℕ, ◌≡◌, refl, ap, ◌∙◌, true, List, [], ◌∷◌, arith, All}
use canals_assessment.Domain.Values.{RequestedItem, IsPositive}
use canals_assessment.Db.Rows.{Db}
use canals_assessment.Db.Tx.{Env, is_ok, Ends-is_ok}
use canals_assessment.Repositories.Reservation.{lock_order, reserve_stock, release_reservation}
use canals_assessment.Repositories.Reservation.Ledger.{reserved_at, on_hand_at, IsLedger}
use canals_assessment.Repositories.Reservation.Reserve.{
  wanted_at, order_holds, as_released, Reserves,
}
use canals_assessment.Repositories.Reservation.Atomic.{reserve_stock-Reserves}
use canals_assessment.Repositories.Reservation.GiveBack.{owed_at}
use canals_assessment.Repositories.Reservation.Settle.{release_reservation-Settles}

owed_at-as_released :
    (w v p : ℕ) (items : List RequestedItem)
    → owed_at v p (as_released w items) ≡ wanted_at w v p items
owed_at-as_released w v p [] = refl
owed_at-as_released w v p (i ∷ is) = omega (arith, owed_at-as_released w v p is)

module _ (env : Env) (base : ℕ → ℕ → ℕ) (order w : ℕ) (items : List RequestedItem) (db : Db) where
  -- If, in a database whose account holds, an order that holds nothing reserves positive quantities and then releases them, the release
  -- does not raise, and every pair has the `reserved` and the `on_hand` that it had before.
  pub release-reserve_stock :
      All IsPositive items
      → IsLedger base db
      → order_holds order db ≡ []
      → is_ok (reserve_stock env order w items db).0 ≡ true
      → let released = release_reservation order (reserve_stock env order w items db).1 in
        (is_ok released.0 ≡ true)
        × ((v p : ℕ) → reserved_at v p released.1.inventory ≡ reserved_at v p db.inventory)
        × ((v p : ℕ) → on_hand_at v p released.1.inventory ≡ on_hand_at v p db.inventory)
  release-reserve_stock q l nothing returned =
      let mid = (reserve_stock env order w items db).1 in
      let r =
        (Ends-is_ok (λ r new. Reserves base order w (lock_order items w) db new) (λ e. Unit {0})
          (reserve_stock env order w items db)
          (reserve_stock-Reserves env base order w items db q l) returned).1 in
      let s = release_reservation-Settles base order mid r.ledger in
      let holds : order_holds order mid ≡ as_released w (lock_order items w) =
        rw nothing at r.holds in
      (
        rw s.0,
        λ v p. omega (
          arith,
          s.1.reserved v p,
          r.reserved v p,
          ap (owed_at v p) holds,
          owed_at-as_released w v p (lock_order items w),
        ),
        λ v p. s.1.on_hand v p ∙ r.on_hand v p,
      )
