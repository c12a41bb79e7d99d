-- ===== src/Repositories/Reservation/Ledger.antt =====
-- The account of the inventory / stock_reservations pair that app/repositories/reservation.py owns,
-- and what an UPDATE of one inventory row does to it.
use canals_assessment.Prelude.{
  ℕ, ◌+◌, ◌≤◌, ◌<◌, ◌≡◌, refl, ◌≢◌, Bool, true, false, ◌&&◌, List, [], ◌∷◌, arith, All, sum_by,
  if◌then◌else◌, ◌==◌, Bool-cases, inl, inr,
}
use canals_assessment.Domain.Enums.{ReservationStatus}
use canals_assessment.Sql.{update_rows, select_rows}
use canals_assessment.Sql.Laws.{update_rows-none, All-update_rows}
use canals_assessment.Db.Rows.{Db, Inventory, StockReservation}
use canals_assessment.Repositories.Reservation.{stocks}

-- A committed reservation has become a sale, and its units stay in `reserved`.
abbrev pub is_holding : ReservationStatus → Bool
is_holding ReservationStatus.active = true
is_holding ReservationStatus.committed = true
is_holding _ = false

abbrev pub held_for : ℕ → ℕ → StockReservation → Bool
held_for w p s = (s.warehouse_id == w) && (s.product_id == p)

-- `reserved` of the row of a pair.
abbrev pub reserved_at : ℕ → ℕ → List Inventory → ℕ
reserved_at w p = sum_by (λ r. if stocks w p r then r.reserved else 0)

-- `on_hand` of the row of a pair.
abbrev pub on_hand_at : ℕ → ℕ → List Inventory → ℕ
on_hand_at w p = sum_by (λ r. if stocks w p r then r.on_hand else 0)

abbrev pub held : ℕ → ℕ → StockReservation → ℕ
held w p s = if held_for w p s && is_holding s.status then s.quantity else 0

-- The units of a pair that reservations hold.
abbrev pub held_at : ℕ → ℕ → List StockReservation → ℕ
held_at w p = sum_by (held w p)

-- The UNIQUE constraint on (warehouse_id, product_id).
abbrev pub IsKeyed : List Inventory → Type 0
IsKeyed [] = Unit
IsKeyed (r ∷ rs) = All (λ s. stocks r.warehouse_id r.product_id s ≡ false) rs × IsKeyed rs

-- The CHECK constraints on both tables, and the account: `reserved` is what stood there before any
-- reservation (`base`, as the seeds insert it) and what reservations hold.
pub record IsLedger (base : ℕ → ℕ → ℕ) (db : Db) : Type 0 where
  pub keyed : IsKeyed db.inventory
  pub bounded : All (λ r. r.reserved ≤ r.on_hand) db.inventory
  pub positive : All (λ s. 0 < s.quantity) db.stock_reservations
  pub accounted :
      (w p : ℕ) → reserved_at w p db.inventory ≡ base w p + held_at w p db.stock_reservations

-- An UPDATE whose WHERE clause fixes the pair and whose SET leaves it alone.
module _ (w p : ℕ) (test : Inventory → Bool) (set : Inventory → Inventory)
    (at : (r : Inventory) → test r ≡ true → stocks w p r ≡ true)
    (keeps_warehouse : (r : Inventory) → (set r).warehouse_id ≡ r.warehouse_id)
    (keeps_product : (r : Inventory) → (set r).product_id ≡ r.product_id) where
  none_selected :
      (r : Inventory) (rs : List Inventory)
      → test r ≡ true
      → All (λ s. stocks r.warehouse_id r.product_id s ≡ false) rs
      → select_rows test rs ≡ []
  none_selected r [] t h = refl
  none_selected r (s ∷ rs) t h = ground (arith, at r t, at s, none_selected r rs t h.1)

  -- One row at most is updated, so a sum moves by what that row moves.
  pub sum_by-update_row :
      (f : Inventory → ℕ) (a b : ℕ) (rs : List Inventory)
      → ((r : Inventory) → test r ≡ true → f (set r) + a ≡ f r + b)
      → IsKeyed rs
      → select_rows test rs ≢ []
      → sum_by f (update_rows test set rs) + a ≡ sum_by f rs + b
  sum_by-update_row f a b [] k u h = absurd (h refl)
  sum_by-update_row f a b (r ∷ rs) k u h = elim (Bool-cases (test r)) [
    | inl t ↦ rw (t, update_rows-none test set rs (none_selected r rs t u.0)) (omega (arith, k r t))
    | inr no_match ↦
        rw no_match (omega (arith, sum_by-update_row f a b rs k u.1 (rw no_match at h)))
  ]

  differs :
      (v q : ℕ) (rs : List Inventory)
      → All (λ s. stocks v q s ≡ false) rs
      → All (λ s. stocks v q s ≡ false) (update_rows test set rs)
  differs v q rs h =
      All-update_rows test (λ s. stocks v q s ≡ false) set rs
        (λ r t k. rw (keeps_warehouse r, keeps_product r) k) h

  pub IsKeyed-update_rows : (rs : List Inventory) → IsKeyed rs → IsKeyed (update_rows test set rs)
  IsKeyed-update_rows [] h = tt
  IsKeyed-update_rows (r ∷ rs) h = elim (Bool-cases (test r)) [
    | inl t ↦
        rw (t, keeps_warehouse r, keeps_product r)
          (differs r.warehouse_id r.product_id rs h.0, IsKeyed-update_rows rs h.1)
    | inr f ↦ rw f (differs r.warehouse_id r.product_id rs h.0, IsKeyed-update_rows rs h.1)
  ]
