-- ===== src/Repositories/Reservation/Supply.antt =====
-- When the conditional UPDATE of `reserve_stock` in app/repositories/reservation.py finds its row,
-- and what it does to the account.
use canals_assessment.Prelude.{
  ℕ, ◌+◌, ◌≤◌, ◌<◌, ◌≡◌, refl, ◌≢◌, ◌↔◌, true, false, List, [], ◌∷◌, arith, All, sum_by,
  if◌then◌else◌, Bool-cases, inl, inr,
}
use canals_assessment.Domain.Values.{RequestedItem}
use canals_assessment.Sql.{select_rows}
use canals_assessment.Db.Rows.{Inventory}
use canals_assessment.Repositories.Reservation.{stocks, can_supply}
use canals_assessment.Repositories.Reservation.Ledger.{reserved_at, on_hand_at, IsKeyed}

-- A pair with no row has no stock.
pub sum_absent :
    (f : Inventory → ℕ) (w p : ℕ) (rs : List Inventory)
    → All (λ s. stocks w p s ≡ false) rs
    → sum_by (λ r. if stocks w p r then f r else 0) rs ≡ 0
sum_absent f w p [] h = refl
sum_absent f w p (r ∷ rs) h = rw (h.0, sum_absent f w p rs h.1) refl

module _ (w : ℕ) (i : RequestedItem) where
  none_supply :
      (rs : List Inventory)
      → All (λ s. stocks w i.product_id s ≡ false) rs
      → select_rows (can_supply w i) rs ≡ []
  none_supply [] h = refl
  none_supply (r ∷ rs) h = ground (arith, none_supply rs h.1)

  others_differ :
      (r : Inventory) (rs : List Inventory)
      → stocks w i.product_id r ≡ true
      → All (λ s. stocks r.warehouse_id r.product_id s ≡ false) rs
      → All (λ s. stocks w i.product_id s ≡ false) rs
  others_differ r [] t h = tt
  others_differ r (s ∷ rs) t h = (ground arith, others_differ r rs t h.1)

  supply_here :
      (r : Inventory) (rs : List Inventory)
      → stocks w i.product_id r ≡ true
      → All (λ s. stocks w i.product_id s ≡ false) rs
      → (select_rows (can_supply w i) (r ∷ rs) ≢ [])
        ↔ (reserved_at w i.product_id (r ∷ rs) + i.quantity ≤ on_hand_at w i.product_id (r ∷ rs))
  supply_here r rs t h =
      rw
        (
          t,
          none_supply rs h,
          sum_absent (λ r. r.reserved) w i.product_id rs h,
          sum_absent (λ r. r.on_hand) w i.product_id rs h,
        )
        (λ k. ground arith, λ k. ground arith)

  -- The UPDATE finds a row exactly when the pair's stock covers the quantity on top of what is
  -- reserved.
  pub supply_iff :
      (rs : List Inventory)
      → IsKeyed rs
      → 0 < i.quantity
      → (select_rows (can_supply w i) rs ≢ [])
        ↔ (reserved_at w i.product_id rs + i.quantity ≤ on_hand_at w i.product_id rs)
  supply_iff [] u q = (λ h. absurd (h refl), λ h. absurd (omega arith))
  supply_iff (r ∷ rs) u q = elim (Bool-cases (stocks w i.product_id r)) [
    | inl t ↦ supply_here r rs t (others_differ r rs t u.0)
    | inr f ↦
        let ih = supply_iff rs u.1 q in rw f (λ k. omega (arith, ih.0 k), λ k. ih.1 (omega arith))
  ]
