-- ===== src/Api/Schemas/Duplicates.antt =====
-- What a valid request of app/schemas/order.py gives the services.
use canals_assessment.Prelude.{
  ℕ, ◌≡◌, refl, ◌≢◌, ◌↔◌, true, false, List, [], ◌∷◌, arith, All, contains, Bool-cases, inl, inr,
}
use canals_assessment.Domain.Values.{RequestedItem, IsPositive}
use canals_assessment.Repositories.Reservation.Atomic.{IsDistinct}
use canals_assessment.Api.Schemas.Addresses.{IsAddress, is_valid_address_iff}
use canals_assessment.Api.Schemas.{
  CreateOrderRequest, is_valid, validate_card, no_duplicate_products, unseen, all_positive,
  is_nonempty,
}

-- None of the items is among the numbers seen.
abbrev IsUnseen : List ℕ → List RequestedItem → Type 0
IsUnseen seen = All (λ i. contains i.product_id seen ≡ false)

IsUnseen-add :
    (p : ℕ) (seen : List ℕ) (is : List RequestedItem)
    → IsUnseen (p ∷ seen) is ↔ (All (λ j. p ≢ j.product_id) is × IsUnseen seen is)
IsUnseen-add p seen [] = (λ h. (tt, tt), λ h. tt)
IsUnseen-add p seen (i ∷ is) = (
  λ h.
      let k = (IsUnseen-add p seen is).0 h.1 in
      ((ground (arith, h.0), k.0), (ground (arith, h.0), k.1)),
  λ h. (ground (arith, h.0.0, h.1.0), (IsUnseen-add p seen is).1 (h.0.1, h.1.1)),
)

unseen_iff :
    (seen : List ℕ) (is : List RequestedItem)
    → (unseen seen is ≡ true) ↔ (IsDistinct is × IsUnseen seen is)
unseen_iff seen [] = (λ h. (tt, tt), λ h. refl)
unseen_iff seen (i ∷ is) = elim (Bool-cases (contains i.product_id seen)) [
  | inl t ↦ (λ h. cc, λ h. cc)
  | inr f ↦
      let rest = unseen_iff (i.product_id ∷ seen) is in
      let added = IsUnseen-add i.product_id seen is in
      (
        λ h. let k = rest.0 (rw f at h) in let m = added.0 k.1 in ((m.0, k.0), (f, m.1)),
        λ h. rw f (rest.1 (h.0.1, added.1 (h.0.0, h.1.1))),
      )
]

IsUnseen-empty : (is : List RequestedItem) → IsUnseen [] is
IsUnseen-empty [] = tt
IsUnseen-empty (i ∷ is) = (refl, IsUnseen-empty is)

-- The validator of a request returns exactly when no product is named twice.
no_duplicate_products_iff :
    (items : List RequestedItem) → (no_duplicate_products items ≡ true) ↔ IsDistinct items
unfolding no_duplicate_products
no_duplicate_products_iff items =
    let h = unseen_iff [] items in (λ k. (h.0 k).0, λ k. h.1 (k, IsUnseen-empty items))

IsPositive-all_positive :
    (items : List RequestedItem) → All IsPositive items → all_positive items ≡ true
IsPositive-all_positive [] h = refl
IsPositive-all_positive (i ∷ is) h = ground (arith, h.0, IsPositive-all_positive is h.1)

all_positive-IsPositive :
    (items : List RequestedItem) → all_positive items ≡ true → All IsPositive items
all_positive-IsPositive [] h = tt
all_positive-IsPositive (i ∷ is) h = (ground arith, all_positive-IsPositive is (ground arith))

-- A request passes validation exactly when its first line, city and postal code have at least one
-- character and at most 200, 120 and 20, its second line, if any, at most 200, its country is two
-- letters, it has at least one item, every quantity is positive, no product is named twice, and its
-- card number passes.
pub is_valid_iff :
    (r : CreateOrderRequest)
    → (is_valid r ≡ true) ↔ (
        IsAddress r.shipping_address
        × (is_nonempty r.items ≡ true)
        × All IsPositive r.items
        × IsDistinct r.items
        × (validate_card r.card_number ≡ true))
unfolding is_valid
is_valid_iff r = (
  λ h. (
    (is_valid_address_iff r.shipping_address).0 (ground (arith, h)),
    ground arith,
    all_positive-IsPositive r.items (ground arith),
    (no_duplicate_products_iff r.items).0 (ground arith),
    ground arith,
  ),
  λ h. ground (
    arith,
    (is_valid_address_iff r.shipping_address).1 h.0,
    h.1,
    h.4,
    (no_duplicate_products_iff r.items).1 h.3,
    IsPositive-all_positive r.items h.2,
  ),
)
