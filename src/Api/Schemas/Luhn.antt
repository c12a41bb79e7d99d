-- ===== src/Api/Schemas/Luhn.antt =====
-- The checksum of app/schemas/order.py.
use canals_assessment.Prelude.{
  ℕ, suc, ◌+◌, ◌≤◌, ◌≡◌, refl, ◌≢◌, true, false, Bool-cases, inl, inr, List, [], ◌∷◌, ◌++◌, arith,
  length, ==_iff,
}
use mathlib.Core.List.{append_assoc}
use canals_assessment.Api.Schemas.{luhn_value, luhn_total, luhn_ok, reversed}

luhn_value-bound : (i v : ℕ) → v ≤ 9 → luhn_value i v ≤ 9
luhn_value-bound i v h = ground arith

luhn_value_injective : (i v w : ℕ) → v ≤ 9 → w ≤ 9 → luhn_value i v ≡ luhn_value i w → v ≡ w
luhn_value_injective i v w h k e = ground arith

add_zero : (i : ℕ) → i + 0 ≡ i
add_zero i = omega arith

luhn_total-append :
    (i : ℕ) (xs : List ℕ) (v : ℕ) (ys : List ℕ)
    → luhn_total i (xs ++ v ∷ ys)
      ≡ luhn_total i xs + (luhn_value (i + length xs) v + luhn_total (suc (i + length xs)) ys)
luhn_total-append i [] v ys = rw (add_zero i) (omega arith)
luhn_total-append i (x ∷ xs) v ys =
    let e : suc i + length xs ≡ i + suc (length xs) = omega arith in
    omega (arith, rw e at (luhn_total-append (suc i) xs v ys))

reversed-append :
    (xs : List ℕ) (v : ℕ) (ys : List ℕ) → reversed (xs ++ v ∷ ys) ≡ reversed ys ++ v ∷ reversed xs
reversed-append [] v ys = refl
reversed-append (x ∷ xs) v ys =
    rw (reversed-append xs v ys) (append_assoc (reversed ys) (v ∷ reversed xs) (x ∷ []))

same_digit :
    (xs ys : List ℕ) (v w : ℕ)
    → v ≤ 9
    → w ≤ 9
    → luhn_ok (xs ++ v ∷ ys) ≡ true
    → luhn_ok (xs ++ w ∷ ys) ≡ true
    → v ≡ w
unfolding luhn_ok
same_digit xs ys v w h k p q =
    let i = 0 + length (reversed ys) in
    luhn_value_injective i v w h k (
      omega (
        arith,
        luhn_value-bound i v h,
        luhn_value-bound i w k,
        luhn_total-append 0 (reversed ys) v (reversed xs),
        luhn_total-append 0 (reversed ys) w (reversed xs),
        (==_iff _ 0).0 (rw (reversed-append xs v ys) at p),
        (==_iff _ 0).0 (rw (reversed-append xs w ys) at q),
      ))

-- The checksum finds any one wrong digit: a number that passes fails once one of its digits is
-- replaced by a different one.
pub luhn_ok-one_digit :
    (xs ys : List ℕ) (v w : ℕ)
    → v ≤ 9
    → w ≤ 9
    → v ≢ w
    → luhn_ok (xs ++ v ∷ ys) ≡ true
    → luhn_ok (xs ++ w ∷ ys) ≡ false
luhn_ok-one_digit xs ys v w h k other p = elim (Bool-cases (luhn_ok (xs ++ w ∷ ys))) [
  | inl q ↦ absurd (other (same_digit xs ys v w h k p q))
  | inr f ↦ f
]
