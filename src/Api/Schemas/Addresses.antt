-- ===== src/Api/Schemas/Addresses.antt =====
-- What the limits of `ShippingAddressIn` of app/schemas/order.py admit.
use Prim.Native.String.{◌∷◌ as ◌∷ₛ◌, [] as empty, count}
use Prim.Native.Char.{Char}
use text.Mathlib.TextLemmas.{length-nil, length-cons}
use canals_assessment.Prelude.{
  ℕ, String, ◌≡◌, refl, ◌≤◌, ◌↔◌, true, ◌&&◌, Option, none, some, arith,
}
use canals_assessment.Domain.Values.{PostalAddress}
use canals_assessment.Api.Schemas.{
  is_letter, all_letters, has_length, is_none_or_short, is_valid_address,
}

-- A text of two letters.
abbrev pub IsCountry : String → Type 0
IsCountry s = (x y : Char) × (s ≡ x ∷ₛ (y ∷ₛ empty)) × (is_letter x ≡ true) × (is_letter y ≡ true)

abbrev pub IsShort : ℕ → Option String → Type 0
IsShort high none = Unit
IsShort high (some s) = count s ≤ high

-- Texts that are there and not too long, and two letters for the country.
pub record IsAddress (a : PostalAddress) : Type 0 where
  pub line1 : (1 ≤ count a.line1) × (count a.line1 ≤ 200)
  pub line2 : IsShort 200 a.line2
  pub city : (1 ≤ count a.city) × (count a.city ≤ 120)
  pub postal_code : (1 ≤ count a.postal_code) × (count a.postal_code ≤ 20)
  pub country_code : IsCountry a.country_code

is_none_or_short-IsShort :
    (high : ℕ) (o : Option String) → is_none_or_short high o ≡ true ↔ IsShort high o
is_none_or_short-IsShort high none = (λ h. tt, λ h. refl)
is_none_or_short-IsShort high (some s) = (λ h. ground (arith, h), λ h. ground (arith, h))

two_letters : (s : String) → count s ≡ 2 → all_letters s ≡ true → IsCountry s
two_letters empty h k = absurd (omega (arith, h, length-nil))
two_letters (x ∷ₛ empty) h k = absurd (omega (arith, h, length-cons x empty, length-nil))
two_letters (x ∷ₛ (y ∷ₛ empty)) h k = (x, y, refl, ground (arith, k), ground (arith, k))
two_letters (x ∷ₛ (y ∷ₛ (z ∷ₛ s))) h k =
    absurd
      (omega (arith, h, length-cons x (y ∷ₛ (z ∷ₛ s)), length-cons y (z ∷ₛ s), length-cons z s))

has_length-IsCountry : (s : String) → has_length 2 2 s ≡ true → all_letters s ≡ true → IsCountry s
has_length-IsCountry s h = two_letters s (ground (arith, h))

IsCountry-has_length : (s : String) → IsCountry s → (has_length 2 2 s && all_letters s) ≡ true
IsCountry-has_length s (x, y, e, a, b) =
    let two : count (x ∷ₛ (y ∷ₛ empty)) ≡ 2 =
      omega (arith, length-cons x (y ∷ₛ empty), length-cons y empty, length-nil) in
    rw (e, two, a, b) refl

-- The limits admit just such addresses.
pub is_valid_address_iff : (a : PostalAddress) → is_valid_address a ≡ true ↔ IsAddress a
unfolding is_valid_address
is_valid_address_iff a = (
  λ h. record {
    line1 = ground (arith, h);
    line2 = (is_none_or_short-IsShort 200 a.line2).0 (ground (arith, h));
    city = ground (arith, h);
    postal_code = ground (arith, h);
    country_code = has_length-IsCountry a.country_code (ground (arith, h)) (ground (arith, h));
  },
  λ h. ground (
    arith,
    h.line1,
    h.city,
    h.postal_code,
    (is_none_or_short-IsShort 200 a.line2).1 h.line2,
    IsCountry-has_length a.country_code h.country_code,
  ),
)
