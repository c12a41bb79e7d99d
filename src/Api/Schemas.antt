-- ===== src/Api/Schemas.antt =====
-- The request side of app/schemas/order.py. A card number is a text of ASCII characters, so `isdigit`
-- is the test for the ten digits; `luhn_ok` takes the numbers that `int` makes of them. The lengths
-- are counts of characters. What Pydantic makes of the JSON text is left out: the types of the fields,
-- fields that are not named, and the upper-casing of the country code.
pub mod Luhn
pub mod Duplicates
pub mod Addresses
use Prim.Native.Nat.{◌%◌}
use Prim.Native.String.{◌∷◌ as ◌∷ₛ◌, [] as empty, count}
use Prim.Native.Char.{Char, code}
use canals_assessment.Prelude.{
  ℕ, zero, suc, ◌+◌, ◌-◌, ◌*◌, String, Bool, true, false, not, ◌&&◌, ◌||◌, Option, none, some, List,
  [], ◌∷◌, ◌++◌, leb, ltb, ◌==◌, contains, if◌then◌else◌,
}
use canals_assessment.Domain.Values.{RequestedItem, PostalAddress}
use canals_assessment.Adapters.PaymentMock.{plain}

abbrev pub is_digit : Char → Bool
is_digit c = leb 48 (code c) && leb (code c) 57

-- `digits.isdigit()`, which is false of the empty text.
abbrev pub all_digits : String → Bool
all_digits empty = true
all_digits (c ∷ₛ s) = is_digit c && all_digits s

abbrev pub isdigit : String → Bool
isdigit empty = false
isdigit (c ∷ₛ s) = all_digits (c ∷ₛ s)

-- `int(char)` of each character.
abbrev pub digit_values : String → List ℕ
digit_values empty = []
digit_values (c ∷ₛ s) = (code c - 48) ∷ digit_values s

abbrev pub reversed : List ℕ → List ℕ
reversed [] = []
reversed (x ∷ xs) = reversed xs ++ x ∷ []

-- What one digit adds, by its index from the right.
abbrev pub luhn_value : ℕ → ℕ → ℕ
luhn_value index value =
    if index % 2 == 1 then (if ltb 9 (value * 2) then value * 2 - 9 else value * 2) else value

abbrev pub luhn_total : ℕ → List ℕ → ℕ
luhn_total index [] = 0
luhn_total index (v ∷ vs) = luhn_value index v + luhn_total (suc index) vs

-- `_luhn_ok`
unfoldable pub luhn_ok : List ℕ → Bool
luhn_ok digits = luhn_total 0 (reversed digits) % 10 == 0

-- `_validate_card`, whether it returns.
unfoldable pub validate_card : String → Bool
unfolding luhn_ok
validate_card raw =
    isdigit (plain raw)
    && ((leb 12 (count (plain raw)) && leb (count (plain raw)) 19)
        && luhn_ok (digit_values (plain raw)))

-- `_no_duplicate_products`, whether it returns; `seen` is the set so far.
abbrev pub unseen : List ℕ → List RequestedItem → Bool
unseen seen [] = true
unseen seen (i ∷ is) = not (contains i.product_id seen) && unseen (i.product_id ∷ seen) is

unfoldable pub no_duplicate_products : List RequestedItem → Bool
no_duplicate_products items = unseen [] items

abbrev pub is_letter : Char → Bool
is_letter c = (leb 65 (code c) && leb (code c) 90) || (leb 97 (code c) && leb (code c) 122)

abbrev pub all_letters : String → Bool
all_letters empty = true
all_letters (c ∷ₛ s) = is_letter c && all_letters s

-- `Field(min_length=low, max_length=high)`
abbrev pub has_length : ℕ → ℕ → String → Bool
has_length low high s = leb low (count s) && leb (count s) high

-- `Field(default=None, max_length=high)`
abbrev pub is_none_or_short : ℕ → Option String → Bool
is_none_or_short high none = true
is_none_or_short high (some s) = leb (count s) high

-- Whether the fields of a `ShippingAddressIn` pass; the pattern is `^[A-Za-z]{2}$`.
unfoldable pub is_valid_address : PostalAddress → Bool
is_valid_address a =
    (has_length 1 200 a.line1 && is_none_or_short 200 a.line2)
    && ((has_length 1 120 a.city && has_length 1 20 a.postal_code)
        && (has_length 2 2 a.country_code && all_letters a.country_code))

-- `CreateOrderRequest`
pub record CreateOrderRequest : Type 0 where
  pub customer_id : ℕ
  pub shipping_address : PostalAddress
  pub items : List RequestedItem
  pub card_number : String

-- `quantity: int = Field(gt=0)` on every item.
abbrev pub all_positive : List RequestedItem → Bool
all_positive [] = true
all_positive (i ∷ is) = ltb 0 i.quantity && all_positive is

-- `items: list[OrderItemIn] = Field(min_length=1)`
abbrev pub is_nonempty : List RequestedItem → Bool
is_nonempty [] = false
is_nonempty (i ∷ is) = true

-- Whether a body passes validation.
unfoldable pub is_valid : CreateOrderRequest → Bool
unfolding validate_card no_duplicate_products is_valid_address
is_valid r =
    is_valid_address r.shipping_address
    && ((is_nonempty r.items && all_positive r.items)
        && (validate_card r.card_number && no_duplicate_products r.items))
