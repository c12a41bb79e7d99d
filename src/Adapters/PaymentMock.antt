-- ===== src/Adapters/PaymentMock.antt =====
-- app/adapters/payment_mock.py. Both fields of the provider are its state: the dict of results as the
-- list of its entries in insertion order.
pub mod Idempotent
use Prim.Native.String.{◌++◌ as str_append, ◌∷◌ as ◌∷ₛ◌, [] as empty, count}
use Prim.Native.Char.{code}
use canals_assessment.Prelude.{
  ℕ, zero, suc, ◌-◌, String, Bool, ◌||◌, Option, none, some, List, [], ◌∷◌, ◌++◌, str_eq, ◌==◌,
  head?, map, if◌then◌else◌,
}
use canals_assessment.Domain.Values.{PaymentResult, PaymentOutcome}
use canals_assessment.Sql.{select_rows}
use canals_assessment.Services.Checkout.{Charge}

-- `s.replace(" ", "").replace("-", "")`
abbrev pub plain : String → String
plain empty = empty
plain (c ∷ₛ s) = let rest = plain s in if (code c == 32) || (code c == 45) then rest else c ∷ₛ rest

-- `s[:n]`
abbrev pub take_text : ℕ → String → String
take_text zero s = empty
take_text (suc n) empty = empty
take_text (suc n) (c ∷ₛ s) = c ∷ₛ take_text n s

abbrev pub drop_text : ℕ → String → String
drop_text zero s = s
drop_text (suc n) empty = empty
drop_text (suc n) (c ∷ₛ s) = drop_text n s

-- `s[-4:]`
abbrev pub last4 : String → String
last4 s = drop_text (count s - 4) s

abbrev pub is_mastercard : String → Bool
is_mastercard p =
    str_eq p "51" || (str_eq p "52" || (str_eq p "53" || (str_eq p "54" || str_eq p "55")))

-- `_brand`
unfoldable pub brand : String → String
brand digits =
    if str_eq (take_text 1 digits) "4"
    then "visa"
    else if is_mastercard (take_text 2 digits)
    then "mastercard"
    else if str_eq (take_text 2 digits) "34" || str_eq (take_text 2 digits) "37"
    then "amex"
    else "unknown"

pub record MockPaymentProvider : Type 0 where
  pub charged_keys : List String
  pub results : List (String × PaymentResult)

abbrev pub has_result : String → String × PaymentResult → Bool
has_result key e = str_eq e.0 key

-- `self._results.get(…)`, which is also `get_by_idempotency_key`.
unfoldable pub get_by_idempotency_key : MockPaymentProvider → String → Option PaymentResult
get_by_idempotency_key self key = head? (map (λ e. e.1) (select_rows (has_result key) self.results))

abbrev pub refusal : PaymentOutcome → String → String → PaymentResult
refusal outcome reason digits = record {
  outcome = outcome;
  reference = none;
  failure_reason = some reason;
  card_brand = some (brand digits);
  card_last4 = some (last4 digits);
}

-- What the card's last four digits make of a charge.
unfoldable pub outcome_of : String → String → PaymentResult
outcome_of digits key =
    if str_eq (last4 digits) "0002"
    then refusal PaymentOutcome.declined "card declined" digits
    else if str_eq (last4 digits) "0069"
    then refusal PaymentOutcome.unknown "provider timeout" digits
    else if str_eq (last4 digits) "0119"
    then refusal PaymentOutcome.unknown "provider error" digits
    else record {
      outcome = PaymentOutcome.succeeded;
      reference = some (str_append "mock_" (take_text 12 key));
      failure_reason = none;
      card_brand = some (brand digits);
      card_last4 = some (last4 digits);
    }

-- A key without a result is charged, and its result recorded.
unfoldable pub charged :
    MockPaymentProvider → Charge → Option PaymentResult → PaymentResult × MockPaymentProvider
charged self c (some result) = (result, self)
charged self c none =
    let result = outcome_of (plain c.card) c.idempotency_key in
    (
      result,
      record {
        charged_keys = self.charged_keys ++ c.idempotency_key ∷ [];
        results = self.results ++ (c.idempotency_key, result) ∷ [];
      },
    )

unfoldable pub charge : MockPaymentProvider → Charge → PaymentResult × MockPaymentProvider
unfolding charged get_by_idempotency_key
charge self c = charged self c (get_by_idempotency_key self c.idempotency_key)
