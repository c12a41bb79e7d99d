-- ===== src/Api/Errors.antt =====
-- app/api/errors.py and app/schemas/common.py: exceptions as problem documents. A domain error's text
-- is a parameter. `errors` of a validation failure and the path of the request are left out.
use Prim.Native.String.{◌++◌ as str_append}
use canals_assessment.Prelude.{ℕ, String, Option, none, some, leb, if◌then◌else◌}
use canals_assessment.Domain.Errors.{DomainError, Exception}

pub data ErrorCode : Type 0 where
  validation_error customer_not_found product_not_found no_warehouse_available : ErrorCode
  insufficient_stock payment_declined payment_unresolved geocoding_failed : ErrorCode
  idempotency_key_conflict idempotency_in_progress internal_error : ErrorCode

-- `code.value`
abbrev pub code_value : ErrorCode → String
code_value ErrorCode.validation_error = "validation_error"
code_value ErrorCode.customer_not_found = "customer_not_found"
code_value ErrorCode.product_not_found = "product_not_found"
code_value ErrorCode.no_warehouse_available = "no_warehouse_available"
code_value ErrorCode.insufficient_stock = "insufficient_stock"
code_value ErrorCode.payment_declined = "payment_declined"
code_value ErrorCode.payment_unresolved = "payment_unresolved"
code_value ErrorCode.geocoding_failed = "geocoding_failed"
code_value ErrorCode.idempotency_key_conflict = "idempotency_key_conflict"
code_value ErrorCode.idempotency_in_progress = "idempotency_in_progress"
code_value ErrorCode.internal_error = "internal_error"

-- `_MAPPING`
unfoldable pub mapping : DomainError → ℕ × ErrorCode × String
mapping (DomainError.unknown_product ids) = (422, ErrorCode.product_not_found, "Unknown product")
mapping (DomainError.mixed_currency_basket cs) =
    (422, ErrorCode.validation_error, "Mixed currencies")
mapping (DomainError.idempotency_key_reuse key) =
    (422, ErrorCode.idempotency_key_conflict, "Idempotency key reuse")
mapping DomainError.idempotency_key_required =
    (400, ErrorCode.validation_error, "Idempotency key required")
mapping (DomainError.no_eligible_warehouse a b) =
    (409, ErrorCode.no_warehouse_available, "No warehouse can fulfill this")
mapping (DomainError.insufficient_stock p q) =
    (409, ErrorCode.insufficient_stock, "Insufficient stock")
mapping (DomainError.idempotency_in_progress key) =
    (409, ErrorCode.idempotency_in_progress, "Request already in progress")
mapping (DomainError.payment_declined reason) =
    (402, ErrorCode.payment_declined, "Payment declined")
mapping (DomainError.payment_unresolved reason) =
    (502, ErrorCode.payment_unresolved, "Payment outcome unknown")
mapping (DomainError.geocoding_failed reason) =
    (502, ErrorCode.geocoding_failed, "Address could not be resolved")
mapping (DomainError.invalid_state_transition order expected actual) =
    (500, ErrorCode.internal_error, "Internal error")

-- `ErrorResponse`
pub record ErrorResponse : Type 0 where
  pub type_uri : String
  pub title : String
  pub status : ℕ
  pub detail : Option String
  pub code : ErrorCode

-- `_problem`
unfoldable pub problem : ℕ → ErrorCode → String → Option String → ErrorResponse
problem status_code code title detail = record {
  type_uri = str_append "about:blank#" (code_value code);
  title = title;
  status = status_code;
  detail = detail;
  code = code;
}

module _ (str : DomainError → String) where
  -- `_domain`
  unfoldable pub domain_problem : DomainError → ErrorResponse
  unfolding mapping problem
  domain_problem e =
      let (status_code, code, title) = mapping e in
      problem status_code code title (if leb 500 status_code then none else some (str e))

  -- The handlers of what the route may raise: `_domain`, and `_unhandled` for the rest.
  unfoldable pub error_response : Exception → ErrorResponse
  unfolding domain_problem problem
  error_response (Exception.domain e) = domain_problem e
  error_response _ = problem 500 ErrorCode.internal_error "Internal error" none
