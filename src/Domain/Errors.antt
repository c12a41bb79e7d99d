-- ===== src/Domain/Errors.antt =====
-- app/domain/errors.py, and the other exceptions that the modelled code raises.
use canals_assessment.Prelude.{ℕ, String, List, Option}
use canals_assessment.Domain.Values.{OrderResponse}

-- One constructor for each subclass of DomainError, with what its `__init__` stores.
pub data DomainError : Type 0 where
  geocoding_failed : String → DomainError
  unknown_product : List ℕ → DomainError
  no_eligible_warehouse : ℕ → ℕ → DomainError
  insufficient_stock : ℕ → ℕ → DomainError
  invalid_state_transition : ℕ → String → String → DomainError
  mixed_currency_basket : List String → DomainError
  idempotency_key_required : DomainError
  idempotency_key_reuse : String → DomainError
  idempotency_in_progress : String → DomainError
  payment_declined : String → DomainError
  payment_unresolved : String → DomainError

-- `replayed` is ReplayedResponse with its body (`none` is the empty dict) and status; a row that a
-- constraint refuses is `integrity_error`.
pub data Exception : Type 0 where
  domain : DomainError → Exception
  replayed : Option OrderResponse → ℕ → Exception
  runtime_error value_error lookup_error key_error stop_iteration integrity_error : Exception
