-- ===== src/Api/Orders/Problems.antt =====
-- What a client of app/api/routes/orders.py gets when `checkout` raises: app/api/errors.py.
use canals_assessment.Prelude.{String, ◌≡◌, Bool, true, false, none, leb}
use canals_assessment.Domain.Errors.{DomainError, Exception}
use canals_assessment.Db.Tx.{err, Env}
use canals_assessment.Api.Errors.{ErrorResponse}
use canals_assessment.Api.Errors
use canals_assessment.Api.Orders.{reply, Body}

-- `ReplayedResponse`, which carries a stored response and is no failure.
abbrev pub is_replayed : Exception → Bool
is_replayed (Exception.replayed body status) = true
is_replayed e = false

-- The reply to a failure: a problem document that repeats the HTTP status, a 4xx or a 5xx, without a
-- Location; and with a 5xx, nothing in it depends on the exceptions' texts.
pub record IsProblem (env : Env) (str : DomainError → String) (e : Exception) : Type 0 where
  pub problem : ErrorResponse
  pub content : (reply env str (err e)).content ≡ Body.problem problem
  pub mirrored : problem.status ≡ (reply env str (err e)).status_code
  pub failed : (leb 400 problem.status ≡ true) × (leb problem.status 599 ≡ true)
  pub unlocated : (reply env str (err e)).location ≡ none
  pub silent :
      (other : DomainError → String)
      → leb 500 problem.status ≡ true
      → reply env other (err e) ≡ reply env str (err e)
