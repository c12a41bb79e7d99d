-- ===== src/Services/Frames.antt =====
-- app/services leaves the idempotency keys to `_claim_key` and to the end of the saga.
use canals_assessment.Prelude.{ℕ, String, List, [], ◌∷◌, Option, none, some}
use canals_assessment.Db.Rows.{Db, Order}
use canals_assessment.Domain.Values.{
  PaymentResult, PostalAddress, Point, RequestedItem, WarehouseCandidate,
}
use canals_assessment.Db.Tx.{Env}
use canals_assessment.Db.Frame.{Frames, frame_rules}
use canals_assessment.Repositories.Frames.{keys, key_rules, select_best-reads, count-reads}
use canals_assessment.Services.Selection.{Geocoder, require_known, require_candidate, select}
use canals_assessment.Services.Creation.{create_in_transaction}
use canals_assessment.Services.Checkout.{Request, render, fulfil, place_claimed}

-- Selection only reads.
module _ {B : Type 0} (view : Db → B) where
  require_known-reads : (ids : List ℕ) → Frames view (require_known ids)
  unfolding require_known
  require_known-reads [] = search frame_rules
  require_known-reads (i ∷ is) = search frame_rules

  require_candidate-reads :
      (ids : List ℕ) (c : Option WarehouseCandidate) → Frames view (require_candidate ids c)
  unfolding require_candidate
  require_candidate-reads ids (some c) = search frame_rules
  require_candidate-reads ids none = search (frame_rules, count-reads)

  pub select-reads :
      (env : Env) (geocode : Geocoder) (address : PostalAddress) (items : List RequestedItem)
      → Frames view (select env geocode address items)
  select-reads env geocode address [] = unfold select in search frame_rules
  select-reads env geocode address (i ∷ is) =
      unfold select in
      search (frame_rules, select_best-reads, require_known-reads, require_candidate-reads) depth 12

pub create_in_transaction-keys :
    (env : Env) (geocode : Geocoder) (customer : ℕ) (address : PostalAddress)
    (items : List RequestedItem) (point : Point)
    → Frames keys (create_in_transaction env geocode customer address items point)
create_in_transaction-keys env geocode customer address items point =
    unfold create_in_transaction in search (key_rules, select-reads) depth 14

pub render-keys : (order : ℕ) (reference : Option String) → Frames keys (render order reference)
render-keys order reference = unfold render in search key_rules

pub fulfil-keys :
    (env : Env) (order : Order) (payment : ℕ) (result : PaymentResult)
    → Frames keys (fulfil env order payment result)
fulfil-keys env order payment result = unfold fulfil in search (key_rules, render-keys) depth 10

pub place_claimed-keys :
    (env : Env) (geocode : Geocoder) (r : Request) (point : Point)
    → Frames keys (place_claimed env geocode r point)
place_claimed-keys env geocode r point =
    unfold place_claimed in search (key_rules, create_in_transaction-keys) depth 8
