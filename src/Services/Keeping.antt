-- ===== src/Services/Keeping.antt =====
-- What each method of app/repositories keeps, the services keep: app/services over any property of
-- the database.
use canals_assessment.Prelude.{ℕ, String, Option, none, some, List, [], ◌∷◌, All}
use canals_assessment.Domain.Enums.{IdempotencyStatus, OrderStatus, ReservationStatus}
use canals_assessment.Domain.Values.{
  PaymentResult, PaymentOutcome, PostalAddress, Point, RequestedItem, WarehouseCandidate,
  IsPositive, Coordinates, OrderResponse,
}
use canals_assessment.Db.Rows.{Db, Order, IdempotencyKey, Product, Payload}
use canals_assessment.Db.Tx.{Env, Result, ok, err, lift, begin, Tx, resume, ◌>>=◌}
use canals_assessment.Db.Preserves.{Preserves, begin-Preserves, preserve_rules, Preserves-if}
use canals_assessment.Services.Selection.{
  Geocoder, require_known, require_candidate, select, to_point,
}
use canals_assessment.Services.Creation.{create_in_transaction}
use canals_assessment.Services.Checkout.{
  Request, render, fulfil, complete, compensate, leave_unresolved, place_claimed, place, claim_key,
  after_claim, judge, judge_status, reclaimed, resolve, conclude, answer, open_order, pay, checkout,
  Placed, Charge, charge_of,
}
use canals_assessment.Repositories.Reservation.{
  reserve_stock, release_reservation, settle_for_order,
}
use canals_assessment.Repositories.Orders.{create, add_items, transition, get_for_response}
use canals_assessment.Repositories.Payments.{create_pending, mark_succeeded, mark_unknown}
use canals_assessment.Repositories.Payments
use canals_assessment.Repositories.Outbox.{add}
use canals_assessment.Repositories.Idempotency.{claim, get, reclaim_failed, settle_completed}
use canals_assessment.Repositories.Idempotency
use canals_assessment.Repositories.Warehouses.{select_best, count_products_stocked_anywhere}

-- A property of the database that every method keeps which the saga calls, whenever it returns.
pub record IsKept (P : Db → Type 0) : Type 0 where
  pub reserve_stock :
      (env : Env) (order w : ℕ) (items : List RequestedItem)
      → All IsPositive items
      → Preserves P (reserve_stock env order w items)
  pub release_reservation : (order : ℕ) → Preserves P (release_reservation order)
  pub commit : (order : ℕ) → Preserves P (settle_for_order order ReservationStatus.committed)
  pub create :
      (env : Env) (customer w : ℕ) (address : PostalAddress) (point : Point) (currency : String)
      (total : ℕ)
      → Preserves P (create env customer w address point currency total)
  pub add_items :
      (env : Env) (order : ℕ) (products : List Product) (items : List RequestedItem)
      → All IsPositive items
      → Preserves P (add_items env order products items)
  pub transition :
      (env : Env) (order : ℕ) (a b : OrderStatus) (reason : Option String)
      → Preserves P (transition env order a b reason)
  pub create_pending :
      (env : Env) (order amount : ℕ) (currency description : String)
      → Preserves P (create_pending env order amount currency description)
  pub mark_succeeded :
      (payment : ℕ) (reference brand last4 : Option String)
      → Preserves P (mark_succeeded payment reference brand last4)
  pub mark_unknown :
      (payment : ℕ) (reason : String) (brand last4 : Option String)
      → Preserves P (mark_unknown payment reason brand last4)
  pub payment_failed :
      (payment : ℕ) (reason : String) (brand last4 : Option String)
      → Preserves P (Payments.mark_failed payment reason brand last4)
  pub add_event :
      (env : Env) (event : String) (id : ℕ) (payload : Payload)
      → Preserves P (add env event id payload)
  pub claim : (env : Env) (key hashed : String) → Preserves P (claim env key hashed)
  pub reclaim_failed : (key : String) → Preserves P (reclaim_failed key)
  pub settle_completed :
      (key : String) (body : OrderResponse) (order : ℕ)
      → Preserves P (settle_completed key body 201 order)
  pub key_failed :
      (key : String) (order : Option ℕ) → Preserves P (Idempotency.mark_failed key order)

module _ (P : Db → Type 0) (kept : IsKept P) where
  get-kept : (key : String) → Preserves P (get key)
  unfolding get
  get-kept key = search preserve_rules

  get_for_response-kept : (order : ℕ) → Preserves P (get_for_response order)
  unfolding get_for_response
  get_for_response-kept order = search preserve_rules depth 10

  select_best-kept :
      (env : Env) (point : Point) (items : List RequestedItem)
      → Preserves P (select_best env point items)
  unfolding select_best
  select_best-kept env point [] = search preserve_rules
  select_best-kept env point (i ∷ is) = search preserve_rules

  count-kept : (ids : List ℕ) → Preserves P (count_products_stocked_anywhere ids)
  unfolding count_products_stocked_anywhere
  count-kept ids = search preserve_rules

  require_known-kept : (ids : List ℕ) → Preserves P (require_known ids)
  unfolding require_known
  require_known-kept [] = search (preserve_rules)
  require_known-kept (i ∷ is) = search (preserve_rules)

  require_candidate-kept :
      (ids : List ℕ) (c : Option WarehouseCandidate) → Preserves P (require_candidate ids c)
  unfolding require_candidate
  require_candidate-kept ids (some c) = search preserve_rules
  require_candidate-kept ids none = search (preserve_rules, count-kept)

  select-kept :
      (env : Env) (geocode : Geocoder) (address : PostalAddress) (items : List RequestedItem)
      → Preserves P (select env geocode address items)
  select-kept env geocode address [] = unfold select in search preserve_rules
  select-kept env geocode address (i ∷ is) =
      unfold select in
      search (preserve_rules, select_best-kept, require_known-kept, require_candidate-kept) depth 12

  create_in_transaction-kept :
      (env : Env) (geocode : Geocoder) (customer : ℕ) (address : PostalAddress)
      (items : List RequestedItem) (point : Point)
      → All IsPositive items
      → Preserves P (create_in_transaction env geocode customer address items point)
  create_in_transaction-kept env geocode customer address items point q =
      unfold create_in_transaction in
      search
        (
          preserve_rules, kept.create, kept.add_items, kept.reserve_stock, kept.transition,
          select-kept,
        )
        depth 16

  judge_status-kept :
      (key : String) (e : IdempotencyKey) (s : IdempotencyStatus)
      → Preserves P (judge_status key e s)
  unfolding judge_status reclaimed
  judge_status-kept key e IdempotencyStatus.completed = search preserve_rules
  judge_status-kept key e IdempotencyStatus.in_progress = search preserve_rules
  judge_status-kept key e IdempotencyStatus.failed =
      search (preserve_rules, Preserves-if, kept.reclaim_failed)

  judge-kept : (key hashed : String) (e : Option IdempotencyKey) → Preserves P (judge key hashed e)
  unfolding judge
  judge-kept key hashed none = search preserve_rules
  judge-kept key hashed (some e) = search (preserve_rules, Preserves-if, judge_status-kept)

  after_claim-kept :
      (key hashed : String) (claimed : Option ℕ) → Preserves P (after_claim key hashed claimed)
  unfolding after_claim
  after_claim-kept key hashed (some id) = search preserve_rules
  after_claim-kept key hashed none = search (preserve_rules, get-kept, judge-kept)

  claim_key-kept : (env : Env) (key hashed : String) → Preserves P (claim_key env key hashed)
  claim_key-kept env key hashed =
      unfold claim_key in search (preserve_rules, kept.claim, after_claim-kept)

  place-kept :
      (env : Env) (geocode : Geocoder) (r : Request) (point : Point)
      → All IsPositive r.items
      → Preserves P (place env geocode r point)
  unfolding place place_claimed
  place-kept env geocode r point q =
      search (preserve_rules, kept.create_pending, claim_key-kept, create_in_transaction-kept) depth
        10

  render-kept : (order : ℕ) (reference : Option String) → Preserves P (render order reference)
  render-kept order reference = unfold render in search (preserve_rules, get_for_response-kept)

  complete-kept :
      (env : Env) (order : Order) (payment : ℕ) (result : PaymentResult) (key : String)
      → Preserves P (complete env order payment result key)
  unfolding complete fulfil
  complete-kept env order payment result key =
      search
        (
          preserve_rules, kept.mark_succeeded, kept.transition, kept.commit, kept.add_event,
          kept.settle_completed, render-kept,
        )
        depth 14

  compensate-kept :
      (env : Env) (order : Order) (payment : ℕ) (result : PaymentResult) (key : String)
      → Preserves P (compensate env order payment result key)
  compensate-kept env order payment result key =
      unfold compensate in
      search
        (
          preserve_rules, kept.payment_failed, kept.release_reservation, kept.transition,
          kept.key_failed,
        )
        depth 10

  resolve-kept :
      (env : Env) (placed : Placed) (result : PaymentResult) (key : String) (o : PaymentOutcome)
      → Preserves P (resolve env placed result key o)
  unfolding resolve leave_unresolved
  resolve-kept env placed result key PaymentOutcome.succeeded =
      search (preserve_rules, complete-kept)
  resolve-kept env placed result key PaymentOutcome.declined =
      search (preserve_rules, compensate-kept)
  resolve-kept env placed result key PaymentOutcome.unknown =
      search (preserve_rules, kept.mark_unknown)

  lift_after :
      {A B : Type 0} (m : Tx A) (f : A → Result B) (db : Db)
      → P (m db).1
      → P ((m >>= λ a. lift (f a)) db).1
  lift_after m f db l = go (m db) l
    where
      go : (r : Result _ × Db) → P r.1 → P (resume r.0 (λ a. lift (f a)) r.1).1
      go (ok a, new) h = h
      go (err e, new) h = h

  pub conclude-kept :
      (env : Env) (r : Request) (placed : Placed) (result : PaymentResult) (db : Db)
      → P db
      → P (conclude env r placed result db).1
  unfolding conclude
  conclude-kept env r placed result db l =
      lift_after (begin (resolve env placed result r.idempotency_key result.outcome))
        (λ body. answer placed.order.id result body result.outcome) db
        (begin-Preserves P (resolve env placed result r.idempotency_key result.outcome)
          (resolve-kept env placed result r.idempotency_key result.outcome) db l)

  pub open_order-kept :
      (env : Env) (geocode : Geocoder) (r : Request) (db : Db)
      → All IsPositive r.items
      → P db
      → P (open_order env geocode r db).1
  unfolding open_order
  open_order-kept env geocode r db q l = located (geocode r.address)
    where
      pointed : (p : Result Point) → P ((lift p >>= λ x. begin (place env geocode r x)) db).1
      pointed (ok x) = begin-Preserves P (place env geocode r x) (place-kept env geocode r x q) db l
      pointed (err e) = l

      located :
          (c : Result Coordinates)
          → P ((lift c >>= λ x. lift (to_point x) >>= λ y. begin (place env geocode r y)) db).1
      located (ok c) = pointed (to_point c)
      located (err e) = l

  module _ {Q : Type 0} (charge : Q → Charge → PaymentResult × Q) (env : Env) where
    pay-kept :
        (r : Request) (opened : Result Placed × Db) (provider : Q)
        → P opened.1
        → P (pay charge env r opened provider).1
    unfolding pay
    pay-kept r (ok placed, db) provider l =
        conclude-kept env r placed (charge provider (charge_of env r placed.order)).0 db l
    pay-kept r (err e, db) provider l = l

    pub checkout-kept :
        (geocode : Geocoder) (r : Request) (db : Db) (provider : Q)
        → All IsPositive r.items
        → P db
        → P (checkout charge env geocode r db provider).1
    unfolding checkout
    checkout-kept geocode r db provider q l =
        pay-kept r (open_order env geocode r db) provider (open_order-kept env geocode r db q l)
