-- ===== src/System/Keys.antt =====
-- What a transaction on one key leaves of the row of another: app/repositories/idempotency.py under
-- app/services/order_checkout.py.
use canals_assessment.Prelude.{
  ℕ, String, ◌≡◌, refl, ap, Bool, true, false, Option, none, some, List, [], ◌∷◌, ◌++◌,
  if◌then◌else◌, arith, str_eq, eq_iff, Bool-cases, inl, inr,
}
use canals_assessment.Domain.Enums.{IdempotencyStatus, OrderStatus}
use canals_assessment.Domain.Values.{PaymentResult, PaymentOutcome, OrderResponse, Point}
use canals_assessment.Sql.{update_rows, exists_row}
use canals_assessment.Db.Rows.{Db, IdempotencyKey, Order}
use canals_assessment.Db.Tx.{Result, ok, err, Tx, begin, commit_or_rollback, lift, Env}
use canals_assessment.Db.Frame.{Frames, Frames-bind, Frames-lift, Frames-pure, frame_rules}
use canals_assessment.Repositories.Idempotency.{
  has_key, is_failed_key, reopen, complete_key, fail_key, claim, insert_key, get, reclaim_failed,
  settle_completed,
}
use canals_assessment.Repositories.Idempotency
use canals_assessment.Repositories.Idempotency.Claims.{stored}
use canals_assessment.Repositories.Payments
use canals_assessment.Repositories.Payments.{mark_unknown}
use canals_assessment.Repositories.Frames.{keys, release_reservation-keys, transition-keys}
use canals_assessment.Repositories.Orders.{transition}
use canals_assessment.Repositories.Reservation.{release_reservation}
use canals_assessment.Services.Frames.{fulfil-keys, place_claimed-keys}
use canals_assessment.Services.Selection.{Geocoder, to_point}
use canals_assessment.Services.Checkout.{
  Request, Placed, claim_key, after_claim, judge, judge_status, reclaimed, place, place_claimed,
  text_or, open_order, fulfil, complete, compensate, leave_unresolved, resolve, answer, conclude,
}

-- A text equal to `k` is not equal to another text.
other_key :
    (k other a : String) → str_eq k other ≡ false → str_eq a k ≡ true → str_eq a other ≡ false
other_key k other a h e = rw ((eq_iff a k).0 e) h

module _ (k other : String) (differ : str_eq k other ≡ false) where
  stored-append :
      (rows : List IdempotencyKey) (new : IdempotencyKey)
      → new.key ≡ k
      → stored other (rows ++ new ∷ []) ≡ stored other rows
  stored-append [] new e = rw (e, differ) refl
  stored-append (r ∷ rs) new e = ground (arith, stored-append rs new e)

  stored-elsewhere :
      (test : IdempotencyKey → Bool) (set : IdempotencyKey → IdempotencyKey)
      (rows : List IdempotencyKey)
      → ((r : IdempotencyKey) → (set r).key ≡ r.key)
      → ((r : IdempotencyKey) → test r ≡ true → str_eq r.key k ≡ true)
      → stored other (update_rows test set rows) ≡ stored other rows
  stored-elsewhere test set [] same only = refl
  stored-elsewhere test set (r ∷ rs) same only = ground (
    arith,
    stored-elsewhere test set rs same only,
    same r,
    only r,
    other_key k other r.key differ,
  )

-- The row that a lookup of `other` finds.
abbrev pub row_of : String → Db → Option IdempotencyKey
row_of other db = stored other db.idempotency_keys

pub Frames-begin : {A B : Type 0} (view : Db → B) (m : Tx A) → Frames view m → Frames view (begin m)
unfolding begin
Frames-begin {A} view m f = record { at = λ db. go db (m db) (f.at db) }
  where
    go :
        (db : Db) (r : Result A × Db)
        → view r.1 ≡ view db
        → view (commit_or_rollback db r).1 ≡ view db
    go db (ok a, new) e = e
    go db (err x, new) e = refl

-- Code that leaves the keys alone leaves each of their rows.
pub keys-row_of : {A : Type 0} (other : String) (m : Tx A) → Frames keys m → Frames (row_of other) m
keys-row_of other m f = record { at = λ db. ap (stored other) (f.at db) }

payment_failed-keys :
    (payment : ℕ) (reason : String) (brand last4 : Option String)
    → Frames keys (Payments.mark_failed payment reason brand last4)
unfolding Payments.mark_failed
payment_failed-keys payment reason brand last4 = record { at = λ db. refl }

leave_unresolved-keys :
    (payment : ℕ) (result : PaymentResult) → Frames keys (leave_unresolved payment result)
unfolding leave_unresolved mark_unknown
leave_unresolved-keys payment result = record { at = λ db. refl }

module _ (k other : String) (differ : str_eq k other ≡ false) where
  insert_key-row_of :
      (env : Env) (hashed : String) → Frames (row_of other) (insert_key env k hashed)
  unfolding insert_key
  insert_key-row_of env hashed = record {
    at = λ db. stored-append k other differ db.idempotency_keys _ refl;
  }

  claim-row_of : (env : Env) (hashed : String) → Frames (row_of other) (claim env k hashed)
  unfolding claim
  claim-row_of env hashed = record { at = λ db. go db (exists_row (has_key k) db.idempotency_keys) }
    where
      go :
          (db : Db) (b : Bool)
          → row_of other ((if b then (λ d. (ok none, d)) else insert_key env k hashed) db).1
            ≡ row_of other db
      go db true = refl
      go db false = (insert_key-row_of env hashed).at db

  reclaim_failed-row_of : Frames (row_of other) (reclaim_failed k)
  unfolding reclaim_failed
  reclaim_failed-row_of = record {
    at = λ db.
        stored-elsewhere k other differ (is_failed_key k) (reopen db.now) db.idempotency_keys
          (λ r. refl) (λ r t. ground arith);
  }

  settle_completed-row_of :
      (body : OrderResponse) (status order : ℕ)
      → Frames (row_of other) (settle_completed k body status order)
  unfolding settle_completed
  settle_completed-row_of body status order = record {
    at = λ db.
        stored-elsewhere k other differ (has_key k) (complete_key body status order db.now)
          db.idempotency_keys (λ r. refl) (λ r t. t);
  }

  mark_failed-row_of : (order : Option ℕ) → Frames (row_of other) (Idempotency.mark_failed k order)
  unfolding Idempotency.mark_failed
  mark_failed-row_of order = record {
    at = λ db.
        stored-elsewhere k other differ (has_key k) (fail_key order db.now) db.idempotency_keys
          (λ r. refl) (λ r t. t);
  }

  judge_status-row_of :
      (e : IdempotencyKey) (s : IdempotencyStatus) → Frames (row_of other) (judge_status k e s)
  unfolding judge_status reclaimed
  judge_status-row_of e IdempotencyStatus.completed = search frame_rules
  judge_status-row_of e IdempotencyStatus.in_progress = search frame_rules
  judge_status-row_of e IdempotencyStatus.failed =
      Frames-bind (row_of other) (reclaim_failed k) _ reclaim_failed-row_of won_row_of
    where
      won_row_of : (won : Bool) → Frames (row_of other) (reclaimed k won)
      won_row_of true = Frames-pure (row_of other) tt
      won_row_of false = search frame_rules

  judge-row_of :
      (hashed : String) (e : Option IdempotencyKey) → Frames (row_of other) (judge k hashed e)
  unfolding judge
  judge-row_of hashed none = search frame_rules
  judge-row_of hashed (some e) = elim (Bool-cases (str_eq e.request_hash hashed)) [
    | inl same ↦ rw same (judge_status-row_of e e.status)
    | inr not_same ↦ rw not_same (search frame_rules)
  ]

  after_claim-row_of :
      (hashed : String) (claimed : Option ℕ) → Frames (row_of other) (after_claim k hashed claimed)
  unfolding after_claim get
  after_claim-row_of hashed (some id) = search frame_rules
  after_claim-row_of hashed none = search (frame_rules, judge-row_of)

  pub claim_key-row_of :
      (env : Env) (hashed : String) → Frames (row_of other) (claim_key env k hashed)
  claim_key-row_of env hashed =
      unfold claim_key in search (frame_rules, claim-row_of, after_claim-row_of)

  complete-row_of :
      (env : Env) (order : Order) (payment : ℕ) (result : PaymentResult)
      → Frames (row_of other) (complete env order payment result k)
  unfolding complete
  complete-row_of env order payment result =
      Frames-bind (row_of other) (fulfil env order payment result) _
        (keys-row_of other (fulfil env order payment result) (fulfil-keys env order payment result))
        λ body.
          Frames-bind (row_of other) (settle_completed k body 201 order.id) _
            (settle_completed-row_of body 201 order.id) (λ u. Frames-pure (row_of other) body)

  compensate-row_of :
      (env : Env) (order : Order) (payment : ℕ) (result : PaymentResult)
      → Frames (row_of other) (compensate env order payment result k)
  unfolding compensate
  compensate-row_of env order payment result =
      let reason = text_or result.failure_reason "declined" in
      Frames-bind (row_of other)
        (Payments.mark_failed payment reason result.card_brand result.card_last4) _
        (keys-row_of other (Payments.mark_failed payment reason result.card_brand result.card_last4)
          (payment_failed-keys payment reason result.card_brand result.card_last4))
        λ u.
          Frames-bind (row_of other) (release_reservation order.id) _
            (keys-row_of other (release_reservation order.id) (release_reservation-keys order.id))
            λ rows.
              Frames-bind (row_of other)
                (transition env order.id OrderStatus.reserved OrderStatus.payment_failed
                  (some reason))
                _
                (keys-row_of other
                  (transition env order.id OrderStatus.reserved OrderStatus.payment_failed
                    (some reason))
                  (transition-keys env order.id OrderStatus.reserved OrderStatus.payment_failed
                    (some reason)))
                (λ v. mark_failed-row_of (some order.id))

  -- tx2 on one key leaves the row of another.
  resolve-row_of :
      (env : Env) (placed : Placed) (result : PaymentResult) (o : PaymentOutcome)
      → Frames (row_of other) (resolve env placed result k o)
  unfolding resolve
  resolve-row_of env placed result PaymentOutcome.succeeded = search (frame_rules, complete-row_of)
  resolve-row_of env placed result PaymentOutcome.declined = search (frame_rules, compensate-row_of)
  resolve-row_of env placed result PaymentOutcome.unknown =
      Frames-bind (row_of other) (leave_unresolved placed.payment_id result) _
        (keys-row_of other (leave_unresolved placed.payment_id result)
          (leave_unresolved-keys placed.payment_id result))
        (λ u. Frames-pure (row_of other) none)

-- tx1 and tx2 of a request leave the row of every key but the request's.
module _ (other : String) (env : Env) (r : Request)
    (differ : str_eq r.idempotency_key other ≡ false) where
  pub conclude-row_of :
      (placed : Placed) (result : PaymentResult)
      → Frames (row_of other) (conclude env r placed result)
  unfolding conclude
  conclude-row_of placed result =
      Frames-bind (row_of other)
        (begin (resolve env placed result r.idempotency_key result.outcome)) _
        (Frames-begin (row_of other) (resolve env placed result r.idempotency_key result.outcome)
          (resolve-row_of r.idempotency_key other differ env placed result result.outcome))
        (λ b. Frames-lift (row_of other) (answer placed.order.id result b result.outcome))

  place-row_of :
      (geocode : Geocoder) (point : Point) → Frames (row_of other) (place env geocode r point)
  unfolding place
  place-row_of geocode point =
      Frames-bind (row_of other) (claim_key env r.idempotency_key r.request_hash) _
        (claim_key-row_of r.idempotency_key other differ env r.request_hash)
        λ u.
          keys-row_of other (place_claimed env geocode r point)
            (place_claimed-keys env geocode r point)

  pub open_order-row_of : (geocode : Geocoder) → Frames (row_of other) (open_order env geocode r)
  unfolding open_order
  open_order-row_of geocode =
      Frames-bind (row_of other) (lift (geocode r.address)) _
        (Frames-lift (row_of other) (geocode r.address))
        λ c.
          Frames-bind (row_of other) (lift (to_point c)) _ (Frames-lift (row_of other) (to_point c))
            λ point.
              Frames-begin (row_of other) (place env geocode r point) (place-row_of geocode point)
