-- ===== src/Services/Checkout/Once.antt =====
-- A second `checkout` of one request: app/services/order_checkout.py.
use canals_assessment.Prelude.{◌≡◌, refl, ap, true, Option, none, some, arith}
use canals_assessment.Domain.Enums.{IdempotencyStatus}
use canals_assessment.Domain.Values.{
  OrderResponse, PaymentResult, PaymentOutcome, Point, Coordinates,
}
use canals_assessment.Domain.Errors.{Exception}
use canals_assessment.Db.Rows.{Db}
use canals_assessment.Db.Tx.{Result, ok, err, begin, lift, Ends, Ends-bind, is_ok, Env, ◌>>=◌}
use canals_assessment.Services.Selection.{Geocoder, to_point}
use canals_assessment.Services.Checkout.{
  Request, Placed, CheckoutResult, Charge, claim_key, place, open_order, complete, resolve,
  conclude, answer, pay, checkout, charge_of,
}
use canals_assessment.Services.Checkout.Replay.{
  IsOwned, IsReplayable, open_order-IsOwned, complete-IsReplayable, begin-Ends, claim_completed,
}

pub Ends-any : {A : Type 0} (r : Result A × Db) → Ends (λ a new. Unit {0}) (λ e. Unit {0}) r
Ends-any (ok a, db) = tt
Ends-any (err e, db) = tt

module _ (env : Env) (r : Request) (placed : Placed) (result : PaymentResult) where
  open r use {idempotency_key as key, request_hash as hashed}

  -- A returned response that the key replays.
  abbrev Kept : CheckoutResult → Db → Type 0
  Kept c new = IsReplayable key hashed c.body new × (c.status_code ≡ 201)

  abbrev Rendered : Option OrderResponse → Db → Type 0
  Rendered b new = (body : OrderResponse) × (b ≡ some body) × IsReplayable key hashed body new

  last_step :
      (b : Option OrderResponse) (db : Db)
      → Rendered b db
      → Ends Kept (λ e. Unit) (lift (answer placed.order.id result b PaymentOutcome.succeeded) db)
  unfolding answer
  last_step none db h = tt
  last_step (some body) db h = ground arith

  conclude_by :
      (o : PaymentOutcome) (db : Db)
      → IsOwned key hashed IdempotencyStatus.in_progress db
      → Ends Kept
          (λ e. Unit)
          ((begin (resolve env placed result key o) >>= λ b.
              lift (answer placed.order.id result b o))
            db)
  unfolding resolve answer
  conclude_by PaymentOutcome.declined db owned =
      Ends-bind (λ a new. Unit) Kept (λ e. Unit)
        (begin (resolve env placed result key PaymentOutcome.declined)) _ db (Ends-any _)
        (λ b mid u. tt)
  conclude_by PaymentOutcome.unknown db owned =
      Ends-bind (λ a new. Unit) Kept (λ e. Unit)
        (begin (resolve env placed result key PaymentOutcome.unknown)) _ db (Ends-any _)
        (λ b mid u. tt)
  conclude_by PaymentOutcome.succeeded db owned =
      Ends-bind Rendered Kept (λ e. Unit)
        (begin (resolve env placed result key PaymentOutcome.succeeded)) _ db
        (begin-Ends Rendered (resolve env placed result key PaymentOutcome.succeeded) db (
          Ends-bind (λ body new. IsReplayable key hashed body new) Rendered (λ e. Unit)
            (complete env placed.order placed.payment_id result key) _ db
            (complete-IsReplayable env r placed result db owned) (λ body mid k. (body, refl, k))))
        (λ b mid k. last_step b mid k)

  pub conclude-IsReplayable :
      (db : Db)
      → IsOwned key hashed IdempotencyStatus.in_progress db
      → Ends Kept (λ e. Unit) (conclude env r placed result db)
  unfolding conclude
  conclude-IsReplayable = conclude_by result.outcome

module _ (env : Env) (geocode : Geocoder) (r : Request) where
  -- The address was resolved to a point.
  abbrev pub IsLocated : Type 0
  IsLocated = (c : Coordinates) × (p : Point) × (geocode r.address ≡ ok c) × (to_point c ≡ ok p)

  pub open_order-IsLocated : (db : Db) → is_ok (open_order env geocode r db).0 ≡ true → IsLocated
  unfolding open_order
  open_order-IsLocated db h = located (geocode r.address) refl h
    where
      pointed :
          (c : Coordinates)
          → geocode r.address ≡ ok c
          → (p : Result Point) → to_point c ≡ p
          → is_ok ((lift p >>= λ x. begin (place env geocode r x)) db).0 ≡ true
          → IsLocated
      pointed c e (ok x) f h = (c, x, e, f)
      pointed c e (err x) f h = cc

      located :
          (c : Result Coordinates)
          → geocode r.address ≡ c
          → is_ok ((lift c >>= λ x. lift (to_point x) >>= λ y. begin (place env geocode r y)) db).0
            ≡ true
          → IsLocated
      located (ok c) e h = pointed c e (to_point c) refl h
      located (err x) e h = cc

  -- tx1 of a located request raises what the claim of its key raises, and leaves nothing behind.
  pub open_order-refused :
      (db : Db) (e : Exception)
      → IsLocated
      → claim_key env r.idempotency_key r.request_hash db ≡ (err e, db)
      → open_order env geocode r db ≡ (err e, db)
  unfolding open_order place begin
  open_order-refused db e (c, p, f, g) h = rw (f, g, h)

module _ {P : Type 0} (charge : P → Charge → PaymentResult × P) (env : Env) (geocode : Geocoder)
    (r : Request) where
  -- A request that tx1 refuses is last_step so, with nothing charged and nothing written.
  pub checkout-refused :
      (db : Db) (e : Exception) (provider : P)
      → open_order env geocode r db ≡ (err e, db)
      → checkout charge env geocode r db provider ≡ (err e, db, provider)
  unfolding checkout
  checkout-refused db e provider h = rw h

  paid_replays :
      (db db' : Db) (provider provider' : P) (placed : Placed) (mid : Db) (c : CheckoutResult)
      → open_order env geocode r db ≡ (ok placed, mid)
      → pay charge env r (ok placed, mid) provider ≡ (ok c, db', provider')
      → IsReplayable r.idempotency_key r.request_hash c.body db' × (c.status_code ≡ 201)
  unfolding pay
  paid_replays db db' provider provider' placed mid c opened h =
      let result = (charge provider (charge_of env r placed.order)).0 in
      let concluded : conclude env r placed result mid ≡ (ok c, db') =
        ap (λ (t : Result CheckoutResult × Db × P). (t.0, t.1)) h in
      rw concluded at (
        conclude-IsReplayable env r placed result mid
          (rw opened at (open_order-IsOwned env geocode r db)))

  returned_replays :
      (db db' : Db) (provider provider' : P) (c : CheckoutResult) (opened : Result Placed × Db)
      → open_order env geocode r db ≡ opened
      → pay charge env r opened provider ≡ (ok c, db', provider')
      → IsLocated env geocode r
        × IsReplayable r.idempotency_key r.request_hash c.body db'
        × (c.status_code ≡ 201)
  unfolding pay
  returned_replays db db' provider provider' c (ok placed, mid) opened h =
      let (kept, created) = paid_replays db db' provider provider' placed mid c opened h in
      (open_order-IsLocated env geocode r db (rw opened), kept, created)
  returned_replays db db' provider provider' c (err e, mid) opened h = cc

  -- If `checkout` returned a response, the same request sent again raises a replay of just that
  -- body with status 201; it charges nothing, calls the provider not at all, and changes no table.
  pub checkout-replay :
      (db db' : Db) (provider provider' : P) (c : CheckoutResult)
      → checkout charge env geocode r db provider ≡ (ok c, db', provider')
      → (c.status_code ≡ 201)
        × (checkout charge env geocode r db' provider'
            ≡ (err (Exception.replayed (some c.body) c.status_code), db', provider'))
  unfolding checkout
  checkout-replay db db' provider provider' c h =
      let (located, kept, created) =
        returned_replays db db' provider provider' c (open_order env geocode r db) refl h in
      (
        created,
        rw created (
            checkout-refused db' (Exception.replayed (some c.body) 201) provider' (
              open_order-refused env geocode r db' (Exception.replayed (some c.body) 201) located (
                claim_completed env r.idempotency_key r.request_hash db' kept.row c.body kept.found
                  kept.same_hash kept.completed kept.stored_body kept.stored_status))),
      )
