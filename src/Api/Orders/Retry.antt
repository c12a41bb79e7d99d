-- ===== src/Api/Orders/Retry.antt =====
-- A client that sends its order again: app/api/routes/orders.py over app/services/order_checkout.py.
use canals_assessment.Prelude.{ℕ, String, ◌≡◌, refl, false, Option, none, some, ==_iff, inl, inr}
use canals_assessment.Domain.Values.{OrderResponse, PaymentResult, PaymentOutcome}
use canals_assessment.Domain.Errors.{DomainError}
use canals_assessment.Sql.{select_rows}
use canals_assessment.Sql.Laws.{select_rows-test, List-cases}
use canals_assessment.Db.Rows.{Db, Order}
use canals_assessment.Db.Tx.{Result, ok, err, Tx, pure, lift, begin, Ends, Ends-bind, Env, ◌>>=◌}
use canals_assessment.Repositories.Orders.{LoadedOrder, get_for_response, has_id}
use canals_assessment.Services.Selection.{Geocoder}
use canals_assessment.Services.Checkout.{
  Placed, Charge, Request, CheckoutResult, checkout, open_order, pay, conclude, resolve, answer,
  complete, fulfil, render, response, charge_of,
}
use canals_assessment.Services.Checkout.Replay.{begin-Ends}
use canals_assessment.Services.Checkout.Once.{checkout-replay, Ends-any}
use canals_assessment.Api.Schemas.{CreateOrderRequest}
use canals_assessment.Api.Orders.{create_order, checked_order, reply, request_of, is_blank}

-- What holds of every value that code returns.
record Returns {A : Type 0} (Q : A → Type 0) (m : Tx A) : Type 0 where
  at : (db : Db) → Ends (λ a new. Q a) (λ e. Unit {0}) (m db)

module _ {A B : Type 0} (Q : B → Type 0) where
  Returns-bind : (m : Tx A) (f : A → Tx B) → ((a : A) → Returns Q (f a)) → Returns Q (m >>= f)
  Returns-bind m f k = record {
    at = λ db.
        Ends-bind (λ a new. Unit {0}) (λ b new. Q b) (λ e. Unit) m f db (Ends-any (m db))
          (λ a mid u. (k a).at mid);
  }

  Returns-with :
      (R : A → Type 0) (m : Tx A) (f : A → Tx B)
      → Returns R m
      → ((a : A) → R a → Returns Q (f a))
      → Returns Q (m >>= f)
  Returns-with R m f h k = record {
    at = λ db.
        Ends-bind (λ a new. R a) (λ b new. Q b) (λ e. Unit) m f db (h.at db)
          (λ a mid r. (k a r).at mid);
  }

Returns-pure : {A : Type 0} (Q : A → Type 0) (a : A) → Q a → Returns Q (pure a)
Returns-pure Q a h = record { at = λ db. h }

get_for_response-id :
    (id : ℕ) → Returns (λ (l : LoadedOrder). l.order.id ≡ id) (get_for_response id)
unfolding get_for_response
get_for_response-id id = record {
  at = λ db. elim (List-cases (select_rows (has_id id) db.orders)) [
    | inl missing ↦ rw missing tt
    | inr (o, rest, found) ↦
        rw found ((==_iff o.id id).0 (rw found at (select_rows-test (has_id id) db.orders)).0)
  ];
}

render-id :
    (id : ℕ) (reference : Option String)
    → Returns (λ (b : OrderResponse). b.id ≡ id) (render id reference)
unfolding render
render-id id reference =
    Returns-with (λ (b : OrderResponse). b.id ≡ id) (λ (l : LoadedOrder). l.order.id ≡ id)
      (get_for_response id) _ (get_for_response-id id)
      (λ l same. Returns-pure _ (response l reference) same)

fulfil-id :
    (env : Env) (order : Order) (payment : ℕ) (result : PaymentResult)
    → Returns (λ (b : OrderResponse). b.id ≡ order.id) (fulfil env order payment result)
fulfil-id env order payment result = unfold fulfil in search (Returns-bind, render-id) depth 8

complete-id :
    (env : Env) (order : Order) (payment : ℕ) (result : PaymentResult) (key : String)
    → Returns (λ (b : OrderResponse). b.id ≡ order.id) (complete env order payment result key)
unfolding complete
complete-id env order payment result key =
    Returns-with (λ (b : OrderResponse). b.id ≡ order.id) (λ (b : OrderResponse). b.id ≡ order.id)
      (fulfil env order payment result) _ (fulfil-id env order payment result)
      (λ b same. Returns-bind _ _ _ λ u. Returns-pure _ b same)

-- The body that tx2 gives, if it gives one, is about the order of tx1.
abbrev Answers : ℕ → Option OrderResponse → Type 0
Answers id none = Unit
Answers id (some b) = b.id ≡ id

resolve-id :
    (env : Env) (placed : Placed) (result : PaymentResult) (key : String) (o : PaymentOutcome)
    → Returns (Answers placed.order.id) (resolve env placed result key o)
unfolding resolve
resolve-id env placed result key PaymentOutcome.succeeded =
    Returns-with (Answers placed.order.id) (λ (b : OrderResponse). b.id ≡ placed.order.id)
      (complete env placed.order placed.payment_id result key) _
      (complete-id env placed.order placed.payment_id result key)
      (λ b same. Returns-pure _ (some b) same)
resolve-id env placed result key PaymentOutcome.declined =
    Returns-bind _ _ _ (λ u. Returns-pure _ none tt)
resolve-id env placed result key PaymentOutcome.unknown =
    Returns-bind _ _ _ (λ u. Returns-pure _ none tt)

abbrev IsOwn : CheckoutResult → Type 0
IsOwn c = c.body.id ≡ c.order_id

answer-id :
    (id : ℕ) (result : PaymentResult) (b : Option OrderResponse) (o : PaymentOutcome)
    → Answers id b
    → Returns IsOwn (lift (answer id result b o))
unfolding answer
answer-id id result b PaymentOutcome.declined h = record { at = λ db. tt }
answer-id id result b PaymentOutcome.unknown h = record { at = λ db. tt }
answer-id id result none PaymentOutcome.succeeded h = record { at = λ db. tt }
answer-id id result (some b) PaymentOutcome.succeeded h = record { at = λ db. h }

conclude-id :
    (env : Env) (r : Request) (placed : Placed) (result : PaymentResult)
    → Returns IsOwn (conclude env r placed result)
unfolding conclude
conclude-id env r placed result =
    Returns-with IsOwn (Answers placed.order.id)
      (begin (resolve env placed result r.idempotency_key result.outcome)) _
      (record {
        at = λ db.
            begin-Ends (λ b new. Answers placed.order.id b)
              (resolve env placed result r.idempotency_key result.outcome) db
              ((resolve-id env placed result r.idempotency_key result.outcome).at db);
      })
      (λ b h. answer-id placed.order.id result b result.outcome h)

module _ {P : Type 0} (charge : P → Charge → PaymentResult × P) (env : Env)
    (geocode : Geocoder) where
  pay-id :
      (r : Request) (opened : Result Placed × Db) (provider : P)
      → Ends
          (λ c new. IsOwn c)
          (λ e. Unit {0})
          ((pay charge env r opened provider).0, (pay charge env r opened provider).1)
  unfolding pay
  pay-id r (ok placed, db) provider =
      (conclude-id env r placed (charge provider (charge_of env r placed.order)).0).at db
  pay-id r (err e, db) provider = tt

  checkout-id :
      (r : Request) (db db' : Db) (provider provider' : P) (c : CheckoutResult)
      → checkout charge env geocode r db provider ≡ (ok c, db', provider')
      → c.body.id ≡ c.order_id
  unfolding checkout
  checkout-id r db db' provider provider' c h =
      rw h at (pay-id r (open_order env geocode r db) provider)

  -- A client whose POST was answered by a new order and that sends it again under the same key, which
  -- is not blank, gets
  -- the same answer: status 201, the same body and the same Location. The second POST charges
  -- nothing and changes no table.
  pub create_order-again :
      (str : DomainError → String) (request_hash : CreateOrderRequest → String)
      → (payload : CreateOrderRequest) (key : String) (db db' : Db) (provider provider' : P)
      → (c : CheckoutResult) → is_blank key ≡ false
      → checkout charge env geocode (request_of request_hash payload key) db provider
        ≡ (ok c, db', provider')
      → let send = create_order charge env geocode str request_hash payload (some key) in
        (send db provider ≡ (reply env str (ok c), db', provider'))
        × (send db' provider' ≡ (reply env str (ok c), db', provider'))
  unfolding create_order checked_order reply
  create_order-again str request_hash payload key db db' provider provider' c filled h =
      let r = request_of request_hash payload key in
      let (created, again) = checkout-replay charge env geocode r db db' provider provider' c h in
      (
        rw (filled, h) refl,
        rw (filled, again, created, checkout-id r db db' provider provider' c h) refl,
      )
