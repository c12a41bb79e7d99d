-- ===== src/System/Durable.antt =====
-- A response once returned is replayed ever after, whatever else runs: app/services/order_checkout.py
-- beside the jobs.
use canals_assessment.Prelude.{
  ℕ, String, ◌≡◌, ◌≢◌, ap, refl, ◌∙◌, sym, subst, false, Bool-cases, none, some, inl, inr, arith,
  str_eq, eq_iff, ◌==◌,
}
use canals_assessment.Domain.Enums.{IdempotencyStatus}
use canals_assessment.Domain.Values.{OrderResponse, PaymentResult}
use canals_assessment.Domain.Errors.{Exception}
use canals_assessment.Db.Rows.{Db, OutboxEvent}
use canals_assessment.Db.Tx.{Result, ok, err, Env, is_ok}
use canals_assessment.Repositories.Reservation.Ledger.{IsLedger}
use canals_assessment.Services.Selection.{Geocoder}
use canals_assessment.Services.Checkout.{
  Request, Placed, CheckoutResult, Charge, open_order, conclude, checkout,
}
use canals_assessment.Services.Checkout.Replay.{IsReplayable, claim_completed}
use canals_assessment.Services.Checkout.Once.{
  IsLocated, open_order-IsLocated, open_order-refused, checkout-refused, conclude-IsReplayable,
}
use canals_assessment.Jobs.Sweep.{sweep_once, at_time}
use canals_assessment.Jobs.Publish.{publish_once}
use canals_assessment.Jobs.Publish.Batch.{publish_once-elsewhere}
use canals_assessment.System.{
  World, Flight, set_at, grounded, Step, Reach, opened, refused, concluded, died, swept, published,
  ticked, here, later,
}
use canals_assessment.System.Keys.{row_of, open_order-row_of, conclude-row_of}
use canals_assessment.System.Refusals.{open_order-fresh, open_order-undone}
use canals_assessment.System.Flights.{IsSound, remains}
use canals_assessment.System.Invariant.{
  Step-IsSound, Reach-IsSound, start-IsSound, sweep_once-row_of,
}

module _ (env : Env) (geocode : Geocoder) (base : ℕ → ℕ → ℕ) {P : Type 0}
    (publish : P → OutboxEvent → Result (Unit {0}) × P) where
  module _ (key hashed : String) (body : OrderResponse) where
    IsReplayable-row_of :
        (db new : Db)
        → row_of key new ≡ row_of key db
        → IsReplayable key hashed body db
        → IsReplayable key hashed body new
    IsReplayable-row_of db new same k = record {
      row = k.row;
      found = same ∙ k.found;
      same_hash = k.same_hash;
      completed = k.completed;
      stored_body = k.stored_body;
      stored_status = k.stored_status;
    }

    -- No request commits tx1 on a completed key.
    opened-other :
        (r : Request) (placed : Placed) (db new : Db)
        → open_order env geocode r db ≡ (ok placed, new)
        → IsReplayable key hashed body db
        → str_eq r.idempotency_key key ≡ false
    opened-other r placed db new h k = elim (Bool-cases (str_eq r.idempotency_key key)) [
      | inr other ↦ other
      | inl same ↦
          let found : row_of r.idempotency_key db ≡ some k.row =
            rw ((eq_iff r.idempotency_key key).0 same) k.found in
          let done = k.completed in
          let busy : k.row.status ≢ IdempotencyStatus.failed = λ f. cc in
          absurd (open_order-fresh env geocode r db new placed k.row found busy h)
    ]

    -- No flight has a completed key.
    flight-other :
        (s : World) (i : ℕ) (f : Flight)
        → IsSound base s
        → s.flights i ≡ some f
        → IsReplayable key hashed body s.db
        → str_eq f.request.idempotency_key key ≡ false
    flight-other s i f sound at_i k = elim (Bool-cases (str_eq f.request.idempotency_key key)) [
      | inr other ↦ other
      | inl same ↦
          let o = sound.held i f at_i in
          let found : row_of key s.db ≡ some o.row =
            subst (λ (x : String). row_of x s.db ≡ some o.row)
              ((eq_iff f.request.idempotency_key key).0 same) o.found in
          let one = sym found ∙ k.found in
          let here_busy = o.in_status in let here_done = k.completed in cc
    ]

    Step-IsReplayable :
        {s t : World}
        → Step env geocode publish s t
        → IsSound base s
        → IsReplayable key hashed body s.db
        → IsReplayable key hashed body t.db
    Step-IsReplayable {s} (opened i r placed new vacant q h) sound k =
        IsReplayable-row_of s.db new
          (rw h at
            ((open_order-row_of key env r (opened-other r placed s.db new h k) geocode).at s.db))
          k
    Step-IsReplayable {s} (refused r e new q h) sound k =
        rw (open_order-undone env geocode r s.db new e h) k
    Step-IsReplayable {s} (concluded i f result at_i) sound k =
        IsReplayable-row_of s.db (conclude env f.request f.placed result s.db).1
          ((conclude-row_of key env f.request (flight-other s i f sound at_i k) f.placed result).at
            s.db)
          k
    Step-IsReplayable (died i f at_i) sound k = k
    Step-IsReplayable {s} (swept batch_size) sound k =
        IsReplayable-row_of s.db (sweep_once batch_size s.db).1
          ((sweep_once-row_of key batch_size).at s.db) k
    Step-IsReplayable {s} (published locked batch_size sink) sound k =
        IsReplayable-row_of s.db (publish_once publish locked batch_size s.db sink).1
          (ap (row_of key) (publish_once-elsewhere publish locked batch_size s.db sink)) k
    Step-IsReplayable {s} (ticked t le) sound k = IsReplayable-row_of s.db (at_time t s.db) refl k

    Reach-IsReplayable :
        {s t : World}
        → Reach env geocode publish s t
        → IsSound base s
        → IsReplayable key hashed body s.db
        → IsReplayable key hashed body t.db
    Reach-IsReplayable here sound k = k
    Reach-IsReplayable (later before step) sound k =
        Step-IsReplayable step (Reach-IsSound env geocode base publish before sound)
          (Reach-IsReplayable before sound k)

  -- The address of every flight was resolved.
  abbrev AllLocated : World → Type 0
  AllLocated s = (i : ℕ) (f : Flight) → s.flights i ≡ some f → IsLocated env geocode f.request

  Step-AllLocated : {s t : World} → Step env geocode publish s t → AllLocated s → AllLocated t
  Step-AllLocated {s} (opened i r placed new vacant q h) all j g e = elim (Bool-cases (i == j)) [
    | inl at_i ↦
        let same : record { request = r; placed = placed } ≡ g = ground (arith, rw at_i at e) in
        subst (λ (f : Flight). IsLocated env geocode f.request) same
          (open_order-IsLocated env geocode r s.db (ap (λ (t : Result Placed × Db). is_ok t.0) h))
    | inr elsewhere ↦ all j g (rw elsewhere at e)
  ]
  Step-AllLocated (refused r e new q h) all j g at_j = all j g at_j
  Step-AllLocated {s} (concluded i f result at_i) all j g at_j = all j g (remains s i j g at_j).0
  Step-AllLocated {s} (died i f at_i) all j g at_j = all j g (remains s i j g at_j).0
  Step-AllLocated (swept batch_size) all j g at_j = all j g at_j
  Step-AllLocated (published locked batch_size sink) all j g at_j = all j g at_j
  Step-AllLocated (ticked t le) all j g at_j = all j g at_j

  Reach-AllLocated : {s t : World} → Reach env geocode publish s t → AllLocated s → AllLocated t
  Reach-AllLocated here all = all
  Reach-AllLocated (later before step) all = Step-AllLocated step (Reach-AllLocated before all)

  -- From a database whose account holds and no request under way, let any steps of requests, jobs
  -- and the clock reach a state in which tx2 of a request returns a response. After that, and after
  -- any further steps in any order, the same request sent again raises a replay of just that body
  -- with status 201: it charges nothing, calls the provider not at all, and changes no table.
  pub replayed_ever :
      {Q : Type 0} (charge : Q → Charge → PaymentResult × Q) (db new : Db) (s t : World) (i : ℕ)
      (f : Flight) (result : PaymentResult) (c : CheckoutResult) (provider : Q)
      → IsLedger base db
      → Reach env geocode publish (record { db = db; flights = grounded }) s
      → s.flights i ≡ some f
      → conclude env f.request f.placed result s.db ≡ (ok c, new)
      → Reach env geocode publish (record { db = new; flights = set_at i none s.flights }) t
      → checkout charge env geocode f.request t.db provider
        ≡ (err (Exception.replayed (some c.body) 201), t.db, provider)
  replayed_ever charge db new s t i f result c provider l before at_i concluded_so after =
      let sound = start-IsSound env geocode base publish db s l before in
      let kept =
        rw concluded_so at
          (conclude-IsReplayable env f.request f.placed result s.db (sound.held i f at_i)) in
      let next : IsSound base (record { db = new; flights = set_at i none s.flights }) =
        subst (λ (d : Db). IsSound base (record { db = d; flights = set_at i none s.flights }))
          (ap (λ (r : Result CheckoutResult × Db). r.1) concluded_so)
          (Step-IsSound env geocode base publish (concluded i f result at_i) sound) in
      let k =
        Reach-IsReplayable f.request.idempotency_key f.request.request_hash c.body after next
          kept.0 in
      checkout-refused charge env geocode f.request t.db (Exception.replayed (some c.body) 201)
        provider
        (open_order-refused env geocode f.request t.db (Exception.replayed (some c.body) 201)
          (Reach-AllLocated before (λ j g e. cc) i f at_i)
          (claim_completed env f.request.idempotency_key f.request.request_hash t.db k.row c.body
            k.found k.same_hash k.completed k.stored_body k.stored_status))
