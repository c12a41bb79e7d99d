-- ===== src/System/Flights.antt =====
-- The requests of app/services/order_checkout.py whose provider is being asked, and their keys.
use canals_assessment.Prelude.{
  ℕ, ◌≡◌, ◌≢◌, sym, subst, ◌⊎◌, ap, ◌∙◌, true, false, Bool, Bool-cases, none, some, ◌==◌, ==_iff,
  inl, inr, arith, str_eq, eq_iff, String,
}
use canals_assessment.Domain.Enums.{IdempotencyStatus}
use canals_assessment.Db.Rows.{Db}
use canals_assessment.Db.Tx.{ok, Env}
use canals_assessment.Repositories.Reservation.Ledger.{IsLedger}
use canals_assessment.Services.Selection.{Geocoder}
use canals_assessment.Services.Checkout.{Request, Placed, open_order}
use canals_assessment.Services.Checkout.Replay.{IsOwned, open_order-IsOwned}
use canals_assessment.System.{World, Flight, set_at}
use canals_assessment.System.Keys.{row_of, open_order-row_of}
use canals_assessment.System.Refusals.{open_order-fresh}

-- The row of a flight's key is in progress, under the flight's hash.
abbrev pub IsHeld : Flight → Db → Type 0
IsHeld f db =
    IsOwned f.request.idempotency_key f.request.request_hash IdempotencyStatus.in_progress db

abbrev pub same_key : Flight → Flight → Bool
same_key f g = str_eq f.request.idempotency_key g.request.idempotency_key

-- The account of inventory and reservations holds, every flight has its key in progress, and no
-- two flights have the same key.
pub record IsSound (base : ℕ → ℕ → ℕ) (s : World) : Type 0 where
  pub ledger : IsLedger base s.db
  pub held : (i : ℕ) (f : Flight) → s.flights i ≡ some f → IsHeld f s.db
  pub exclusive :
      (i j : ℕ) (f g : Flight)
      → s.flights i ≡ some f
      → s.flights j ≡ some g
      → same_key f g ≡ true
      → i ≡ j

pub IsHeld-row_of :
    (f : Flight) (db new : Db)
    → row_of f.request.idempotency_key new ≡ row_of f.request.idempotency_key db
    → IsHeld f db
    → IsHeld f new
IsHeld-row_of f db new same o = record {
  row = o.row;
  found = same ∙ o.found;
  same_hash = o.same_hash;
  in_status = o.in_status;
}

-- A task that ends its flight leaves the others.
pub remains :
    (s : World) (i j : ℕ) (g : Flight)
    → set_at i none s.flights j ≡ some g
    → (s.flights j ≡ some g) × (i ≢ j)
remains s i j g e = elim (Bool-cases (i == j)) [
  | inl t ↦ absurd (none_some (rw t at e))
  | inr u ↦ (rw u at e, λ h. differs_of u h)
]
  where
    none_some : none ≢ some g
    none_some h = cc

    differs_of : (i == j) ≡ false → i ≢ j
    differs_of u h = ground (arith, u, h)

module _ (base : ℕ → ℕ → ℕ) where
  -- A step that leaves the flights alone.
  pub IsSound-same :
      (s : World) (new : Db)
      → IsLedger base new
      → ((other : String) → row_of other new ≡ row_of other s.db)
      → IsSound base s
      → IsSound base (record { db = new; flights = s.flights })
  IsSound-same s new l same h = record {
    ledger = l;
    held = λ i f e. IsHeld-row_of f s.db new (same f.request.idempotency_key) (h.held i f e);
    exclusive = h.exclusive;
  }

  pub IsSound-ended :
      (s : World) (i : ℕ) (new : Db)
      → IsLedger base new
      → ((j : ℕ) (g : Flight)
          → s.flights j ≡ some g
          → i ≢ j
          → row_of g.request.idempotency_key new ≡ row_of g.request.idempotency_key s.db)
      → IsSound base s
      → IsSound base (record { db = new; flights = set_at i none s.flights })
  IsSound-ended s i new l same sound = record {
    ledger = l;
    held = λ j g e.
        let (old, differs) = remains s i j g e in
        IsHeld-row_of g s.db new (same j g old differs) (sound.held j g old);
    exclusive = λ j k f g a b. sound.exclusive j k f g (remains s i j f a).0 (remains s i k g b).0;
  }

  pub concluded-differs :
      (s : World) (i j : ℕ) (f g : Flight)
      → IsSound base s
      → s.flights i ≡ some f
      → s.flights j ≡ some g
      → i ≢ j
      → str_eq f.request.idempotency_key g.request.idempotency_key ≡ false
  concluded-differs s i j f g sound a b differs = elim (Bool-cases (same_key f g)) [
    | inl same ↦ absurd (differs (sound.exclusive i j f g a b same))
    | inr other ↦ other
  ]

module _ (env : Env) (geocode : Geocoder) (base : ℕ → ℕ → ℕ) where
  -- The keys of other flights differ from that of a request whose tx1 commits.
  opened-differs :
      (s : World) (r : Request) (placed : Placed) (new : Db)
      → open_order env geocode r s.db ≡ (ok placed, new)
      → IsSound base s
      → (j : ℕ) (g : Flight) → s.flights j ≡ some g
      → str_eq r.idempotency_key g.request.idempotency_key ≡ false
  opened-differs s r placed new h sound j g e =
      elim (Bool-cases (str_eq r.idempotency_key g.request.idempotency_key)) [
        | inr other ↦ other
        | inl same ↦
            let o = sound.held j g e in
            let key = (eq_iff r.idempotency_key g.request.idempotency_key).0 same in
            let found : row_of r.idempotency_key s.db ≡ some o.row = rw key o.found in
            let busy : o.row.status ≢ IdempotencyStatus.failed = λ f. cc in
            absurd (open_order-fresh env geocode r s.db new placed o.row found busy h)
      ]

  pub opened-held :
      (s : World) (i : ℕ) (r : Request) (placed : Placed) (new : Db)
      → open_order env geocode r s.db ≡ (ok placed, new)
      → IsSound base s
      → (j : ℕ) (g : Flight)
      → set_at i (some (record { request = r; placed = placed })) s.flights j ≡ some g
      → IsHeld g new
  opened-held s i r placed new h sound j g e = elim (Bool-cases (i == j)) [
    | inl at_i ↦
        let same : record { request = r; placed = placed } ≡ g = ground (arith, rw at_i at e) in
        subst (λ f. IsHeld f new) same (rw h at (open_order-IsOwned env geocode r s.db))
    | inr elsewhere ↦
        let old : s.flights j ≡ some g = rw elsewhere at e in
        IsHeld-row_of g s.db new
          (rw h at (
            (open_order-row_of g.request.idempotency_key env r
                (opened-differs s r placed new h sound j g old) geocode).at
              s.db))
          (sound.held j g old)
  ]

  pub opened-exclusive :
      (s : World) (i : ℕ) (r : Request) (placed : Placed) (new : Db)
      → open_order env geocode r s.db ≡ (ok placed, new)
      → IsSound base s
      → (j k : ℕ) (f g : Flight)
      → set_at i (some (record { request = r; placed = placed })) s.flights j ≡ some f
      → set_at i (some (record { request = r; placed = placed })) s.flights k ≡ some g
      → same_key f g ≡ true
      → j ≡ k
  opened-exclusive s i r placed new h sound j k f g a b same =
      let flight : Flight = record { request = r; placed = placed } in
      by_slot (Bool-cases (i == j)) (Bool-cases (i == k))
    where
      by_slot :
          ((i == j) ≡ true) ⊎ ((i == j) ≡ false) → ((i == k) ≡ true) ⊎ ((i == k) ≡ false) → j ≡ k
      by_slot (inl t) (inl u) = sym ((==_iff i j).0 t) ∙ (==_iff i k).0 u
      by_slot (inl t) (inr u) =
          let is_new : record { request = r; placed = placed } ≡ f = ground (arith, rw t at a) in
          let old : s.flights k ≡ some g = rw u at b in
          let differs = opened-differs s r placed new h sound k g old in
          let key : f.request.idempotency_key ≡ r.idempotency_key =
            ap (λ (x : Flight). x.request.idempotency_key) (sym is_new) in
          let both = rw key at same in cc
      by_slot (inr t) (inl u) =
          let is_new : record { request = r; placed = placed } ≡ g = ground (arith, rw u at b) in
          let old : s.flights j ≡ some f = rw t at a in
          let differs = opened-differs s r placed new h sound j f old in
          let key : g.request.idempotency_key ≡ r.idempotency_key =
            ap (λ (x : Flight). x.request.idempotency_key) (sym is_new) in
          let both = (eq_iff f.request.idempotency_key g.request.idempotency_key).0 same in
          let again = (eq_iff r.idempotency_key f.request.idempotency_key).1 (sym (both ∙ key)) in
          cc
      by_slot (inr t) (inr u) = sound.exclusive j k f g (rw t at a) (rw u at b) same
