-- ===== src/Adapters/PaymentMock/Idempotent.antt =====
-- One charge for each key: `charge` of app/adapters/payment_mock.py.
use canals_assessment.Prelude.{
  String, ◌≡◌, refl, ap, ◌∙◌, Bool-cases, false, none, some, List, [], ◌∷◌, ◌++◌, map, arith,
  str_eq, eq_iff, head?, All, All-append, Option-cases, inl, inr,
}
use canals_assessment.Prelude.Sorting.{Pairwise}
use canals_assessment.Domain.Values.{PaymentResult}
use canals_assessment.Sql.{select_rows}
use canals_assessment.Services.Checkout.{Charge}
use canals_assessment.Adapters.PaymentMock.{
  MockPaymentProvider, has_result, get_by_idempotency_key, charge, charged, outcome_of, plain,
}
use mathlib.Core.List.{map-append}

-- The keys of the recorded results.
abbrev pub recorded : MockPaymentProvider → List String
recorded self = map (λ e. e.0) self.results

-- The log of charges names the keys of the recorded results, each once.
pub record IsConsistent (self : MockPaymentProvider) : Type 0 where
  pub logged : self.charged_keys ≡ recorded self
  pub once : Pairwise (λ a b. str_eq a b ≡ false) self.charged_keys

-- The provider after a charge under a new key.
abbrev charge_new : MockPaymentProvider → Charge → MockPaymentProvider
charge_new self c = record {
  charged_keys = self.charged_keys ++ c.idempotency_key ∷ [];
  results = self.results ++ (c.idempotency_key, outcome_of (plain c.card) c.idempotency_key) ∷ [];
}

charge_fresh :
    (self : MockPaymentProvider) (c : Charge)
    → get_by_idempotency_key self c.idempotency_key ≡ none
    → charge self c ≡ (outcome_of (plain c.card) c.idempotency_key, charge_new self c)
unfolding charge charged
charge_fresh self c h = rw h refl

get_charged :
    (self : MockPaymentProvider) (c : Charge) (r : PaymentResult)
    → get_by_idempotency_key self c.idempotency_key ≡ none
    → get_by_idempotency_key
        (record {
          charged_keys = self.charged_keys ++ c.idempotency_key ∷ [];
          results = self.results ++ (c.idempotency_key, r) ∷ [];
        })
        c.idempotency_key
      ≡ some r
unfolding get_by_idempotency_key
get_charged self c r h = go self.results h
  where
    go :
        (es : List (String × PaymentResult))
        → head? (map (λ e. e.1) (select_rows (has_result c.idempotency_key) es)) ≡ none
        → head? (
            map
              (λ e. e.1)
              (select_rows (has_result c.idempotency_key) (es ++ (c.idempotency_key, r) ∷ [])))
          ≡ some r
    go [] h = ground (arith, (eq_iff c.idempotency_key c.idempotency_key).1 refl)
    go (e ∷ es) h = ground (arith, go es)

charge_found :
    (self : MockPaymentProvider) (c : Charge) (r : PaymentResult)
    → get_by_idempotency_key self c.idempotency_key ≡ some r
    → charge self c ≡ (r, self)
unfolding charge charged
charge_found self c r h = rw h refl

-- What is recorded under a key stays, whatever is charged.
get-charge :
    (self : MockPaymentProvider) (c : Charge) (key : String) (r : PaymentResult)
    → get_by_idempotency_key self key ≡ some r
    → get_by_idempotency_key (charge self c).1 key ≡ some r
unfolding get_by_idempotency_key
get-charge self c key r h = elim (Option-cases (get_by_idempotency_key self c.idempotency_key)) [
  | inr (x, found) ↦ rw (charge_found self c x found) h
  | inl fresh ↦
      rw (charge_fresh self c fresh)
        (kept self.results (c.idempotency_key, outcome_of (plain c.card) c.idempotency_key) h)
]
  where
    kept :
        (es : List (String × PaymentResult)) (new : String × PaymentResult)
        → head? (map (λ e. e.1) (select_rows (has_result key) es)) ≡ some r
        → head? (map (λ e. e.1) (select_rows (has_result key) (es ++ new ∷ []))) ≡ some r
    kept [] new h = cc
    kept (e ∷ es) new h = ground (arith, h, kept es new)

-- A sequence of charges, each with its own key.
abbrev pub charge_all : MockPaymentProvider → List Charge → MockPaymentProvider
charge_all self [] = self
charge_all self (c ∷ cs) = charge_all (charge self c).1 cs

get-charge_all :
    (self : MockPaymentProvider) (cs : List Charge) (key : String) (r : PaymentResult)
    → get_by_idempotency_key self key ≡ some r
    → get_by_idempotency_key (charge_all self cs) key ≡ some r
get-charge_all self [] key r h = h
get-charge_all self (c ∷ cs) key r h =
    get-charge_all (charge self c).1 cs key r (get-charge self c key r h)

-- A charge's result is what its key has afterwards.
get-charged :
    (self : MockPaymentProvider) (c : Charge)
    → get_by_idempotency_key (charge self c).1 c.idempotency_key ≡ some (charge self c).0
get-charged self c = elim (Option-cases (get_by_idempotency_key self c.idempotency_key)) [
  | inl fresh ↦
      rw (charge_fresh self c fresh)
        (get_charged self c (outcome_of (plain c.card) c.idempotency_key) fresh)
  | inr (r, found) ↦ rw (charge_found self c r found) found
]

-- Whatever is charged after a charge, under its key or others: `get_by_idempotency_key` answers with
-- that charge's result, and a further charge under its key, whatever its card and its amount, gets the
-- same result and changes nothing.
pub charge_twice :
    (self : MockPaymentProvider) (c d : Charge) (others : List Charge)
    → d.idempotency_key ≡ c.idempotency_key
    → (get_by_idempotency_key (charge_all (charge self c).1 others) c.idempotency_key
        ≡ some (charge self c).0)
      × (charge (charge_all (charge self c).1 others) d
          ≡ ((charge self c).0, charge_all (charge self c).1 others))
charge_twice self c d others same =
    let later = charge_all (charge self c).1 others in
    let there =
      get-charge_all (charge self c).1 others c.idempotency_key (charge self c).0
        (get-charged self c) in
    (there, charge_found later d (charge self c).0 (ap (get_by_idempotency_key later) same ∙ there))

logged_keys :
    (xs : List (String × PaymentResult)) (k : String) (r : PaymentResult)
    → map (λ e. e.0) (xs ++ (k, r) ∷ []) ≡ map (λ e. e.0) xs ++ k ∷ []
logged_keys xs k r = map-append (λ e. e.0) xs ((k, r) ∷ [])

-- A key without a result is not among the recorded ones.
unrecorded :
    (es : List (String × PaymentResult)) (key : String)
    → head? (map (λ e. e.1) (select_rows (has_result key) es)) ≡ none
    → All (λ k. str_eq k key ≡ false) (map (λ e. e.0) es)
unrecorded [] key h = tt
unrecorded (e ∷ es) key h = elim (Bool-cases (has_result key e)) [
  | inl t ↦ cc
  | inr f ↦ (f, unrecorded es key (rw f at h))
]

Pairwise-add :
    (ks : List String) (key : String)
    → All (λ k. str_eq k key ≡ false) ks
    → Pairwise (λ a b. str_eq a b ≡ false) ks
    → Pairwise (λ a b. str_eq a b ≡ false) (ks ++ key ∷ [])
Pairwise-add [] key h p = (tt, tt)
Pairwise-add (k ∷ ks) key h p =
    (All-append (λ b. str_eq k b ≡ false) ks (key ∷ []) p.0 (h.0, tt), Pairwise-add ks key h.1 p.1)

-- Whatever is charged, the log names each key once, and just the keys whose result is recorded, if
-- that was so before.
pub charge-IsConsistent :
    (self : MockPaymentProvider) (c : Charge) → IsConsistent self → IsConsistent (charge self c).1
unfolding get_by_idempotency_key
charge-IsConsistent self c h = elim (Option-cases (get_by_idempotency_key self c.idempotency_key)) [
  | inr (r, found) ↦ rw (charge_found self c r found) h
  | inl fresh ↦ rw (charge_fresh self c fresh) (record {
    logged =
        rw
          (
            h.logged,
            logged_keys self.results c.idempotency_key
                (outcome_of (plain c.card) c.idempotency_key),
          )
          refl;
    once =
        Pairwise-add self.charged_keys c.idempotency_key
          (rw h.logged (unrecorded self.results c.idempotency_key fresh)) h.once;
  })
]
