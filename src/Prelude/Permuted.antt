-- ===== src/Prelude/Permuted.antt =====
-- Sorting forgets the order of a list whose elements have different keys.
use mathlib.Core.Path.{◌≡◌, refl, sym, ◌∙◌, subst}
use mathlib.Core.Logic.{inl, inr}
use mathlib.Core.Bool.{Bool, true, false}
use mathlib.Core.List.{List, [], ◌∷◌, Permᴰ}
use mathlib.Core.List.Permᴰ.{nil, cons, swap, trans}
use native.Mathlib.Omega.{arith}
use canals_assessment.Prelude.Tests.{Bool-cases}
use canals_assessment.Prelude.Lists.{All}
use canals_assessment.Prelude.Sorting.{insert_sorted, sort_by, Pairwise}

All-perm {ℓ κ} : {A : Type ℓ} (P : A → Type κ) {xs ys : List A} → Permᴰ xs ys → All P xs → All P ys
All-perm P nil h = tt
All-perm P (cons e d) h = (subst P e h.0, All-perm P d h.1)
All-perm P (swap e f) h = (subst P f h.1.0, (subst P e h.0, h.1.1))
All-perm P (trans d e) h = All-perm P e (All-perm P d h)

module _ {A : Type 0} (le : A → A → Bool) (R : A → A → Type 0)
    (symmetric : (a b : A) → R a b → R b a)
    (transitive : (a b c : A) → le a b ≡ true → le b c ≡ true → le a c ≡ true)
    (total : (a b : A) → le a b ≡ false → le b a ≡ true)
    (apart : (a b : A) → R a b → le a b ≡ true → le b a ≡ false) where
  Pairwise-perm : {xs ys : List A} → Permᴰ xs ys → Pairwise R xs → Pairwise R ys
  Pairwise-perm nil h = tt
  Pairwise-perm (cons {l₁ = xs} {l₂ = ys} e d) h =
      (subst (λ a. All (R a) ys) e (All-perm (R _) d h.0), Pairwise-perm d h.1)
  Pairwise-perm (swap {a = a} {b = b} {a' = a'} {b' = b'} {l = l} e f) h = (
    (
      subst (λ z. R z b') f (subst (λ z. R b z) e (symmetric a b h.0.0)),
      subst (λ z. All (R z) l) f h.1.0,
    ),
    (subst (λ z. All (R z) l) e h.0.1, h.1.1),
  )
  Pairwise-perm (trans d e) h = Pairwise-perm e (Pairwise-perm d h)

  -- Of two elements, the lesser first.
  insert_both :
      (a b : A) (xs : List A)
      → le a b ≡ true
      → le b a ≡ false
      → insert_sorted le a (insert_sorted le b xs) ≡ insert_sorted le b (insert_sorted le a xs)
  insert_both a b [] h k = rw (h, k) refl
  insert_both a b (x ∷ xs) h k = elim (Bool-cases (le b x)) [
    | inl t ↦ let u = transitive a b x h t in ground (arith, h, k, t, u)
    | inr f ↦ elim (Bool-cases (le a x)) [
      | inl t ↦ ground (arith, h, k, f, t)
      | inr g ↦ let rest = insert_both a b xs h k in ground (arith, h, k, f, g, rest)
    ]
  ]

  insert_swap :
      (a b : A) (xs : List A)
      → R a b
      → insert_sorted le a (insert_sorted le b xs) ≡ insert_sorted le b (insert_sorted le a xs)
  insert_swap a b xs r = elim (Bool-cases (le a b)) [
    | inl t ↦ insert_both a b xs t (apart a b r t)
    | inr f ↦ sym (insert_both b a xs (total a b f) f)
  ]

  -- Two orders of elements that are pairwise apart sort to the same list.
  pub sort_by-perm : {xs ys : List A} → Permᴰ xs ys → Pairwise R xs → sort_by le xs ≡ sort_by le ys
  sort_by-perm nil h = refl
  sort_by-perm (cons {a} {b} e d) h = λ i. insert_sorted le (e i) (sort_by-perm d h.1 i)
  sort_by-perm (swap {a} {b} {a'} {b'} {l} e f) h = insert_swap a b (sort_by le l) h.0.0 ∙ λ i.
      insert_sorted le (f i) (insert_sorted le (e i) (sort_by le l))
  sort_by-perm (trans d e) h = sort_by-perm d h ∙ sort_by-perm e (Pairwise-perm d h)
