-- ===== src/Repositories/Warehouses/Best.antt =====
-- What the statement of `select_best` in app/repositories/warehouse.py selects.
use canals_assessment.Prelude.{
  ℕ, ◌+◌, ◌≡◌, refl, sym, ◌∙◌, ◌≢◌, ◌↔◌, true, false, ◌&&◌, Option, none, some, List, [], ◌∷◌,
  arith, leb, ◌==◌, ==_iff, All, length, contains, distinct, Bool-cases, inl, inr,
}
use canals_assessment.Prelude.Distinct.{
  IsSubset, contains-distinct, distinct-IsDistinctList, length-le, IsSubset-length,
}
use canals_assessment.Domain.Values.{RequestedItem, Point, WarehouseCandidate}
use canals_assessment.Sql.{select_rows, exists_row}
use canals_assessment.Db.Rows.{Db, Inventory, Warehouse}
use canals_assessment.Db.Tx.{Env}
use canals_assessment.Repositories.Reservation.{can_supply}
use canals_assessment.Repositories.Reservation.Atomic.{IsDistinct}
use canals_assessment.Repositories.Warehouses.{
  covers, covered, product_ids, eligible, nearer, candidate, is_eligible,
}

covers_known :
    (items : List RequestedItem) (r : Inventory)
    → covers items r ≡ true
    → contains r.product_id (product_ids items) ≡ true
covers_known [] r h = cc
covers_known (i ∷ is) r h = ground (arith, covers_known is r)

covered-IsSubset :
    (items : List RequestedItem) (w : ℕ) (rs : List Inventory)
    → IsSubset (covered items w rs) (product_ids items)
covered-IsSubset items w [] a h = cc
covered-IsSubset items w (r ∷ rs) a h =
    elim (Bool-cases ((r.warehouse_id == w) && covers items r)) [
      | inr f ↦ covered-IsSubset items w rs a (rw f at h)
      | inl t ↦ elim (Bool-cases (a == r.product_id)) [
        | inl same ↦ rw ((==_iff a r.product_id).0 same) (covers_known items r (ground (arith, t)))
        | inr other ↦ covered-IsSubset items w rs a (rw (t, other) at h)
      ]
    ]

distinct-IsSubset : (xs ys : List ℕ) → IsSubset xs ys → IsSubset (distinct xs) (distinct ys)
distinct-IsSubset xs ys h a k = rw (contains-distinct a ys) (h a (rw (contains-distinct a xs) at k))

distinct-IsSubset_back : (xs ys : List ℕ) → IsSubset (distinct xs) (distinct ys) → IsSubset xs ys
distinct-IsSubset_back xs ys h a k =
    rw (contains-distinct a ys) at (h a (rw (contains-distinct a xs) k))

-- The count of HAVING says that every requested product is covered.
eligible_covers :
    (items : List RequestedItem) (rs : List Inventory) (w : ℕ)
    → (eligible items rs w ≡ true) ↔ IsSubset (product_ids items) (covered items w rs)
unfolding eligible
eligible_covers items rs w =
    let ids = product_ids items in
    let some_ids = covered items w rs in
    let within = distinct-IsSubset some_ids ids (covered-IsSubset items w rs) in
    (
      λ h. distinct-IsSubset_back ids some_ids (
          IsSubset-length (distinct some_ids) (distinct ids) (distinct-IsDistinctList some_ids)
            within ((==_iff (length (distinct some_ids)) (length (distinct ids))).0 h)),
      λ h. (==_iff (length (distinct some_ids)) (length (distinct ids))).1 (
          omega (
            arith,
            length-le (distinct some_ids) (distinct ids) (distinct-IsDistinctList some_ids) within,
            length-le (distinct ids) (distinct some_ids) (distinct-IsDistinctList ids)
                (distinct-IsSubset ids some_ids h),
          )),
    )

-- Which row covers a product.
covered_by :
    (items : List RequestedItem) (w p : ℕ) (rs : List Inventory)
    → contains p (covered items w rs)
      ≡ exists_row (λ r. (p == r.product_id) && ((r.warehouse_id == w) && covers items r)) rs
covered_by items w p [] = refl
covered_by items w p (r ∷ rs) = ground (arith, covered_by items w p rs)

-- Of a request that names no product twice, each item is what a row of its product has to cover.
abbrev Decides : List RequestedItem → RequestedItem → Type 0
Decides items i =
    (r : Inventory)
    → (i.product_id == r.product_id) ≡ true
    → covers items r ≡ leb (r.reserved + i.quantity) r.on_hand

not_covered :
    (i : RequestedItem) (is : List RequestedItem) (r : Inventory)
    → All (λ j. i.product_id ≢ j.product_id) is
    → (i.product_id == r.product_id) ≡ true
    → covers is r ≡ false
not_covered i [] r d h = refl
not_covered i (j ∷ is) r d h = ground (arith, d.0, not_covered i is r d.1)

Decides-more :
    (i : RequestedItem) (all is : List RequestedItem)
    → All (λ j. i.product_id ≢ j.product_id) is
    → All (Decides all) is
    → All (Decides (i ∷ all)) is
Decides-more i all [] d h = tt
Decides-more i all (j ∷ is) d h =
    (λ r e. rw (sym (h.0 r e)) (ground (arith, d.0)), Decides-more i all is d.1 h.1)

All-Decides : (items : List RequestedItem) → IsDistinct items → All (Decides items) items
All-Decides [] d = tt
All-Decides (i ∷ is) d = (
  λ r e. rw (e, not_covered i is r d.0 e) (ground arith),
  Decides-more i is is d.0 (All-Decides is d.1),
)

covers_supplies :
    (items : List RequestedItem) (i : RequestedItem) (w : ℕ) (rs : List Inventory)
    → Decides items i
    → exists_row
        (λ r. (i.product_id == r.product_id) && ((r.warehouse_id == w) && covers items r))
        rs
      ≡ exists_row (can_supply w i) rs
covers_supplies items i w [] d = refl
covers_supplies items i w (r ∷ rs) d = ground (arith, d r, covers_supplies items i w rs d)

-- The warehouse has a row for each item with all that is asked for, on top of what is reserved.
abbrev pub Supplies : List RequestedItem → List Inventory → ℕ → Type 0
Supplies items rs w = All (λ i. exists_row (can_supply w i) rs ≡ true) items

Supplies-iff :
    (all : List RequestedItem) (w : ℕ) (rs : List Inventory) (is : List RequestedItem)
    → All (Decides all) is
    → IsSubset (product_ids is) (covered all w rs) ↔ Supplies is rs w
Supplies-iff all w rs [] d = (λ h. tt, λ h a k. cc)
Supplies-iff all w rs (i ∷ is) d =
    let rest = Supplies-iff all w rs is d.1 in
    let e = covered_by all w i.product_id rs ∙ covers_supplies all i w rs d.0 in
    (
      λ h. (sym e ∙ h i.product_id (ground arith), rest.0 (λ a k. h a (ground (arith, k)))),
      λ h a k. elim (Bool-cases (a == i.product_id)) [
        | inl same ↦ rw ((==_iff a i.product_id).0 same) (e ∙ h.0)
        | inr other ↦ rest.1 h.1 a (rw other at k)
      ],
    )

-- For a request that names no product twice, the GROUP BY … HAVING of the statement keeps exactly the
-- warehouses that can supply every item in full.
pub eligible_iff :
    (items : List RequestedItem) (rs : List Inventory) (w : ℕ)
    → IsDistinct items
    → (eligible items rs w ≡ true) ↔ Supplies items rs w
eligible_iff items rs w d =
    let counted = eligible_covers items rs w in
    let supplied = Supplies-iff items w rs items (All-Decides items d) in
    (λ h. supplied.0 (counted.0 h), λ h. counted.1 (supplied.1 h))

-- The active warehouses that are eligible.
abbrev pub qualified : List RequestedItem → Db → List Warehouse
qualified items db = select_rows (is_eligible items db) db.warehouses

-- What the answer of a selection says.
abbrev pub Selects : Env → Point → List RequestedItem → Db → Option WarehouseCandidate → Type 0
Selects env point items db none = qualified items db ≡ []
Selects env point items db (some c) =
    (w : Warehouse) × (c ≡ candidate env point w)
    × (w.is_active ≡ true)
    × Supplies items db.inventory w.id
    × All (λ v. nearer env point w v ≡ true) (qualified items db)
