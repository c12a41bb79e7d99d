-- ===== src/Repositories/Warehouses.antt =====
-- app/repositories/warehouse.py: the selection query.
pub mod Best
use canals_assessment.Prelude.{
  ℕ, ◌+◌, String, Bool, ◌&&◌, ◌||◌, Option, none, some, List, [], ◌∷◌, map, ltb, leb, ◌==◌, head?,
  length, contains, distinct,
}
use canals_assessment.Prelude.Sorting.{sort_by}
use canals_assessment.Domain.Values.{Point, RequestedItem, WarehouseCandidate}
use canals_assessment.Sql.{select_rows, exists_row}
use canals_assessment.Db.Rows.{Db, Inventory, Warehouse}
use canals_assessment.Db.Tx.{Tx, pure, gets, ◌>>=◌, Env}

-- A row of the join of `inventory` with the requested VALUES that passes WHERE.
abbrev pub covers : List RequestedItem → Inventory → Bool
covers items r =
    exists_row (λ i. (i.product_id == r.product_id) && leb (r.reserved + i.quantity) r.on_hand)
      items

-- The products that a warehouse's rows in the join name.
abbrev pub covered : List RequestedItem → ℕ → List Inventory → List ℕ
covered items w inventory =
    map (λ r. r.product_id) (select_rows (λ r. (r.warehouse_id == w) && covers items r) inventory)

abbrev pub product_ids : List RequestedItem → List ℕ
product_ids = map (λ i. i.product_id)

-- GROUP BY warehouse HAVING count(DISTINCT product_id) = the number of distinct products.
unfoldable pub eligible : List RequestedItem → List Inventory → ℕ → Bool
eligible items inventory w =
    length (distinct (covered items w inventory)) == length (distinct (product_ids items))

-- ORDER BY distance, code.
abbrev pub nearer : Env → Point → Warehouse → Warehouse → Bool
nearer env point a b =
    let d = env.st_distance a.location point in
    let e = env.st_distance b.location point in ltb d e || ((d == e) && env.collates a.code b.code)

abbrev pub candidate : Env → Point → Warehouse → WarehouseCandidate
candidate env point w = record {
  id = w.id;
  code = w.code;
  name = w.name;
  distance_m = env.st_distance w.location point;
}

-- The first row of the statement, as a candidate.
abbrev pub first_candidate : Env → Point → List Warehouse → Option WarehouseCandidate
first_candidate env point [] = none
first_candidate env point (w ∷ ws) = some (candidate env point w)

abbrev pub is_eligible : List RequestedItem → Db → Warehouse → Bool
is_eligible items db w = eligible items db.inventory w.id && w.is_active

unfoldable pub select_best : Env → Point → List RequestedItem → Tx (Option WarehouseCandidate)
unfolding eligible
select_best env point [] = pure none
select_best env point (i ∷ is) = gets λ db.
    first_candidate env point
      (sort_by (nearer env point) (select_rows (is_eligible (i ∷ is) db) db.warehouses))

-- `on_hand - reserved > 0`, as whole numbers, for a product of the list.
abbrev pub is_stocked : List ℕ → Inventory → Bool
is_stocked ids r = contains r.product_id ids && ltb r.reserved r.on_hand

unfoldable pub count_products_stocked_anywhere : List ℕ → Tx ℕ
count_products_stocked_anywhere ids =
    gets (λ db.
      length (distinct (map (λ r. r.product_id) (select_rows (is_stocked ids) db.inventory))))
