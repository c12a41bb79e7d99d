-- ===== src/Seeds.antt =====
-- app/seeds.py, with the table of addresses (app/models/address.py), which only the seeds write.
pub mod Upsert
pub mod Data
pub mod Rerun
pub mod Again
pub mod Keeps
use canals_assessment.Prelude.{
  ℕ, suc, String, Bool, true, false, ◌&&◌, Option, none, some, List, [], ◌∷◌, ◌++◌, map, head?,
  str_eq, ◌==◌, ltb, if◌then◌else◌,
}
use canals_assessment.Domain.Values.{Point}
use canals_assessment.Domain.Errors.{Exception}
use canals_assessment.Sql.{select_rows, exists_row}
use canals_assessment.Db.Rows.{Db, Product, Warehouse, Inventory, Customer}
use canals_assessment.Db.Tx.{
  Result, ok, err, Tx, Env, pure, gets, modify, draw, raise_if, or_raise, begin, ◌>>=◌, ◌>>◌,
}
use canals_assessment.Repositories.Reservation.{stocks}
use canals_assessment.Seeds.Upsert.{upsert_rows}
use canals_assessment.Seeds.Data.{
  ProductSeed, WarehouseSeed, InventorySeed, AddressSeed, eur, customer_email, customer_name,
}
use canals_assessment.Seeds.Data

abbrev pub has_sku : ProductSeed → Product → Bool
has_sku s p = str_eq p.sku s.sku

abbrev pub set_product : ProductSeed → Product → Product
set_product s p = record p { name = s.name; unit_price_minor = s.unit_price_minor; currency = eur }

abbrev pub make_product : ProductSeed → ℕ → Product
make_product s id = record {
  id = id;
  sku = s.sku;
  name = s.name;
  unit_price_minor = s.unit_price_minor;
  currency = eur;
  is_active = true;
}

-- The statement of `seed_products`.
abbrev pub seed_products : Env → Db → Db
seed_products env db =
    let (rows, n) =
      upsert_rows env.gen_random_uuid has_sku set_product make_product Data.products
        (db.products, db.drawn) in
    record db { products = rows; drawn = n }

abbrev pub has_code : WarehouseSeed → Warehouse → Bool
has_code s w = str_eq w.code s.code

abbrev pub set_warehouse : WarehouseSeed → Warehouse → Warehouse
set_warehouse s w = record w { name = s.name; location = s.location }

abbrev pub make_warehouse : WarehouseSeed → ℕ → Warehouse
make_warehouse s id = record {
  id = id;
  code = s.code;
  name = s.name;
  location = s.location;
  is_active = true;
}

-- The statement of `seed_warehouses`.
abbrev pub seed_warehouses : Env → Db → Db
seed_warehouses env db =
    let (rows, n) =
      upsert_rows env.gen_random_uuid has_code set_warehouse make_warehouse Data.warehouses
        (db.warehouses, db.drawn) in
    record db { warehouses = rows; drawn = n }

-- A row of VALUES in `seed_inventory`.
pub record StockSeed : Type 0 where
  pub warehouse_id : ℕ
  pub product_id : ℕ
  pub on_hand : ℕ
  pub reserved : ℕ

-- `products[sku]`; the column is UNIQUE.
abbrev pub product_id_of : String → Db → Option ℕ
product_id_of sku db =
    head? (map (λ (p : Product). p.id) (select_rows (λ p. str_eq p.sku sku) db.products))

-- `warehouses[code]`
abbrev pub warehouse_id_of : String → Db → Option ℕ
warehouse_id_of code db =
    head? (map (λ (w : Warehouse). w.id) (select_rows (λ w. str_eq w.code code) db.warehouses))

abbrev pub stock_seed : InventorySeed → Option ℕ → Option ℕ → Option StockSeed
stock_seed s (some w) (some p) =
    some (record { warehouse_id = w; product_id = p; on_hand = s.on_hand; reserved = s.reserved })
stock_seed s (some w) none = none
stock_seed s none p = none

abbrev pub cons_option : Option StockSeed → Option (List StockSeed) → Option (List StockSeed)
cons_option (some s) (some ss) = some (s ∷ ss)
cons_option (some s) none = none
cons_option none ss = none

-- The VALUES of `seed_inventory`; `none` is a KeyError.
unfoldable pub stock_values : List InventorySeed → Db → Option (List StockSeed)
stock_values [] db = some []
stock_values (s ∷ ss) db =
    cons_option (stock_seed s (warehouse_id_of s.code db) (product_id_of s.sku db))
      (stock_values ss db)

-- The conflict on `uq_inventory_warehouse_product`.
abbrev pub is_pair : StockSeed → Inventory → Bool
is_pair s r = stocks s.warehouse_id s.product_id r

-- ON CONFLICT DO UPDATE sets what it names: `onupdate` of `updated_at` does not apply.
abbrev pub set_on_hand : StockSeed → Inventory → Inventory
set_on_hand s r = record r { on_hand = s.on_hand }

abbrev pub make_inventory : ℕ → StockSeed → ℕ → Inventory
make_inventory now s id = record {
  id = id;
  warehouse_id = s.warehouse_id;
  product_id = s.product_id;
  on_hand = s.on_hand;
  reserved = s.reserved;
  updated_at = now;
}

-- The statement of `seed_inventory`.
abbrev pub upsert_inventory : Env → List StockSeed → Db → Db
upsert_inventory env seeds db =
    let (rows, n) =
      upsert_rows env.gen_random_uuid is_pair set_on_hand (make_inventory db.now) seeds
        (db.inventory, db.drawn) in
    record db { inventory = rows; drawn = n }

-- A row that `on_hand >= reserved` refuses.
abbrev pub is_overdrawn : Inventory → Bool
is_overdrawn r = ltb r.on_hand r.reserved

-- `seed_inventory`
unfoldable pub seed_inventory : Env → Tx (Unit {0})
seed_inventory env = do
  resolved ← gets (stock_values Data.inventory)
  seeds ← or_raise resolved Exception.key_error
  modify (upsert_inventory env seeds)
  refused ← gets (λ db. exists_row is_overdrawn db.inventory)
  raise_if refused Exception.integrity_error

abbrev pub add_customer : Customer → Db → Db
add_customer c db = record db { customers = db.customers ++ c ∷ [] }

-- The end of `seed_customer`, by what the query found; the id is all that the seeds read of it.
unfoldable pub customer_or_new : Env → Option ℕ → Tx ℕ
customer_or_new env (some id) = pure id
customer_or_new env none = do
  id ← draw env
  modify (add_customer (record { id = id; email = customer_email; full_name = customer_name }))
  pure id

-- The row that `lower(email)` selects; `lower` is PostgreSQL's.
abbrev pub customer_of : (String → String) → Db → Option ℕ
customer_of lower db = head? (
    map (λ (c : Customer). c.id)
      (select_rows (λ c. str_eq (lower c.email) customer_email) db.customers))

-- `seed_customer`
unfoldable pub seed_customer : Env → (String → String) → Tx ℕ
unfolding customer_or_new
seed_customer env lower = do found ← gets (customer_of lower); customer_or_new env found

pub record Address : Type 0 where
  pub id : ℕ
  pub customer_id : ℕ
  pub line1 : String
  pub line2 : Option String
  pub city : String
  pub postal_code : String
  pub country_code : String
  pub point : Option Point

-- The database with the table of addresses.
pub record Store : Type 0 where
  pub db : Db
  pub addresses : List Address

abbrev pub is_address : ℕ → AddressSeed → Address → Bool
is_address customer s a = (a.customer_id == customer) && str_eq a.line1 s.line1

abbrev pub make_address : ℕ → AddressSeed → ℕ → Address
make_address customer s id = record {
  id = id;
  customer_id = customer;
  line1 = s.line1;
  line2 = none;
  city = s.city;
  postal_code = s.postal_code;
  country_code = s.country_code;
  point = some s.point;
}

-- One round of the loop of `seed_addresses`.
abbrev pub seed_address : Env → ℕ → AddressSeed → Store → Store
seed_address env customer s store =
    if exists_row (is_address customer s) store.addresses then store else record {
      db = record store.db { drawn = suc store.db.drawn };
      addresses =
          store.addresses ++ make_address customer s (env.gen_random_uuid store.db.drawn) ∷ [];
    }

-- `seed_addresses`; `to_point` takes the points of the data.
unfoldable pub seed_addresses : Env → ℕ → List AddressSeed → Store → Store
seed_addresses env customer [] store = store
seed_addresses env customer (s ∷ ss) store =
    seed_addresses env customer ss (seed_address env customer s store)

-- The transaction of `main`, up to the customer.
unfoldable pub seed_tables : Env → (String → String) → Tx ℕ
seed_tables env lower = do
  modify (seed_products env)
  modify (seed_warehouses env)
  seed_inventory env
  seed_customer env lower

-- The rest of `main`: a raise has rolled everything back.
abbrev pub with_addresses : Env → Result ℕ × Db → List Address → Result (Unit {0}) × Store
with_addresses env (err e, db) addresses = (err e, record { db = db; addresses = addresses })
with_addresses env (ok customer, db) addresses =
    (ok tt, seed_addresses env customer Data.addresses (record { db = db; addresses = addresses }))

-- `main`
unfoldable pub main : Env → (String → String) → Store → Result (Unit {0}) × Store
main env lower store = with_addresses env (begin (seed_tables env lower) store.db) store.addresses
