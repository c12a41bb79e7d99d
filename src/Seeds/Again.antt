-- ===== src/Seeds/Again.antt =====
-- A second run of `main` of app/seeds.py, at any time.
use canals_assessment.Prelude.{
  ℕ, String, ◌≡◌, refl, sym, ap, ◌∙◌, subst, true, false, some, List, All, str_eq, Bool-cases,
  Option-cases, inl, inr, if◌then◌else◌,
}
use canals_assessment.Domain.Errors.{Exception}
use canals_assessment.Sql.{exists_row}
use canals_assessment.Db.Rows.{Db, Product, Warehouse, Inventory}
use canals_assessment.Db.Tx.{Result, ok, err, Env, begin, commit_or_rollback, Ends, Ends-bind, ◌>>◌}
use canals_assessment.Jobs.Sweep.{at_time}
use canals_assessment.Seeds.{
  Store, StockSeed, main, with_addresses, seed_tables, seed_products, seed_warehouses,
  seed_inventory, seed_customer, customer_or_new, customer_of, seed_addresses, is_address,
  stock_values, upsert_inventory, is_overdrawn, is_pair, set_on_hand, make_inventory, has_sku,
  set_product, make_product, has_code, set_warehouse, make_warehouse,
}
use canals_assessment.Seeds.Upsert.{IsSettled, AllApart, upsert_rows-settled, upsert_rows-again}
use canals_assessment.Seeds.Data.{ProductSeed, WarehouseSeed, customer_email, customer_name}
use canals_assessment.Seeds.Data
use canals_assessment.Seeds.Rerun.{
  same_sku, same_code, same_pair, products-IsUpsert, warehouses-IsUpsert, inventory-IsUpsert,
  products-AllApart, warehouses-AllApart, stock_values-same, found_after, seed_addresses-db,
  seed_addresses-all, seed_addresses-again,
}

-- The seeds are in the first two tables.
record HasCatalog (db : Db) : Type 0 where
  products : All (λ s. IsSettled has_sku set_product s db.products) Data.products
  warehouses : All (λ s. IsSettled has_code set_warehouse s db.warehouses) Data.warehouses

-- And in the third one, where nothing is overdrawn.
record HasStock (db : Db) : Type 0 where
  catalog : HasCatalog db
  stock :
      (seeds : List StockSeed)
      → stock_values Data.inventory db ≡ some seeds
      → AllApart same_pair seeds
      → All (λ s. IsSettled is_pair set_on_hand s db.inventory) seeds
  sound : exists_row is_overdrawn db.inventory ≡ false

record HasSeeds (lower : String → String) (customer : ℕ) (db : Db) : Type 0 where
  stocked : HasStock db
  known : customer_of lower db ≡ some customer

module _ (env : Env) (lower : String → String) where
  catalog_after : (db : Db) → HasCatalog (seed_warehouses env (seed_products env db))
  catalog_after db = record {
    products =
        upsert_rows-settled env.gen_random_uuid has_sku set_product make_product same_sku
          products-IsUpsert Data.products db.products db.drawn products-AllApart;
    warehouses =
        upsert_rows-settled env.gen_random_uuid has_code set_warehouse make_warehouse same_code
          warehouses-IsUpsert Data.warehouses db.warehouses (seed_products env db).drawn
          warehouses-AllApart;
  }

  stock_after :
      (db : Db) (seeds : List StockSeed)
      → HasCatalog db
      → stock_values Data.inventory db ≡ some seeds
      → exists_row is_overdrawn (upsert_inventory env seeds db).inventory ≡ false
      → HasStock (upsert_inventory env seeds db)
  stock_after db seeds c found sound = record {
    catalog = record { products = c.products; warehouses = c.warehouses };
    stock = λ more again differ.
        let e : seeds ≡ more = same_some (
          sym found
          ∙ sym (stock_values-same Data.inventory db (upsert_inventory env seeds db) refl refl)
          ∙ again) in
        subst
          (λ m.
            AllApart same_pair m
            → All (λ s. IsSettled is_pair set_on_hand s (upsert_inventory env seeds db).inventory)
                m)
          e
          (upsert_rows-settled env.gen_random_uuid is_pair set_on_hand (make_inventory db.now)
            same_pair (inventory-IsUpsert db.now) seeds db.inventory db.drawn)
          differ;
    sound = sound;
  }
    where
      same_some : {a b : List StockSeed} → some a ≡ some b → a ≡ b
      same_some h = cc

  inventory_after :
      (db : Db)
      → HasCatalog db
      → Ends (λ _ new. HasStock new) (λ e. Unit {0}) (seed_inventory env db)
  unfolding seed_inventory
  inventory_after db c = elim (Option-cases (stock_values Data.inventory db)) [
    | inl absent ↦ rw absent tt
    | inr (seeds, found) ↦
        rw found
          (elim (Bool-cases (exists_row is_overdrawn (upsert_inventory env seeds db).inventory)) [
            | inl refused ↦ rw refused tt
            | inr sound ↦ rw sound (stock_after db seeds c found sound)
          ])
  ]

  -- The rows of customers are not among those that `HasStock` reads.
  other_customers :
      (db new : Db)
      → new.products ≡ db.products
      → new.warehouses ≡ db.warehouses
      → new.inventory ≡ db.inventory
      → HasStock db
      → HasStock new
  other_customers db new p w v h = record {
    catalog = record { products = rw p h.catalog.products; warehouses = rw w h.catalog.warehouses };
    stock = λ seeds found differ.
        rw v (h.stock seeds (sym (stock_values-same Data.inventory db new p w) ∙ found) differ);
    sound = rw v h.sound;
  }

  customer_after :
      (db : Db)
      → str_eq (lower customer_email) customer_email ≡ true
      → HasStock db
      → Ends (HasSeeds lower) (λ e. Unit {0}) (seed_customer env lower db)
  unfolding seed_customer customer_or_new
  customer_after db same h = elim (Option-cases (customer_of lower db)) [
    | inl absent ↦ rw absent (record {
      stocked = other_customers db _ refl refl refl h;
      known = found_after lower db.customers _ absent same;
    })
    | inr (id, found) ↦ rw found (record { stocked = h; known = found })
  ]

  tables_after :
      (db : Db)
      → str_eq (lower customer_email) customer_email ≡ true
      → Ends (HasSeeds lower) (λ e. Unit {0}) (seed_tables env lower db)
  unfolding seed_tables
  tables_after db same =
      let stocked = seed_warehouses env (seed_products env db) in
      Ends-bind (λ _ new. HasStock new) (HasSeeds lower) (λ e. Unit {0}) (seed_inventory env)
        (λ _. seed_customer env lower) stocked (inventory_after stocked (catalog_after db))
        (λ _ new h. customer_after new same h)

  -- And each statement leaves such a database as it is.
  products_again : (db : Db) → HasCatalog db → seed_products env db ≡ db
  products_again db c =
      ap (λ (t : List Product × ℕ). record db { products = t.0; drawn = t.1 })
        (upsert_rows-again env.gen_random_uuid has_sku set_product make_product same_sku
          products-IsUpsert Data.products db.products db.drawn c.products)

  warehouses_again : (db : Db) → HasCatalog db → seed_warehouses env db ≡ db
  warehouses_again db c =
      ap (λ (t : List Warehouse × ℕ). record db { warehouses = t.0; drawn = t.1 })
        (upsert_rows-again env.gen_random_uuid has_code set_warehouse make_warehouse same_code
          warehouses-IsUpsert Data.warehouses db.warehouses db.drawn c.warehouses)

  inventory_again :
      (db : Db) (seeds : List StockSeed)
      → HasStock db
      → stock_values Data.inventory db ≡ some seeds
      → AllApart same_pair seeds
      → seed_inventory env db ≡ (ok tt, db)
  unfolding seed_inventory
  inventory_again db seeds h found differ =
      let same : upsert_inventory env seeds db ≡ db =
        ap (λ (t : List Inventory × ℕ). record db { inventory = t.0; drawn = t.1 })
          (upsert_rows-again env.gen_random_uuid is_pair set_on_hand (make_inventory db.now)
            same_pair (inventory-IsUpsert db.now) seeds db.inventory db.drawn
            (h.stock seeds found differ)) in
      rw found (
        ap
          (λ (new : Db). (
            if exists_row is_overdrawn new.inventory then err Exception.integrity_error else ok tt,
            new,
          ))
          same
        ∙ rw h.sound refl)

  tables_again :
      (db : Db) (customer : ℕ) (seeds : List StockSeed)
      → HasSeeds lower customer db
      → stock_values Data.inventory db ≡ some seeds
      → AllApart same_pair seeds
      → seed_tables env lower db ≡ (ok customer, db)
  unfolding seed_tables seed_customer customer_or_new
  tables_again db customer seeds h found differ =
      ap (λ new. (seed_inventory env >> seed_customer env lower) (seed_warehouses env new))
        (products_again db h.stocked.catalog)
      ∙ ap (seed_inventory env >> seed_customer env lower) (warehouses_again db h.stocked.catalog)
      ∙ rw (inventory_again db seeds h.stocked found differ, h.known) refl

  -- What a run of `main` that returned leaves.
  record HasAll (customer : ℕ) (store : Store) : Type 0 where
    seeds : HasSeeds lower customer store.db
    addresses : All (λ s. exists_row (is_address customer s) store.addresses ≡ true) Data.addresses

  addresses_after :
      (customer : ℕ) (store : Store)
      → HasSeeds lower customer store.db
      → HasAll customer (seed_addresses env customer Data.addresses store)
  addresses_after customer store h =
      let same = seed_addresses-db env customer Data.addresses store in
      record {
        seeds = record {
          stocked =
              other_customers store.db _ (ap (λ (d : Db). d.products) same)
                (ap (λ (d : Db). d.warehouses) same) (ap (λ (d : Db). d.inventory) same) h.stocked;
          known = ap (customer_of lower) same ∙ h.known;
        };
        addresses = seed_addresses-all env customer Data.addresses store;
      }

  main_after :
      (store after : Store)
      → str_eq (lower customer_email) customer_email ≡ true
      → main env lower store ≡ (ok tt, after)
      → (customer : ℕ) × HasAll customer after
  unfolding main begin
  main_after store after same returned =
      go (seed_tables env lower store.db) (tables_after store.db same) returned
    where
      go :
          (r : Result ℕ × Db)
          → Ends (HasSeeds lower) (λ e. Unit {0}) r
          → with_addresses env (commit_or_rollback store.db r) store.addresses ≡ (ok tt, after)
          → (customer : ℕ) × HasAll customer after
      go (ok customer, db) h e = (
        customer,
        subst (HasAll customer) (ap (λ (p : Result (Unit {0}) × Store). p.1) e)
            (addresses_after customer (record { db = db; addresses = store.addresses }) h),
      )
      go (err x, db) h e = cc

  later :
      (t customer : ℕ) (store : Store)
      → HasAll customer store
      → HasAll customer (record store { db = at_time t store.db })
  later t customer store h = record {
    seeds = record {
      stocked = other_customers store.db (at_time t store.db) refl refl refl h.seeds.stocked;
      known = h.seeds.known;
    };
    addresses = h.addresses;
  }

  main_stays :
      (customer : ℕ) (store : Store) (seeds : List StockSeed)
      → HasAll customer store
      → stock_values Data.inventory store.db ≡ some seeds
      → AllApart same_pair seeds
      → main env lower store ≡ (ok tt, store)
  unfolding main begin
  main_stays customer store seeds h found differ =
      rw (tables_again store.db customer seeds h.seeds found differ)
        (ap (λ s. (ok tt, s)) (seed_addresses-again env customer Data.addresses store h.addresses))

  -- Once a run of `main` has returned, a further run at any time changes nothing: it returns and
  -- leaves every table and every id drawn as they are. The conditions are that the email is in lower
  -- case, and that the rows of VALUES for the inventory, with the ids of the products and warehouses
  -- written in, are for different pairs.
  pub main_again :
      (store after : Store) (seeds : List StockSeed) (t : ℕ)
      → str_eq (lower customer_email) customer_email ≡ true
      → main env lower store ≡ (ok tt, after)
      → stock_values Data.inventory after.db ≡ some seeds
      → AllApart same_pair seeds
      → main env lower (record after { db = at_time t after.db })
        ≡ (ok tt, record after { db = at_time t after.db })
  main_again store after seeds t same returned found differ =
      let (customer, h) = main_after store after same returned in
      main_stays customer _ seeds (later t customer after h)
        (stock_values-same Data.inventory after.db (at_time t after.db) refl refl ∙ found) differ
