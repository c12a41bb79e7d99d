-- ===== src/Seeds/Rerun.antt =====
-- A second run of app/seeds.py.
use canals_assessment.Prelude.{
  ℕ, suc, String, ◌≡◌, refl, ap, ◌∙◌, Bool, true, false, ◌&&◌, none, some, List, [], ◌∷◌, ◌++◌, All,
  map, head?, str_eq, eq_iff, ◌==◌, arith, Bool-cases, inl, inr, if◌then◌else◌,
}
use canals_assessment.Sql.{select_rows, exists_row}
use canals_assessment.Db.Rows.{Db, Product, Warehouse, Customer}
use canals_assessment.Db.Tx.{Env}
use canals_assessment.Seeds.{
  Store, Address, StockSeed, seed_addresses, seed_address, is_address, make_address, stock_values,
  cons_option, stock_seed, warehouse_id_of, product_id_of, is_pair, set_on_hand, make_inventory,
  has_sku, set_product, make_product, has_code, set_warehouse, make_warehouse,
}
use canals_assessment.Seeds.Upsert.{IsUpsert, AllApart}
use canals_assessment.Seeds.Data.{
  ProductSeed, WarehouseSeed, InventorySeed, AddressSeed, customer_email, customer_name,
}
use canals_assessment.Seeds.Data

abbrev pub same_sku : ProductSeed → ProductSeed → Bool
same_sku s x = str_eq x.sku s.sku

abbrev pub same_code : WarehouseSeed → WarehouseSeed → Bool
same_code s x = str_eq x.code s.code

-- Two rows of VALUES for one pair.
abbrev pub same_pair : StockSeed → StockSeed → Bool
same_pair s x = (x.warehouse_id == s.warehouse_id) && (x.product_id == s.product_id)

pub products-IsUpsert : IsUpsert has_sku set_product make_product same_sku
products-IsUpsert = record {
  keyed = λ s x r. refl;
  constant = λ s r. refl;
  makes = λ s id. (eq_iff s.sku s.sku).1 refl;
  made = λ s id. refl;
  apart = λ s x r h k. rw ((eq_iff r.sku x.sku).0 k) h;
}

pub warehouses-IsUpsert : IsUpsert has_code set_warehouse make_warehouse same_code
warehouses-IsUpsert = record {
  keyed = λ s x r. refl;
  constant = λ s r. refl;
  makes = λ s id. (eq_iff s.code s.code).1 refl;
  made = λ s id. refl;
  apart = λ s x r h k. rw ((eq_iff r.code x.code).0 k) h;
}

pub inventory-IsUpsert : (now : ℕ) → IsUpsert is_pair set_on_hand (make_inventory now) same_pair
inventory-IsUpsert now = record {
  keyed = λ s x r. refl;
  constant = λ s r. refl;
  makes = λ s id. ground arith;
  made = λ s id. refl;
  apart = λ s x r h k. ground (arith, h, k);
}

pub products-AllApart : AllApart same_sku Data.products
products-AllApart = (
  (refl, (refl, (refl, (refl, tt)))),
  ((refl, (refl, (refl, tt))), ((refl, (refl, tt)), ((refl, tt), (tt, tt)))),
)

pub warehouses-AllApart : AllApart same_code Data.warehouses
warehouses-AllApart = ((refl, (refl, (refl, tt))), ((refl, (refl, tt)), ((refl, tt), (tt, tt))))

-- The dictionaries are read from two tables alone.
pub stock_values-same :
    (ss : List InventorySeed) (db new : Db)
    → new.products ≡ db.products
    → new.warehouses ≡ db.warehouses
    → stock_values ss new ≡ stock_values ss db
unfolding stock_values
stock_values-same [] db new p w = refl
stock_values-same (s ∷ ss) db new p w =
    let a : warehouse_id_of s.code new ≡ warehouse_id_of s.code db =
      ap
        (λ (rows : List Warehouse).
          head? (map (λ (x : Warehouse). x.id) (select_rows (λ x. str_eq x.code s.code) rows)))
        w in
    let b : product_id_of s.sku new ≡ product_id_of s.sku db =
      ap
        (λ (rows : List Product).
          head? (map (λ (x : Product). x.id) (select_rows (λ x. str_eq x.sku s.sku) rows)))
        p in
    λ i. cons_option (stock_seed s (a i) (b i)) (stock_values-same ss db new p w i)

-- A customer that is added is found, if none was.
pub found_after :
    (lower : String → String) (rows : List Customer) (c : Customer)
    → head? (map (λ x. x.id) (select_rows (λ x. str_eq (lower x.email) customer_email) rows)) ≡ none
    → str_eq (lower c.email) customer_email ≡ true
    → head? (
        map (λ x. x.id) (select_rows (λ x. str_eq (lower x.email) customer_email) (rows ++ c ∷ [])))
      ≡ some c.id
found_after lower [] c h k = rw k refl
found_after lower (r ∷ rs) c h k = elim (Bool-cases (str_eq (lower r.email) customer_email)) [
  | inl t ↦ let e = rw t at h in cc
  | inr f ↦ rw f (found_after lower rs c (rw f at h) k)
]

module _ (env : Env) (customer : ℕ) where
  -- An address writes no table of the database.
  seed_address-db :
      (s : AddressSeed) (store : Store)
      → (seed_address env customer s store).db
        ≡ record store.db { drawn = (seed_address env customer s store).db.drawn }
  seed_address-db s store = go (exists_row (is_address customer s) store.addresses)
    where
      made : Store
      made = record {
        db = record store.db { drawn = suc store.db.drawn };
        addresses =
            store.addresses ++ make_address customer s (env.gen_random_uuid store.db.drawn) ∷ [];
      }

      go :
          (b : Bool)
          → (if b then store else made).db
            ≡ record store.db { drawn = (if b then store else made).db.drawn }
      go true = refl
      go false = refl

  pub seed_addresses-db :
      (ss : List AddressSeed) (store : Store)
      → (seed_addresses env customer ss store).db
        ≡ record store.db { drawn = (seed_addresses env customer ss store).db.drawn }
  unfolding seed_addresses
  seed_addresses-db [] store = refl
  seed_addresses-db (s ∷ ss) store =
      let next = seed_address env customer s store in
      seed_addresses-db ss next
      ∙ ap (λ (d : Db). record d { drawn = (seed_addresses env customer ss next).db.drawn })
          (seed_address-db s store)

  there_still :
      (s : AddressSeed) (rows more : List Address)
      → exists_row (is_address customer s) rows ≡ true
      → exists_row (is_address customer s) (rows ++ more) ≡ true
  there_still s [] more h = cc
  there_still s (a ∷ rest) more h = ground (arith, h, there_still s rest more)

  there_last :
      (s : AddressSeed) (rows : List Address) (id : ℕ)
      → exists_row (is_address customer s) (rows ++ make_address customer s id ∷ []) ≡ true
  there_last s [] id = ground (arith, (eq_iff s.line1 s.line1).1 refl)
  there_last s (a ∷ rest) id = ground (arith, there_last s rest id)

  seed_address-there :
      (s x : AddressSeed) (store : Store)
      → exists_row (is_address customer s) store.addresses ≡ true
      → exists_row (is_address customer s) (seed_address env customer x store).addresses ≡ true
  seed_address-there s x store h =
      elim (Bool-cases (exists_row (is_address customer x) store.addresses)) [
        | inl found ↦ rw found h
        | inr absent ↦ rw absent (there_still s store.addresses _ h)
      ]

  seed_address-made :
      (s : AddressSeed) (store : Store)
      → exists_row (is_address customer s) (seed_address env customer s store).addresses ≡ true
  seed_address-made s store =
      elim (Bool-cases (exists_row (is_address customer s) store.addresses)) [
        | inl found ↦ rw (found, found) refl
        | inr absent ↦ rw absent (there_last s store.addresses _)
      ]

  seed_addresses-there :
      (s : AddressSeed) (ss : List AddressSeed) (store : Store)
      → exists_row (is_address customer s) store.addresses ≡ true
      → exists_row (is_address customer s) (seed_addresses env customer ss store).addresses ≡ true
  unfolding seed_addresses
  seed_addresses-there s [] store h = h
  seed_addresses-there s (x ∷ xs) store h =
      seed_addresses-there s xs (seed_address env customer x store) (seed_address-there s x store h)

  pub seed_addresses-all :
      (ss : List AddressSeed) (store : Store)
      → All
          (λ s.
            exists_row (is_address customer s) (seed_addresses env customer ss store).addresses
            ≡ true)
          ss
  unfolding seed_addresses
  seed_addresses-all [] store = tt
  seed_addresses-all (s ∷ ss) store =
      let next = seed_address env customer s store in
      (seed_addresses-there s ss next (seed_address-made s store), seed_addresses-all ss next)

  pub seed_addresses-again :
      (ss : List AddressSeed) (store : Store)
      → All (λ s. exists_row (is_address customer s) store.addresses ≡ true) ss
      → seed_addresses env customer ss store ≡ store
  unfolding seed_addresses
  seed_addresses-again [] store h = refl
  seed_addresses-again (s ∷ ss) store h =
      ap (seed_addresses env customer ss) (kept s store h.0) ∙ seed_addresses-again ss store h.1
    where
      kept :
          (x : AddressSeed) (old : Store)
          → exists_row (is_address customer x) old.addresses ≡ true
          → seed_address env customer x old ≡ old
      kept x old k = rw k refl
