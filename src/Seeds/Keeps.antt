-- ===== src/Seeds/Keeps.antt =====
-- What a run of app/seeds.py leaves of the stock that live reservations hold.
use mathlib.Core.List.{append-nil, append_assoc}
use canals_assessment.Prelude.{
  ℕ, String, ◌≡◌, refl, sym, ap, ◌∙◌, Bool, false, List, [], ◌∷◌, ◌++◌, map, Bool-cases,
  Option-cases, inl, inr,
}
use canals_assessment.Sql.{update_rows, exists_row}
use canals_assessment.Db.Rows.{Db, Inventory}
use canals_assessment.Db.Tx.{Result, ok, err, Env, begin, commit_or_rollback, Ends, Ends-bind}
use canals_assessment.Seeds.{
  Store, main, with_addresses, seed_tables, seed_products, seed_warehouses, seed_inventory,
  seed_customer, customer_or_new, customer_of, stock_values, upsert_inventory, is_overdrawn,
  is_pair, set_on_hand, make_inventory,
}
use canals_assessment.Seeds.Upsert.{upsert_row, upsert_rows}
use canals_assessment.Seeds.Data
use canals_assessment.Seeds.Rerun.{seed_addresses-db}

-- What SET leaves alone stays at every row, and the new rows come after.
module _ {S R X : Type 0} (uuid : ℕ → ℕ) (same : S → R → Bool) (set : S → R → R) (make : S → ℕ → R)
    (f : R → X) (kept : (s : S) (r : R) → f (set s r) ≡ f r) where
  map-update_rows : (s : S) (rows : List R) → map f (update_rows (same s) (set s) rows) ≡ map f rows
  map-update_rows s [] = refl
  map-update_rows s (r ∷ rs) = elim (Bool-cases (same s r)) [
    | inl t ↦ rw (t, kept s r, map-update_rows s rs) refl
    | inr e ↦ rw (e, map-update_rows s rs) refl
  ]

  map-append : (rows more : List R) → map f (rows ++ more) ≡ map f rows ++ map f more
  map-append [] more = refl
  map-append (r ∷ rs) more = ap (λ xs. f r ∷ xs) (map-append rs more)

  upsert_row-keeps :
      (s : S) (rows : List R) (n : ℕ)
      → (more : List X) × (map f (upsert_row uuid same set make s (rows, n)).0 ≡ map f rows ++ more)
  upsert_row-keeps s rows n = elim (Bool-cases (exists_row (same s) rows)) [
    | inl found ↦ rw found ([], map-update_rows s rows ∙ sym (append-nil (map f rows)))
    | inr absent ↦ rw absent (f (make s (uuid n)) ∷ [], map-append rows (make s (uuid n) ∷ []))
  ]

  upsert_rows-keeps :
      (ss : List S) (rows : List R) (n : ℕ)
      → (more : List X) × (map f (upsert_rows uuid same set make ss (rows, n)).0
          ≡ map f rows ++ more)
  unfolding upsert_rows
  upsert_rows-keeps [] rows n = ([], sym (append-nil (map f rows)))
  upsert_rows-keeps (s ∷ ss) rows n =
      let next = upsert_row uuid same set make s (rows, n) in
      let (one, e) = upsert_row-keeps s rows n in
      let (rest, h) = upsert_rows-keeps ss next.0 next.1 in
      (one ++ rest, h ∙ ap (λ xs. xs ++ rest) e ∙ append_assoc (map f rows) one rest)

-- A row of inventory without its units on hand.
abbrev held : Inventory → ℕ × ℕ × ℕ × ℕ
held r = (r.id, r.warehouse_id, r.product_id, r.reserved)

-- Every row of inventory keeps its id, its pair and its reserved units, in its place; new rows come
-- after; no row is overdrawn; and the orders and reservations are as they were.
pub record Keeps (old new : Db) : Type 0 where
  pub inventory :
      (more : List (ℕ × ℕ × ℕ × ℕ)) × (map held new.inventory ≡ map held old.inventory ++ more)
  pub sound : exists_row is_overdrawn new.inventory ≡ false
  pub orders : new.orders ≡ old.orders
  pub reservations : new.stock_reservations ≡ old.stock_reservations

module _ (env : Env) (lower : String → String) where
  Keeps-refl : (db : Db) → exists_row is_overdrawn db.inventory ≡ false → Keeps db db
  Keeps-refl db h = record {
    inventory = ([], sym (append-nil (map held db.inventory)));
    sound = h;
    orders = refl;
    reservations = refl;
  }

  seed_inventory-Keeps :
      (db : Db) → Ends (λ _ new. Keeps db new) (λ e. Unit {0}) (seed_inventory env db)
  unfolding seed_inventory
  seed_inventory-Keeps db = elim (Option-cases (stock_values Data.inventory db)) [
    | inl absent ↦ rw absent tt
    | inr (seeds, found) ↦
        rw found
          (elim (Bool-cases (exists_row is_overdrawn (upsert_inventory env seeds db).inventory)) [
            | inl refused ↦ rw refused tt
            | inr sound ↦ rw sound (record {
              inventory =
                  upsert_rows-keeps env.gen_random_uuid is_pair set_on_hand (make_inventory db.now)
                    held (λ s r. refl) seeds db.inventory db.drawn;
              sound = sound;
              orders = refl;
              reservations = refl;
            })
          ])
  ]

  same_stock :
      (old db new : Db)
      → new.inventory ≡ db.inventory
      → new.orders ≡ db.orders
      → new.stock_reservations ≡ db.stock_reservations
      → Keeps old db
      → Keeps old new
  same_stock old db new v o r k = record {
    inventory = rw v k.inventory;
    sound = rw v k.sound;
    orders = o ∙ k.orders;
    reservations = r ∙ k.reservations;
  }

  seed_customer-Keeps :
      (old db : Db)
      → Keeps old db
      → Ends (λ _ new. Keeps old new) (λ e. Unit {0}) (seed_customer env lower db)
  unfolding seed_customer customer_or_new
  seed_customer-Keeps old db k = elim (Option-cases (customer_of lower db)) [
    | inl absent ↦ rw absent (same_stock old db _ refl refl refl k)
    | inr (id, found) ↦ rw found k
  ]

  seed_tables-Keeps :
      (db : Db) → Ends (λ _ new. Keeps db new) (λ e. Unit {0}) (seed_tables env lower db)
  unfolding seed_tables
  seed_tables-Keeps db =
      let listed = seed_warehouses env (seed_products env db) in
      Ends-bind (λ _ new. Keeps listed new) (λ _ new. Keeps db new) (λ e. Unit {0})
        (seed_inventory env) (λ _. seed_customer env lower) listed (seed_inventory-Keeps listed)
        (λ _ new k. seed_customer-Keeps db new (record {
          inventory = k.inventory;
          sound = k.sound;
          orders = k.orders;
          reservations = k.reservations;
        }))

  -- On a database without an overdrawn row, a run of `main` keeps what live reservations hold, whether
  -- it returns or raises: every row of inventory keeps its id, its warehouse, its product and its
  -- reserved units, new rows come after, no row is overdrawn, and the orders and the reservations are
  -- as they were.
  pub main-Keeps :
      (store : Store)
      → exists_row is_overdrawn store.db.inventory ≡ false
      → Keeps store.db (main env lower store).1.db
  unfolding main begin
  main-Keeps store h = go (seed_tables env lower store.db) (seed_tables-Keeps store.db)
    where
      go :
          (r : Result ℕ × Db)
          → Ends (λ _ new. Keeps store.db new) (λ e. Unit {0}) r
          → Keeps store.db (with_addresses env (commit_or_rollback store.db r) store.addresses).1.db
      go (ok customer, db) k =
          let same =
            seed_addresses-db env customer Data.addresses
              (record { db = db; addresses = store.addresses }) in
          same_stock store.db db _ (ap (λ (d : Db). d.inventory) same)
            (ap (λ (d : Db). d.orders) same) (ap (λ (d : Db). d.stock_reservations) same) k
      go (err e, db) k = Keeps-refl store.db h
