-- ===== src/Repositories/Reservation/GiveBack.antt =====
-- The loop of `_settle` in app/repositories/reservation.py, which hands quantities back to inventory.
use canals_assessment.Prelude.{
  ℕ, ◌+◌, ◌≤◌, ◌<◌, ◌≡◌, refl, ◌∙◌, ◌≢◌, true, false, ◌&&◌, List, [], ◌∷◌, arith, All, sum_by,
  if◌then◌else◌, ◌==◌, Bool-cases, inl, inr,
}
use canals_assessment.Domain.Values.{ReleasedItem}
use canals_assessment.Sql.{update_rows, select_rows}
use canals_assessment.Sql.Laws.{All-update_rows, sum_by-update_rows_same, List-cases}
use canals_assessment.Db.Rows.{Db, Inventory}
use canals_assessment.Db.Tx.{Result}
use canals_assessment.Repositories.Reservation.{
  stocks, can_return, sub_reserved, return_stock, give_back,
}
use canals_assessment.Repositories.Reservation.Ledger.{
  reserved_at, on_hand_at, held_at, IsKeyed, IsLedger, sum_by-update_row, IsKeyed-update_rows,
}
use canals_assessment.Repositories.Reservation.Supply.{sum_absent}

-- The units of a pair among released items.
abbrev pub owed : ℕ → ℕ → ReleasedItem → ℕ
owed v p i = if (i.warehouse_id == v) && (i.product_id == p) then i.quantity else 0

abbrev pub owed_at : ℕ → ℕ → List ReleasedItem → ℕ
owed_at v p = sum_by (owed v p)

abbrev pub IsReturnable : ReleasedItem → Type 0
IsReturnable i = 0 < i.quantity

owed_self : (i : ReleasedItem) → owed i.warehouse_id i.product_id i ≡ i.quantity
owed_self i = ground arith

-- The account while `items`, which no reservation holds any more, are still to be handed back.
pub record IsOwing (base : ℕ → ℕ → ℕ) (items : List ReleasedItem) (db : Db) : Type 0 where
  pub keyed : IsKeyed db.inventory
  pub bounded : All (λ r. r.reserved ≤ r.on_hand) db.inventory
  pub positive : All (λ s. 0 < s.quantity) db.stock_reservations
  pub accounted :
      (w p : ℕ)
      → reserved_at w p db.inventory
        ≡ base w p + held_at w p db.stock_reservations + owed_at w p items

-- What handing `items` back has done.
pub record GivesBack (base : ℕ → ℕ → ℕ) (items : List ReleasedItem) (old new : Db) : Type 0 where
  pub ledger : IsLedger base new
  pub reserved :
      (v p : ℕ) → reserved_at v p new.inventory + owed_at v p items ≡ reserved_at v p old.inventory
  pub on_hand : (v p : ℕ) → on_hand_at v p new.inventory ≡ on_hand_at v p old.inventory
  pub elsewhere : new ≡ record old { inventory = new.inventory }

module _ (i : ReleasedItem) where
  abbrev returned_db : Db → Db
  returned_db db = record db {
    inventory = update_rows (can_return i) (sub_reserved i.quantity db.now) db.inventory;
  }

  others_differ :
      (r : Inventory) (rs : List Inventory)
      → stocks i.warehouse_id i.product_id r ≡ true
      → All (λ s. stocks r.warehouse_id r.product_id s ≡ false) rs
      → All (λ s. stocks i.warehouse_id i.product_id s ≡ false) rs
  others_differ r [] t h = tt
  others_differ r (s ∷ rs) t h = (ground arith, others_differ r rs t h.1)

  -- A pair whose `reserved` covers a positive quantity has a row that the UPDATE finds.
  return_found :
      (rs : List Inventory)
      → IsKeyed rs
      → IsReturnable i
      → i.quantity ≤ reserved_at i.warehouse_id i.product_id rs
      → select_rows (can_return i) rs ≢ []
  return_found [] u q h = absurd (omega arith)
  return_found (r ∷ rs) u q h = elim (Bool-cases (stocks i.warehouse_id i.product_id r)) [
    | inl t ↦ ground (
      arith,
      sum_absent (λ r. r.reserved) i.warehouse_id i.product_id rs (others_differ r rs t u.0),
    )
    | inr f ↦ let k = rw f at h in rw f (return_found rs u.1 q (omega arith))
  ]

  give_back-cons :
      (is : List ReleasedItem) (db : Db)
      → select_rows (can_return i) db.inventory ≢ []
      → give_back (i ∷ is) db ≡ give_back is (returned_db db)
  unfolding give_back return_stock
  give_back-cons is db h = elim (List-cases (select_rows (can_return i) db.inventory)) [
    | inl none_left ↦ absurd (h none_left)
    | inr (r, rest, found) ↦ rw found
  ]

  reserved-returned :
      (v p : ℕ) (db : Db)
      → IsKeyed db.inventory
      → select_rows (can_return i) db.inventory ≢ []
      → reserved_at v p (returned_db db).inventory + owed v p i ≡ reserved_at v p db.inventory
  reserved-returned v p db u h = omega (
    arith,
    sum_by-update_row i.warehouse_id i.product_id (can_return i) (sub_reserved i.quantity db.now)
        (λ r t. ground arith) (λ r. refl) (λ r. refl) (λ r. if stocks v p r then r.reserved else 0)
        (owed v p i) 0 db.inventory (λ r t. ground arith) u h,
  )

  on_hand-returned :
      (v p : ℕ) (db : Db) → on_hand_at v p (returned_db db).inventory ≡ on_hand_at v p db.inventory
  on_hand-returned v p db =
      sum_by-update_rows_same (can_return i) (λ r. if stocks v p r then r.on_hand else 0)
        (sub_reserved i.quantity db.now) db.inventory (λ r t. refl)

  returned_db-IsOwing :
      (base : ℕ → ℕ → ℕ) (is : List ReleasedItem) (db : Db)
      → IsOwing base (i ∷ is) db
      → select_rows (can_return i) db.inventory ≢ []
      → IsOwing base is (returned_db db)
  returned_db-IsOwing base is db o h = record {
    keyed =
        IsKeyed-update_rows i.warehouse_id i.product_id (can_return i)
          (sub_reserved i.quantity db.now) (λ r t. ground arith) (λ r. refl) (λ r. refl)
          db.inventory o.keyed;
    bounded =
        All-update_rows (can_return i) (λ r. r.reserved ≤ r.on_hand)
          (sub_reserved i.quantity db.now) db.inventory (λ r t k. omega arith) o.bounded;
    positive = o.positive;
    accounted = λ v p. omega (arith, reserved-returned v p db o.keyed h, o.accounted v p);
  }

module _ (base : ℕ → ℕ → ℕ) where
  -- While the account covers what is owed the loop never raises, and it settles the account.
  pub give_back-GivesBack :
      (items : List ReleasedItem) (db : Db)
      → All IsReturnable items
      → IsOwing base items db
      → ((give_back items db).0 ≡ Result.ok tt) × GivesBack base items db (give_back items db).1
  unfolding give_back
  give_back-GivesBack [] db q o = (
    refl,
    record {
      ledger = record {
        keyed = o.keyed;
        bounded = o.bounded;
        positive = o.positive;
        accounted = λ v p. omega (arith, o.accounted v p);
      };
      reserved = λ v p. omega arith;
      on_hand = λ v p. refl;
      elsewhere = refl;
    },
  )
  give_back-GivesBack (i ∷ is) db q o =
      let found =
        return_found i db.inventory o.keyed q.0
          (omega (arith, o.accounted i.warehouse_id i.product_id, owed_self i)) in
      let ih =
        give_back-GivesBack is (returned_db i db) q.1 (returned_db-IsOwing i base is db o found) in
      rw (give_back-cons i is db found) (
        ih.0,
        record {
          ledger = ih.1.ledger;
          reserved =
              λ v p. omega (arith, ih.1.reserved v p, reserved-returned i v p db o.keyed found);
          on_hand = λ v p. ih.1.on_hand v p ∙ on_hand-returned i v p db;
          elsewhere = ih.1.elsewhere;
        },
      )
