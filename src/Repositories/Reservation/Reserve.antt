-- ===== src/Repositories/Reservation/Reserve.antt =====
-- `reserve_stock` of app/repositories/reservation.py: what it reserves, and when it can.
use mathlib.Core.List.{map-append, append_assoc, append-nil}
use canals_assessment.Prelude.{
  ℕ, suc, none, ap, ◌∙◌, ◌+◌, ◌≤◌, ◌<◌, ◌≡◌, refl, ◌≢◌, false, ◌&&◌, List, [], ◌∷◌, ◌++◌, map,
  arith, All, All-append, sum_by, sum_by-append, if◌then◌else◌, ◌==◌, Bool-cases, inl, inr,
}
use canals_assessment.Domain.Enums.{ReservationStatus}
use canals_assessment.Domain.Values.{RequestedItem, ReleasedItem, IsPositive}
use canals_assessment.Sql.{update_rows, select_rows, exists_row}
use canals_assessment.Sql.Laws.{
  All-update_rows, sum_by-update_rows_same, List-cases, select_rows-append,
}
use canals_assessment.Db.Rows.{Db, Inventory, StockReservation}
use canals_assessment.Db.Tx.{Result, Env, Ends, Ends-bind}
use canals_assessment.Repositories.Reservation.{
  stocks, can_supply, add_reserved, claim_stock, insert_reservation, reserve_item, reserve_items,
  reserves, holds_for, released_item,
}
use canals_assessment.Repositories.Reservation.Ledger.{
  reserved_at, on_hand_at, held, IsKeyed, IsLedger, sum_by-update_row, IsKeyed-update_rows,
}

-- The units of a pair that a request asks for at warehouse `w`.
abbrev pub wanted : ℕ → ℕ → ℕ → RequestedItem → ℕ
wanted w v p i = if (w == v) && (i.product_id == p) then i.quantity else 0

abbrev pub wanted_at : ℕ → ℕ → ℕ → List RequestedItem → ℕ
wanted_at w v p = sum_by (wanted w v p)

-- What an order's active reservations hold, row by row.
abbrev pub order_holds : ℕ → Db → List ReleasedItem
order_holds order db = map released_item (select_rows (holds_for order) db.stock_reservations)

-- The items as the order's reservations at `w`.
abbrev pub as_released : ℕ → List RequestedItem → List ReleasedItem
as_released w =
    map (λ i. record { warehouse_id = w; product_id = i.product_id; quantity = i.quantity })

-- What reserving `items` for `order` at `w` has done: the account holds, each pair's `reserved` has
-- grown by what was asked for, `on_hand` is as before, the order holds the items besides what it
-- held, and no other table has changed.
pub record Reserves (base : ℕ → ℕ → ℕ) (order w : ℕ) (items : List RequestedItem) (old new : Db)
    : Type 0 where
  pub ledger : IsLedger base new
  pub reserved :
      (v p : ℕ)
      → reserved_at v p new.inventory ≡ reserved_at v p old.inventory + wanted_at w v p items
  pub on_hand : (v p : ℕ) → on_hand_at v p new.inventory ≡ on_hand_at v p old.inventory
  pub holds : order_holds order new ≡ order_holds order old ++ as_released w items
  pub elsewhere : new ≡ record old {
    inventory = new.inventory;
    stock_reservations = new.stock_reservations;
    drawn = new.drawn;
  }

module _ (w : ℕ) (i : RequestedItem) (now : ℕ) where
  reserved-claim :
      (v p : ℕ) (rs : List Inventory)
      → IsKeyed rs
      → select_rows (can_supply w i) rs ≢ []
      → reserved_at v p (update_rows (can_supply w i) (add_reserved i.quantity now) rs)
        ≡ reserved_at v p rs + wanted w v p i
  reserved-claim v p rs u h = omega (
    arith,
    sum_by-update_row w i.product_id (can_supply w i) (add_reserved i.quantity now)
        (λ r t. ground arith) (λ r. refl) (λ r. refl) (λ r. if stocks v p r then r.reserved else 0)
        0 (wanted w v p i) rs (λ r t. ground arith) u h,
  )

  on_hand-claim :
      (v p : ℕ) (rs : List Inventory)
      → on_hand_at v p (update_rows (can_supply w i) (add_reserved i.quantity now) rs)
        ≡ on_hand_at v p rs
  on_hand-claim v p rs =
      sum_by-update_rows_same (can_supply w i) (λ r. if stocks v p r then r.on_hand else 0)
        (add_reserved i.quantity now) rs (λ r t. refl)

  IsKeyed-claim :
      (rs : List Inventory)
      → IsKeyed rs
      → IsKeyed (update_rows (can_supply w i) (add_reserved i.quantity now) rs)
  IsKeyed-claim =
      IsKeyed-update_rows w i.product_id (can_supply w i) (add_reserved i.quantity now)
        (λ r t. ground arith) (λ r. refl) (λ r. refl)

  bounded-claim :
      (rs : List Inventory)
      → All (λ r. r.reserved ≤ r.on_hand) rs
      → All
          (λ r. r.reserved ≤ r.on_hand)
          (update_rows (can_supply w i) (add_reserved i.quantity now) rs)
  bounded-claim rs =
      All-update_rows (can_supply w i) (λ r. r.reserved ≤ r.on_hand) (add_reserved i.quantity now)
        rs (λ r t h. ground arith)

module _ (env : Env) (order w expires : ℕ) where
  -- The row that one round of the loop adds.
  abbrev pub new_row : RequestedItem → Db → StockReservation
  new_row i db = record {
    id = env.gen_random_uuid db.drawn;
    order_id = order;
    warehouse_id = w;
    product_id = i.product_id;
    quantity = i.quantity;
    status = ReservationStatus.active;
    expires_at = expires;
    released_at = none;
    created_at = db.now;
  }

  -- The database after one round of the loop.
  abbrev pub reserved_db : RequestedItem → Db → Db
  reserved_db i db = record db {
    inventory = update_rows (can_supply w i) (add_reserved i.quantity db.now) db.inventory;
    stock_reservations = db.stock_reservations ++ new_row i db ∷ [];
    drawn = suc db.drawn;
  }

  held-new_row : (i : RequestedItem) (db : Db) (v p : ℕ) → held v p (new_row i db) ≡ wanted w v p i
  held-new_row i db v p = ground arith

  new_row_selected :
      (i : RequestedItem) (db : Db)
      → select_rows (holds_for order) (new_row i db ∷ []) ≡ new_row i db ∷ []
  new_row_selected i db = ground arith

  order_holds-new_row :
      (i : RequestedItem) (db : Db)
      → order_holds order (reserved_db i db) ≡ order_holds order db ++ as_released w (i ∷ [])
  order_holds-new_row i db = rw (
    select_rows-append (holds_for order) db.stock_reservations (new_row i db ∷ []),
    new_row_selected i db,
    map-append,
  )

  -- A round whose UPDATE finds a row, for a product that the order has not reserved, succeeds.
  pub reserve_item-ok :
      (i : RequestedItem) (db : Db)
      → select_rows (can_supply w i) db.inventory ≢ []
      → exists_row (reserves order w i.product_id) db.stock_reservations ≡ false
      → reserve_item env order w expires i db ≡ (
        Result.ok (record { product_id = i.product_id; quantity = i.quantity }),
        reserved_db i db,
      )
  unfolding reserve_item claim_stock insert_reservation
  reserve_item-ok i db h fresh = elim (List-cases (select_rows (can_supply w i) db.inventory)) [
    | inl none_left ↦ absurd (h none_left)
    | inr (r, rest, found) ↦ rw (found, fresh)
  ]

module _ (env : Env) (base : ℕ → ℕ → ℕ) (order w expires : ℕ) where
  reserved_db-IsLedger :
      (i : RequestedItem) (db : Db)
      → IsPositive i
      → IsLedger base db
      → select_rows (can_supply w i) db.inventory ≢ []
      → IsLedger base (reserved_db env order w expires i db)
  reserved_db-IsLedger i db q l h = record {
    keyed = IsKeyed-claim w i db.now db.inventory l.keyed;
    bounded = bounded-claim w i db.now db.inventory l.bounded;
    positive = All-append (λ s. 0 < s.quantity) db.stock_reservations _ l.positive (q, tt);
    accounted = λ v p. omega (
      arith,
      reserved-claim w i db.now v p db.inventory l.keyed h,
      l.accounted v p,
      sum_by-append (held v p) db.stock_reservations (new_row env order w expires i db ∷ []),
      held-new_row env order w expires i db v p,
    );
  }

  pub reserved_db-Reserves :
      (i : RequestedItem) (db : Db)
      → IsPositive i
      → IsLedger base db
      → select_rows (can_supply w i) db.inventory ≢ []
      → Reserves base order w (i ∷ []) db (reserved_db env order w expires i db)
  reserved_db-Reserves i db q l h = record {
    ledger = reserved_db-IsLedger i db q l h;
    reserved = λ v p. omega (arith, reserved-claim w i db.now v p db.inventory l.keyed h);
    on_hand = λ v p. on_hand-claim w i db.now v p db.inventory;
    holds = order_holds-new_row env order w expires i db;
    elsewhere = refl;
  }

  reserve_item-Reserves :
      (i : RequestedItem) (db : Db)
      → IsPositive i
      → IsLedger base db
      → Ends
          (λ r new. Reserves base order w (i ∷ []) db new)
          (λ e. Unit)
          (reserve_item env order w expires i db)
  unfolding reserve_item claim_stock insert_reservation
  reserve_item-Reserves i db q l = elim (List-cases (select_rows (can_supply w i) db.inventory)) [
    | inl none_left ↦ rw none_left tt
    | inr (r, rest, found) ↦
        elim (Bool-cases (exists_row (reserves order w i.product_id) db.stock_reservations)) [
          | inl clash ↦ rw (found, clash) tt
          | inr fresh ↦ rw (found, fresh) (reserved_db-Reserves i db q l (λ e. cc))
        ]
  ]

  pub Reserves-trans :
      (i : RequestedItem) (is : List RequestedItem) (a b c : Db)
      → Reserves base order w (i ∷ []) a b
      → Reserves base order w is b c
      → Reserves base order w (i ∷ is) a c
  Reserves-trans i is a b c h k = record {
    ledger = k.ledger;
    reserved = λ v p. omega (arith, h.reserved v p, k.reserved v p);
    on_hand = λ v p. k.on_hand v p ∙ h.on_hand v p;
    holds =
        k.holds
        ∙ rw h.holds
            (append_assoc (order_holds order a) (as_released w (i ∷ [])) (as_released w is));
    elsewhere =
        k.elsewhere
        ∙ ap
            (λ (d : Db). record d {
              inventory = c.inventory;
              stock_reservations = c.stock_reservations;
              drawn = c.drawn;
            })
            h.elsewhere;
  }

  pub reserve_items-Reserves :
      (is : List RequestedItem) (db : Db)
      → All IsPositive is
      → IsLedger base db
      → Ends
          (λ r new. Reserves base order w is db new)
          (λ e. Unit)
          (reserve_items env order w expires is db)
  unfolding reserve_items
  reserve_items-Reserves [] db q l = record {
    ledger = l;
    reserved = λ v p. omega arith;
    on_hand = λ v p. refl;
    holds = rw append-nil;
    elsewhere = refl;
  }
  reserve_items-Reserves (i ∷ is) db q l =
      Ends-bind (λ r new. Reserves base order w (i ∷ []) db new)
        (λ r new. Reserves base order w (i ∷ is) db new) (λ e. Unit)
        (reserve_item env order w expires i) _ db (reserve_item-Reserves i db q.0 l)
        λ r mid h.
          Ends-bind (λ rs new. Reserves base order w is mid new)
            (λ rs new. Reserves base order w (i ∷ is) db new) (λ e. Unit)
            (reserve_items env order w expires is) _ mid
            (reserve_items-Reserves is mid q.1 h.ledger)
            (λ rs new k. Reserves-trans i is db mid new h k)
