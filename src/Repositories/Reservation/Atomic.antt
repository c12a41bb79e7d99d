-- ===== src/Repositories/Reservation/Atomic.antt =====
-- All or nothing: `reserve_stock` of app/repositories/reservation.py as a whole.
use canals_assessment.Prelude.{
  ℕ, ◌+◌, ◌≤◌, ◌≡◌, refl, sym, ap, ◌≢◌, ◌↔◌, true, false, List, [], ◌∷◌, arith, All,
}
use mathlib.Core.List.{Permᴰ}
use canals_assessment.Prelude.Permuted.{sort_by-perm}
use canals_assessment.Prelude.Sorting.{sum_by-sort_by, All-sort_by, Pairwise, Pairwise-sort_by}
use canals_assessment.Domain.Values.{RequestedItem, IsPositive}
use canals_assessment.Sql.{select_rows, exists_row}
use canals_assessment.Sql.Laws.{exists_row-append}
use canals_assessment.Db.Rows.{Db, Inventory}
use canals_assessment.Db.Tx.{Result, pure, ◌>>=◌, resume, Env, Ends, Ends-bind, is_ok, Ends-is_ok}
use canals_assessment.Repositories.Reservation.{
  can_supply, reserve_items, reserve_stock, reserves, lock_order, requested_leb,
}
use canals_assessment.Repositories.Reservation.Ledger.{reserved_at, on_hand_at, IsLedger}
use canals_assessment.Repositories.Reservation.Supply.{supply_iff}
use canals_assessment.Repositories.Reservation.Reserve.{
  wanted, wanted_at, Reserves, reserved_db, reserved_db-Reserves, reserve_items-Reserves,
  reserve_item-ok,
}

requested_leb_trans :
    (w : ℕ) (a b c : RequestedItem)
    → requested_leb w a b ≡ true
    → requested_leb w b c ≡ true
    → requested_leb w a c ≡ true
requested_leb_trans w a b c h k = ground arith

requested_leb_total :
    (w : ℕ) (a b : RequestedItem) → requested_leb w a b ≡ false → requested_leb w b a ≡ true
requested_leb_total w a b h = ground arith

requested_leb_apart :
    (w : ℕ) (a b : RequestedItem)
    → a.product_id ≢ b.product_id
    → requested_leb w a b ≡ true
    → requested_leb w b a ≡ false
requested_leb_apart w a b n h = ground (arith, h, n)

-- No product is asked for twice.
abbrev pub IsDistinct : List RequestedItem → Type 0
IsDistinct = Pairwise (λ i j. i.product_id ≢ j.product_id)

-- The order in which a request names its products does not matter: `reserve_stock` then issues the same
-- statements in the same order, so it returns or raises the same and leaves the same database. The
-- condition is that no product is asked for twice.
pub reserve_stock-any_order :
    (env : Env) (order w : ℕ) (items others : List RequestedItem) (db : Db)
    → IsDistinct items
    → Permᴰ items others
    → reserve_stock env order w items db ≡ reserve_stock env order w others db
unfolding reserve_stock lock_order
reserve_stock-any_order env order w items others db differ p =
    let same : lock_order items w ≡ lock_order others w =
      sort_by-perm (requested_leb w) (λ i j. i.product_id ≢ j.product_id) (λ i j n e. n (sym e))
        (requested_leb_trans w) (requested_leb_total w) (requested_leb_apart w) p differ in
    ap
      (λ locked.
        (reserve_items env order w (db.now + env.reservation_ttl_seconds) locked >>= λ reserved.
        pure (record { warehouse_id = w; items = reserved }))
          db)
      same

-- The order has no reservation at `w` of any of the products yet.
abbrev pub IsFresh : ℕ → ℕ → List RequestedItem → Db → Type 0
IsFresh order w items db =
    All (λ i. exists_row (reserves order w i.product_id) db.stock_reservations ≡ false) items

-- Of each product the warehouse has, on top of what is reserved, all that is asked for.
abbrev pub Fits : ℕ → List RequestedItem → Db → Type 0
Fits w items db =
    (p : ℕ) → reserved_at w p db.inventory + wanted_at w w p items ≤ on_hand_at w p db.inventory

reserved-le-on_hand :
    (w p : ℕ) (rs : List Inventory)
    → All (λ r. r.reserved ≤ r.on_hand) rs
    → reserved_at w p rs ≤ on_hand_at w p rs
reserved-le-on_hand w p [] h = omega arith
reserved-le-on_hand w p (r ∷ rs) h = ground (arith, reserved-le-on_hand w p rs h.1)

is_ok-map :
    {A B : Type 0} (f : A → B) (r : Result A × Db)
    → is_ok r.0 ≡ true
    → is_ok (resume r.0 (λ a. pure (f a)) r.1).0 ≡ true
is_ok-map f (Result.ok a, db) h = refl
is_ok-map f (Result.err e, db) h = h

-- What is still asked for fits once the first item is reserved.
Fits-tail :
    {base : ℕ → ℕ → ℕ} {order : ℕ} (w : ℕ) (i : RequestedItem) (is : List RequestedItem)
    (db new : Db)
    → Fits w (i ∷ is) db
    → Reserves base order w (i ∷ []) db new
    → Fits w is new
Fits-tail w i is db new h r p = omega (arith, h p, r.reserved w p, r.on_hand w p)

module _ (env : Env) (base : ℕ → ℕ → ℕ) (order w : ℕ) where
  IsFresh-reserved_db :
      (expires : ℕ) (i : RequestedItem) (is : List RequestedItem) (db : Db)
      → All (λ j. i.product_id ≢ j.product_id) is
      → IsFresh order w is db
      → IsFresh order w is (reserved_db env order w expires i db)
  IsFresh-reserved_db expires i [] db d f = tt
  IsFresh-reserved_db expires i (j ∷ is) db d f = (
    exists_row-append (reserves order w j.product_id) db.stock_reservations _ f.0
        (ground (arith, d.0)),
    IsFresh-reserved_db expires i is db d.1 f.1,
  )

  Fits-found :
      (i : RequestedItem) (is : List RequestedItem) (db : Db)
      → IsPositive i
      → IsLedger base db
      → Fits w (i ∷ is) db
      → select_rows (can_supply w i) db.inventory ≢ []
  Fits-found i is db q l h =
      (supply_iff w i db.inventory l.keyed q).1 (ground (arith, h i.product_id))

  reserve_items-is_ok :
      (expires : ℕ) (is : List RequestedItem) (db : Db)
      → All IsPositive is
      → IsDistinct is
      → IsFresh order w is db
      → IsLedger base db
      → Fits w is db
      → is_ok (reserve_items env order w expires is db).0 ≡ true
  unfolding reserve_items
  reserve_items-is_ok expires [] db q d f l h = refl
  reserve_items-is_ok expires (i ∷ is) db q d f l h =
      let found = Fits-found i is db q.0 l h in
      let next = reserved_db-Reserves env base order w expires i db q.0 l found in
      rw (reserve_item-ok env order w expires i db found f.0) (
        is_ok-map _ (reserve_items env order w expires is (reserved_db env order w expires i db)) (
          reserve_items-is_ok expires is (reserved_db env order w expires i db) q.1 d.1
            (IsFresh-reserved_db expires i is db d.0 f.1) next.ledger
            (Fits-tail w i is db (reserved_db env order w expires i db) h next)))

  -- From a database whose account holds, a returning `reserve_stock` has reserved every item in
  -- full and only those, and the account holds again.
  pub reserve_stock-Reserves :
      (items : List RequestedItem) (db : Db)
      → All IsPositive items
      → IsLedger base db
      → Ends
          (λ r new. Reserves base order w (lock_order items w) db new)
          (λ e. Unit)
          (reserve_stock env order w items db)
  unfolding reserve_stock lock_order
  reserve_stock-Reserves items db q l =
      Ends-bind (λ r new. Reserves base order w (lock_order items w) db new)
        (λ r new. Reserves base order w (lock_order items w) db new) (λ e. Unit)
        (reserve_items env order w (db.now + env.reservation_ttl_seconds) (lock_order items w)) _ db
        (reserve_items-Reserves env base order w (db.now + env.reservation_ttl_seconds)
          (lock_order items w) db (All-sort_by (requested_leb w) IsPositive items q) l)
        (λ r new h. h)

  Fits-Reserves :
      (items : List RequestedItem) (db new : Db)
      → Reserves base order w items db new
      → Fits w items db
  Fits-Reserves items db new r p =
      omega (
        arith,
        r.reserved w p,
        r.on_hand w p,
        reserved-le-on_hand w p new.inventory r.ledger.bounded,
      )

  -- In a database whose account holds, for a request of positive quantities that names no product twice, by an order that holds none
  -- of them yet, `reserve_stock` returns exactly when the warehouse has, on top of what is
  -- reserved, all that is asked for of every product; the order of the request does not matter.
  pub reserve_stock_iff :
      (items : List RequestedItem) (db : Db)
      → All IsPositive items
      → IsDistinct items
      → IsFresh order w items db
      → IsLedger base db
      → (is_ok (reserve_stock env order w items db).0 ≡ true) ↔ Fits w items db
  unfolding reserve_stock lock_order
  reserve_stock_iff items db q d f l = (
    λ returned.
        let done =
          Ends-is_ok (λ r new. Reserves base order w (lock_order items w) db new) (λ e. Unit)
            (reserve_stock env order w items db) (reserve_stock-Reserves items db q l) returned in
        λ p.
          rw (← sum_by-sort_by (requested_leb w) (wanted w w p) items)
            (Fits-Reserves (lock_order items w) db _ done.1 p),
    λ h.
        is_ok-map _
          (reserve_items env order w (db.now + env.reservation_ttl_seconds) (lock_order items w) db)
          (reserve_items-is_ok (db.now + env.reservation_ttl_seconds) (lock_order items w) db
            (All-sort_by (requested_leb w) IsPositive items q)
            (Pairwise-sort_by (requested_leb w) (λ i j. i.product_id ≢ j.product_id)
              (λ i j ne e. ne (sym e)) items d)
            (All-sort_by (requested_leb w)
              (λ i. exists_row (reserves order w i.product_id) db.stock_reservations ≡ false) items
              f)
            l (λ p. rw (sum_by-sort_by (requested_leb w) (wanted w w p) items) (h p))),
  )
