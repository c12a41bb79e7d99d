-- ===== src/Services/Lines.antt =====
-- The lines of an order: `add_items` of app/repositories/order.py.
use canals_assessment.Prelude.{
  ℕ, String, ◌+◌, ◌*◌, ◌≡◌, refl, ap, ◌∙◌, sym, Bool-cases, Option, none, some, List, [], ◌∷◌, ◌++◌,
  All, sum_by, arith, inl, inr, Option-cases, All-append, sum_by-append, map,
}
use native.Mathlib.Nat.{mul_comm}
use mathlib.Core.List.{append-nil, append_assoc, map-append}
use canals_assessment.Domain.Enums.{OrderStatus}
use canals_assessment.Domain.Values.{RequestedItem}
use canals_assessment.Sql.{exists_row}
use canals_assessment.Db.Rows.{Db, OrderItem, Product, line_total_minor}
use canals_assessment.Db.Tx.{Result, ok, err, Env, Ends, Ends-bind, Ends-weaken, ◌>>=◌}
use canals_assessment.Db.Frame.{Frames, frame_rules}
use canals_assessment.Repositories.Orders.{
  insert_history, add_item, add_items, swap_status, record_move, transition, product_of, is_line,
}
use canals_assessment.Repositories.Reservation.Frames.{IsApart}
use canals_assessment.Services.Creation.{order_total, line_price, add_price}

abbrev pub lines : Db → List OrderItem
lines db = db.order_items

pub lines-IsApart : IsApart lines
lines-IsApart = record {
  inventory = λ db rows. refl;
  reservations = λ db rows. refl;
  drawn = λ db n. refl;
}

history-lines :
    (env : Env) (order : ℕ) (a : Option OrderStatus) (b : OrderStatus) (reason : Option String)
    → Frames lines (insert_history env order a b reason)
unfolding insert_history
history-lines env order a b reason = record { at = λ db. refl }

record_move-lines :
    (env : Env) (order : ℕ) (a b : OrderStatus) (reason : Option String) (moved : Option ℕ)
    → Frames lines (record_move env order a b reason moved)
unfolding record_move
record_move-lines env order a b reason none = search frame_rules
record_move-lines env order a b reason (some m) = history-lines env order (some a) b reason

swap_status-lines : (order : ℕ) (a b : OrderStatus) → Frames lines (swap_status order a b)
unfolding swap_status
swap_status-lines order a b = record { at = λ db. refl }

pub transition-lines :
    (env : Env) (order : ℕ) (a b : OrderStatus) (reason : Option String)
    → Frames lines (transition env order a b reason)
transition-lines env order a b reason =
    unfold transition in search (frame_rules, swap_status-lines, record_move-lines)

-- The item that a line is for.
abbrev pub item_of : OrderItem → RequestedItem
item_of l = record { product_id = l.product_id; quantity = l.quantity }

-- What `add_items` adds: a line of the order for each item, in the order of the request, at the
-- given price in total.
pub record Adds (order : ℕ) (items : List RequestedItem) (total : ℕ) (old new : Db) : Type 0 where
  pub added : List OrderItem
  pub written : new.order_items ≡ old.order_items ++ added
  pub of_order : All (λ l. l.order_id ≡ order) added
  pub demanded : map item_of added ≡ items
  pub priced : sum_by line_total_minor added ≡ total

-- A found product has the id that was looked for.
product_of-id :
    (id : ℕ) (products : List Product) (p : Product) → product_of id products ≡ some p → p.id ≡ id
unfolding product_of
product_of-id id [] p h = cc
product_of-id id (q ∷ qs) p h = ground (arith, product_of-id id qs p)

module _ (env : Env) (order : ℕ) (products : List Product) where
  item_added :
      (i : RequestedItem) (price : ℕ) (db : Db)
      → line_price products i ≡ ok price
      → Ends
          (λ u new. Adds order (i ∷ []) price db new)
          (λ e. Unit)
          (add_item env order products i db)
  unfolding add_item line_price
  item_added i price db h = elim (Option-cases (product_of i.product_id products)) [
    | inl missing ↦ rw missing tt
    | inr (p, found) ↦ elim (Bool-cases (exists_row (is_line order p.id) db.order_items)) [
      | inl clash ↦ rw (found, clash) tt
      | inr free ↦
          let price_of : Result.ok (p.unit_price_minor * i.quantity) ≡ ok price =
            rw (found, line_price) at h in
          rw (found, free)
            (record {
              added = _ ∷ [];
              written = refl;
              of_order = (refl, tt);
              demanded =
                  ap (λ n. record { product_id = n; quantity = i.quantity } ∷ [])
                    (product_of-id i.product_id products p found);
              priced = grind (arith, price_of, mul_comm i.quantity p.unit_price_minor);
            })
    ]
  ]

  Adds-more :
      (a b total : ℕ) (i : RequestedItem) (is : List RequestedItem) (old mid new : Db)
      → Adds order (i ∷ []) a old mid
      → Adds order is b mid new
      → a + b ≡ total
      → Adds order (i ∷ is) total old new
  Adds-more a b total i is old mid new one others e = record {
    added = one.added ++ others.added;
    written =
        others.written
        ∙ ap (λ l. l ++ others.added) one.written
        ∙ append_assoc old.order_items one.added others.added;
    of_order =
        All-append (λ l. l.order_id ≡ order) one.added others.added one.of_order others.of_order;
    demanded = map-append item_of one.added others.added ∙ rw (one.demanded, others.demanded) refl;
    priced = omega (
      arith,
      sum_by-append line_total_minor one.added others.added,
      one.priced,
      others.priced,
      e,
    );
  }

  pub items_added :
      (is : List RequestedItem) (total : ℕ) (db : Db)
      → order_total products is ≡ ok total
      → Ends (λ u new. Adds order is total db new) (λ e. Unit) (add_items env order products is db)
  unfolding add_items order_total
  items_added [] total db h = record {
    added = [];
    written = sym (append-nil db.order_items);
    of_order = tt;
    demanded = refl;
    priced = ground (arith, h);
  }
  items_added (i ∷ is) total db h =
      by_price (items_added is) (line_price products i) (order_total products is) refl refl h
    where
      by_price :
          ((n : ℕ) (d : Db)
            → order_total products is ≡ ok n
            → Ends (λ u new. Adds order is n d new) (λ e. Unit) (add_items env order products is d))
          → (a b : Result ℕ) → line_price products i ≡ a
          → order_total products is ≡ b
          → add_price a b ≡ ok total
          → Ends
              (λ u new. Adds order (i ∷ is) total db new)
              (λ e. Unit)
              ((add_item env order products i >>= λ u. add_items env order products is) db)
      by_price more (ok a) (ok b) first rest e =
          Ends-bind (λ u new. Adds order (i ∷ []) a db new)
            (λ u new. Adds order (i ∷ is) total db new) (λ x. Unit) (add_item env order products i)
            (λ u. add_items env order products is) db (item_added i a db first)
            (λ u mid one.
              Ends-weaken (λ v new. Adds order is b mid new)
                (λ v new. Adds order (i ∷ is) total db new) (λ x. Unit)
                (add_items env order products is mid)
                (λ v new others. Adds-more a b total i is db mid new one others (ground (arith, e)))
                (more b mid rest))
      by_price more (ok a) (err x) first rest e = cc
      by_price more (err x) b first rest e = cc
