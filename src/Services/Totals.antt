-- ===== src/Services/Totals.antt =====
-- The total of an order: `create_in_transaction` of app/services/order_creation.py.
use canals_assessment.Prelude.{
  ℕ, String, ◌≡◌, refl, ap, ◌∙◌, sym, Bool-cases, some, List, ◌++◌, length, inl, inr, ltb, map,
  ◌==◌, head?, distinct,
}
use canals_assessment.Domain.Enums.{OrderStatus}
use canals_assessment.Domain.Values.{RequestedItem, PostalAddress, Point}
use canals_assessment.Domain.Errors.{Exception, DomainError}
use canals_assessment.Sql.{exists_row}
use canals_assessment.Db.Rows.{Db, Order, Product}
use canals_assessment.Db.Tx.{
  Result, ok, err, Tx, Env, Ends, Ends-bind, pure, lift, or_raise, raise_if, ◌>>=◌, ◌>>◌,
}
use canals_assessment.Db.Frame.{Frames, frame_rules}
use canals_assessment.Repositories.Orders.{
  create, insert_history, add_items, transition, get_by_ids,
}
use canals_assessment.Repositories.Reservation.{reserve_stock}
use canals_assessment.Repositories.Reservation.Frames.{reserve_stock-apart}
use canals_assessment.Repositories.Warehouses.{product_ids}
use canals_assessment.Services.Frames.{select-reads}
use canals_assessment.Services.Selection.{Geocoder, select}
use canals_assessment.Services.Creation.{distinct_texts, order_total, create_in_transaction}
use canals_assessment.Services.Lines.{lines, lines-IsApart, transition-lines, Adds, items_added}

-- After code that leaves the lines alone.
after_frame :
    {A B : Type 0} (Q : B → Db → Type 0) (m : Tx A) (f : A → Tx B) (db : Db)
    → Frames lines m
    → ((a : A) (mid : Db) → mid.order_items ≡ db.order_items → Ends Q (λ e. Unit {0}) (f a mid))
    → Ends Q (λ e. Unit {0}) ((m >>= f) db)
after_frame {A} Q m f db h k =
    Ends-bind (λ a mid. mid.order_items ≡ db.order_items) Q (λ e. Unit) m f db
      (Ends-view (m db) (h.at db)) k
  where
    Ends-view :
        (r : Result A × Db)
        → r.1.order_items ≡ db.order_items
        → Ends (λ a mid. mid.order_items ≡ db.order_items) (λ e. Unit {0}) r
    Ends-view (ok a, new) e = e
    Ends-view (err x, new) e = tt

module _ (order : ℕ) (items : List RequestedItem) (total : ℕ) where
  Adds-between :
      (old mid mid' new : Db)
      → mid.order_items ≡ old.order_items
      → new.order_items ≡ mid'.order_items
      → Adds order items total mid mid'
      → Adds order items total old new
  Adds-between old mid mid' new before after a = record {
    added = a.added;
    written = after ∙ a.written ∙ ap (λ l. l ++ a.added) before;
    of_order = a.of_order;
    demanded = a.demanded;
    priced = a.priced;
  }

create-total :
    (env : Env) (customer w : ℕ) (address : PostalAddress) (point : Point) (currency : String)
    (total : ℕ) (db : Db)
    → Ends
        (λ o new. (o.total_minor ≡ total) × (new.order_items ≡ db.order_items))
        (λ e. Unit)
        (create env customer w address point currency total db)
unfolding create insert_history
create-total env customer w address point currency total db =
    elim (Bool-cases (exists_row (λ c. c.id == customer) db.customers)) [
      | inl known ↦ rw known (refl, refl)
      | inr unknown ↦ rw unknown tt
    ]

module _ (env : Env) (items : List RequestedItem) (products : List Product) where
  -- From the lines on.
  finished :
      (o : Order) (w : ℕ) (old db : Db)
      → db.order_items ≡ old.order_items
      → order_total products items ≡ ok o.total_minor
      → Ends
          (λ p new. Adds p.id items p.total_minor old new)
          (λ e. Unit)
          ((do
            add_items env o.id products items
            reserve_stock env o.id w items
            transition env o.id OrderStatus.pending OrderStatus.reserved (some "stock reserved")
            pure o)
            db)
  finished o w old db same priced =
      Ends-bind (λ u mid. Adds o.id items o.total_minor db mid)
        (λ p new. Adds p.id items p.total_minor old new) (λ e. Unit)
        (add_items env o.id products items) _ db
        (items_added env o.id products items o.total_minor db priced)
        λ u mid adds.
          after_frame (λ p new. Adds p.id items p.total_minor old new)
            (reserve_stock env o.id w items) _ mid
            (reserve_stock-apart lines lines-IsApart env o.id w items)
            λ r d e.
              after_frame (λ p new. Adds p.id items p.total_minor old new)
                (transition env o.id OrderStatus.pending OrderStatus.reserved
                  (some "stock reserved"))
                _ d
                (transition-lines env o.id OrderStatus.pending OrderStatus.reserved
                  (some "stock reserved"))
                (λ v new f. Adds-between o.id items o.total_minor old db mid new same (f ∙ e) adds)

module _ (env : Env) (customer : ℕ) (address : PostalAddress) (items : List RequestedItem)
    (point : Point) where
  -- From the total on.
  created :
      (products : List Product) (currency : String) (w : ℕ) (old db : Db)
      → db.order_items ≡ old.order_items
      → Ends
          (λ p new. Adds p.id items p.total_minor old new)
          (λ e. Unit)
          ((do
            total_minor ← lift (order_total products items)
            order ← create env customer w address point currency total_minor
            add_items env order.id products items
            reserve_stock env order.id w items
            transition env order.id OrderStatus.pending OrderStatus.reserved (some "stock reserved")
            pure order)
            db)
  created products currency w old db same = totalled (order_total products items) refl
    where
      totalled :
          (t : Result ℕ)
          → order_total products items ≡ t
          → Ends
              (λ p new. Adds p.id items p.total_minor old new)
              (λ e. Unit)
              ((do
                total_minor ← lift t
                order ← create env customer w address point currency total_minor
                add_items env order.id products items
                reserve_stock env order.id w items
                transition env order.id OrderStatus.pending OrderStatus.reserved
                    (some "stock reserved")
                pure order)
                db)
      totalled (ok total) priced =
          Ends-bind (λ o new. (o.total_minor ≡ total) × (new.order_items ≡ db.order_items))
            (λ p new. Adds p.id items p.total_minor old new) (λ e. Unit)
            (create env customer w address point currency total) _ db
            (create-total env customer w address point currency total db)
            (λ o mid h.
              finished env items products o w old mid (h.1 ∙ same)
                (priced ∙ ap (λ n. ok n) (sym h.0)))
      totalled (err e) priced = tt

  lines_added :
      (geocode : Geocoder) (db : Db)
      → Ends
          (λ o new. Adds o.id items o.total_minor db new)
          (λ e. Unit)
          (create_in_transaction env geocode customer address items point db)
  unfolding create_in_transaction
  lines_added geocode db =
      after_frame (λ o new. Adds o.id items o.total_minor db new) (select env geocode address items)
        _ db (select-reads lines env geocode address items)
        λ candidate d e.
          let products = get_by_ids (distinct (product_ids items)) d in
          let currencies = distinct_texts (map (λ (p : Product). p.currency) products) in
          after_frame (λ o new. Adds o.id items o.total_minor db new)
            (raise_if (ltb 1 (length currencies))
              (Exception.domain (DomainError.mixed_currency_basket currencies)))
            _ d (search frame_rules)
            λ u d' e'.
              after_frame (λ o new. Adds o.id items o.total_minor db new)
                (or_raise (head? currencies) Exception.stop_iteration) _ d' (search frame_rules)
                (λ currency d'' e''. created products currency candidate.id db d'' (e'' ∙ e' ∙ e))

  -- If `create_in_transaction` returns an order, it has added to the order's lines one for each
  -- requested item, with the item's product and quantity and in the order of the request, and the
  -- generated `line_total_minor` of these lines sum up to the order's `total_minor`.
  pub create_in_transaction-Adds :
      (geocode : Geocoder) (db new : Db) (order : Order)
      → create_in_transaction env geocode customer address items point db ≡ (ok order, new)
      → Adds order.id items order.total_minor db new
  create_in_transaction-Adds geocode db new order h = rw h at (lines_added geocode db)
