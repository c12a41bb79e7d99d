-- ===== src/Repositories/Checks/Orders.antt =====
-- app/repositories/order.py and payment.py, and the CHECK constraints.
use canals_assessment.Domain.Errors.{Exception}
use canals_assessment.Prelude.{
  ltb, Bool, ℕ, ◌==◌, ◌↔◌, String, ◌≡◌, refl, true, false, not, Option, List, [], ◌∷◌, All, arith,
  Bool-cases, inl, inr,
}
use canals_assessment.Domain.Enums.{OrderStatus, order_status_eq}
use canals_assessment.Domain.OrderState.{is_allowed}
use canals_assessment.Domain.Values.{RequestedItem, PostalAddress, Point, IsPositive}
use canals_assessment.Sql.{update_rows, exists_row}
use canals_assessment.Sql.Laws.{All-update_rows}
use canals_assessment.Db.Rows.{Db, Product}
use canals_assessment.Db.Tx.{gets, raise_if, Env, modify, Result, ok, err, Ends, is_ok}
use canals_assessment.Db.Preserves.{
  preserve_rules, Preserves-bind, Preserves-gets, Preserves-raise_if,
}
use canals_assessment.Repositories.Checks.{
  IsChecked, is_located, is_line_ok, is_change, is_payment_ok,
}
use canals_assessment.Repositories.Checks.Tables.{
  Keeps, order_items-IsChecked, payments-IsChecked, draw-IsChecked, All-added,
}
use canals_assessment.Repositories.Orders.{
  is_in_status, move_to, create, insert_history, add_item, add_items, transition, add_line,
}
use canals_assessment.Repositories.Orders.History.{transition_iff, moved_db, moved_history}
use canals_assessment.Repositories.Payments.{
  create_pending, success_conflicts, mark_succeeded, mark_unknown, succeed, annotate, fail,
  is_payment,
}
use canals_assessment.Repositories.Payments

pub create-IsChecked :
    (env : Env) (customer w : ℕ) (address : PostalAddress) (point : Point) (currency : String)
    (total : ℕ)
    → Keeps (create env customer w address point currency total)
unfolding create insert_history
create-IsChecked env customer w address point currency total = record {
  at = λ db c. elim (Bool-cases (exists_row (λ x. x.id == customer) db.customers)) [
    | inr unknown ↦ rw unknown tt
    | inl known ↦ rw known (
      All-added is_located db.orders _ c.0 refl,
      c.1,
      All-added is_change db.order_status_history _ c.2 refl,
      c.3,
      c.4,
      c.5,
    )
  ];
}

add_item-IsChecked :
    (env : Env) (order : ℕ) (products : List Product) (i : RequestedItem)
    → IsPositive i
    → Keeps (add_item env order products i)
unfolding add_item
add_item-IsChecked env order products i q = search (preserve_rules, draw-IsChecked, line) depth 14
  where
    line :
        (p : Product) (now id : ℕ)
        → Keeps (
            modify (
              add_line (record {
                id = id;
                order_id = order;
                product_id = p.id;
                product_sku = p.sku;
                product_name = p.name;
                unit_price_minor = p.unit_price_minor;
                currency = p.currency;
                quantity = i.quantity;
                created_at = now;
              })))
    line p now id =
        order_items-IsChecked _
          (λ db c. All-added is_line_ok db.order_items _ c.1 (ground (arith, q)))

pub add_items-IsChecked :
    (env : Env) (order : ℕ) (products : List Product) (is : List RequestedItem)
    → All IsPositive is
    → Keeps (add_items env order products is)
unfolding add_items
add_items-IsChecked env order products [] q = search preserve_rules
add_items-IsChecked env order products (i ∷ is) q =
    Preserves-bind IsChecked (add_item env order products i) _
      (add_item-IsChecked env order products i q.0)
      (λ done. add_items-IsChecked env order products is q.1)

-- No allowed change leaves the status as it is.
is_allowed-changes : (a b : OrderStatus) → is_allowed a b ≡ true → not (order_status_eq a b) ≡ true
unfolding is_allowed
is_allowed-changes a b h = ground arith

pub transition-IsChecked :
    (env : Env) (order : ℕ) (a b : OrderStatus) (reason : Option String)
    → Keeps (transition env order a b reason)
transition-IsChecked env order a b reason = record {
  at = λ db c.
      ended db c (transition env order a b reason db) (transition_iff env order a b reason db);
}
  where
    ended :
        (db : Db)
        → IsChecked db
        → (r : Result (Unit {0}) × Db)
        → ((is_ok r.0 ≡ true)
            ↔ ((is_allowed a b ≡ true) × (exists_row (is_in_status order a) db.orders ≡ true)))
          × (is_ok r.0 ≡ true → r.1 ≡ moved_db env order a b reason db)
          × (is_ok r.0 ≡ false → r.1 ≡ db)
        → Ends (λ u new. IsChecked new) (λ e. Unit {0}) r
    ended db c (err e, new) h = tt
    ended db c (ok u, new) h = rw (h.1 refl) (
      All-update_rows (is_in_status order a) (λ o. is_located o ≡ true) (move_to b db.now) db.orders
          (λ o t k. k) c.0,
      c.1,
      All-added is_change db.order_status_history (moved_history env order a b reason db) c.2
          (is_allowed-changes a b (h.0.0 refl).0),
      c.3,
      c.4,
      c.5,
    )

pub create_pending-IsChecked :
    (env : Env) (order amount : ℕ) (currency description : String)
    → Keeps (create_pending env order amount currency description)
unfolding create_pending
create_pending-IsChecked env order amount currency description = record {
  at = λ db c. elim (Bool-cases (ltb 0 amount)) [
    | inr free ↦ rw free tt
    | inl costly ↦ rw costly (
      c.0,
      c.1,
      c.2,
      All-added is_payment_ok db.payments _ c.3 (ground (arith, costly)),
      c.4,
      c.5,
    )
  ];
}

pub mark_succeeded-IsChecked :
    (payment : ℕ) (reference brand last4 : Option String)
    → Keeps (mark_succeeded payment reference brand last4)
unfolding mark_succeeded
mark_succeeded-IsChecked payment reference brand last4 =
    Preserves-bind IsChecked (gets clash) _ (Preserves-gets IsChecked clash) λ b.
      Preserves-bind IsChecked (raise_if b Exception.integrity_error) _
        (Preserves-raise_if IsChecked b Exception.integrity_error) (λ u. set_so)
  where
    clash : Db → Bool
    clash db = success_conflicts payment (succeed reference brand last4 db.now) db.payments

    set_so : Keeps (
        modify λ db. record db {
          payments =
              update_rows (is_payment payment) (succeed reference brand last4 db.now) db.payments;
        })
    set_so = payments-IsChecked _ (λ db c.
        All-update_rows (is_payment payment) (λ p. is_payment_ok p ≡ true)
          (succeed reference brand last4 db.now) db.payments (λ p t h. ground (arith, h)) c.3)

pub mark_unknown-IsChecked :
    (payment : ℕ) (reason : String) (brand last4 : Option String)
    → Keeps (mark_unknown payment reason brand last4)
unfolding mark_unknown
mark_unknown-IsChecked payment reason brand last4 = payments-IsChecked _ (λ db c.
    All-update_rows (is_payment payment) (λ p. is_payment_ok p ≡ true)
      (annotate reason brand last4 db.now) db.payments (λ p t h. ground (arith, h)) c.3)

pub payment_failed-IsChecked :
    (payment : ℕ) (reason : String) (brand last4 : Option String)
    → Keeps (Payments.mark_failed payment reason brand last4)
unfolding Payments.mark_failed
payment_failed-IsChecked payment reason brand last4 = payments-IsChecked _ (λ db c.
    All-update_rows (is_payment payment) (λ p. is_payment_ok p ≡ true)
      (fail reason brand last4 db.now) db.payments (λ p t h. ground (arith, h)) c.3)
