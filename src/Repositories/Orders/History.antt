-- ===== src/Repositories/Orders/History.antt =====
-- `transition` of app/repositories/order.py, the only writer of `orders.status`.
use canals_assessment.Prelude.{
  ℕ, String, ◌≡◌, refl, ◌↔◌, true, false, Option, some, [], ◌∷◌, ◌++◌, suc, Bool-cases, inl, inr,
}
use canals_assessment.Domain.Enums.{OrderStatus}
use canals_assessment.Domain.OrderState.{is_allowed}
use canals_assessment.Sql.{update_rows, select_rows, exists_row}
use canals_assessment.Sql.Laws.{List-cases, update_rows-none, exists_row-none, exists_row-found}
use canals_assessment.Db.Rows.{Db, OrderStatusHistory}
use canals_assessment.Db.Tx.{Env, is_ok}
use canals_assessment.Repositories.Orders.{
  transition, swap_status, record_move, insert_history, is_in_status, move_to,
}

module _ (env : Env) (order : ℕ) (a b : OrderStatus) (reason : Option String) (db : Db) where
  -- The row that a transition adds to the history.
  abbrev pub moved_history : OrderStatusHistory
  moved_history = record {
    id = env.gen_random_uuid db.drawn;
    order_id = order;
    from_status = some a;
    to_status = b;
    reason = reason;
    occurred_at = db.now;
  }

  abbrev pub moved_db : Db
  moved_db = record db {
    orders = update_rows (is_in_status order a) (move_to b db.now) db.orders;
    order_status_history = db.order_status_history ++ moved_history ∷ [];
    drawn = suc db.drawn;
  }

  -- `transition` returns exactly when the change is in the table of allowed ones and the order stands
  -- at `from_status`. If it returns it has moved that order, added the one row of history that says
  -- so, and changed nothing else; if it raises every table is as before.
  pub transition_iff :
      ((is_ok (transition env order a b reason db).0 ≡ true)
        ↔ ((is_allowed a b ≡ true) × (exists_row (is_in_status order a) db.orders ≡ true)))
      × (is_ok (transition env order a b reason db).0 ≡ true
          → (transition env order a b reason db).1 ≡ moved_db)
      × (is_ok (transition env order a b reason db).0 ≡ false
          → (transition env order a b reason db).1 ≡ db)
  unfolding transition swap_status record_move insert_history
  transition_iff = elim (Bool-cases (is_allowed a b)) [
    | inr refused ↦ rw refused ((λ e. cc, λ h. cc), λ e. cc, λ e. refl)
    | inl fine ↦ elim (List-cases (select_rows (is_in_status order a) db.orders)) [
      | inl lost ↦
          rw
            (
              fine,
              lost,
              exists_row-none (is_in_status order a) db.orders lost,
              update_rows-none (is_in_status order a) (move_to b db.now) db.orders lost,
            )
            ((λ e. cc, λ h. cc), λ e. cc, λ e. refl)
      | inr (x, rest, won) ↦
          rw (fine, won, exists_row-found (is_in_status order a) x rest db.orders won)
            ((λ e. (refl, refl), λ h. refl), λ e. refl, λ e. cc)
    ]
  ]
