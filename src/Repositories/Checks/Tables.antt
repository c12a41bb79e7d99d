-- ===== src/Repositories/Checks/Tables.antt =====
-- A write of one table of app/models, and the CHECK constraints.
use canals_assessment.Prelude.{◌≡◌, Bool, true, List, [], ◌∷◌, ◌++◌, All, All-append}
use canals_assessment.Db.Rows.{
  Db, Order, OrderItem, OrderStatusHistory, Payment, StockReservation, IdempotencyKey,
}
use canals_assessment.Db.Tx.{Env, draw, modify, Tx}
use canals_assessment.Db.Preserves.{Preserves}
use canals_assessment.Repositories.Checks.{
  IsChecked, is_located, is_line_ok, is_change, is_payment_ok, is_hold_ok, is_key_ok,
}

abbrev pub Keeps : {A : Type 0} → Tx A → Type 0
Keeps m = Preserves IsChecked m

-- Every write of one table.
pub orders-IsChecked :
    (f : Db → List Order)
    → ((db : Db) → IsChecked db → All (λ o. is_located o ≡ true) (f db))
    → Keeps (modify (λ db. record db { orders = f db }))
orders-IsChecked f h = record { at = λ db c. (h db c, c.1, c.2, c.3, c.4, c.5) }

pub order_items-IsChecked :
    (f : Db → List OrderItem)
    → ((db : Db) → IsChecked db → All (λ i. is_line_ok i ≡ true) (f db))
    → Keeps (modify (λ db. record db { order_items = f db }))
order_items-IsChecked f h = record { at = λ db c. (c.0, h db c, c.2, c.3, c.4, c.5) }

pub history-IsChecked :
    (f : Db → List OrderStatusHistory)
    → ((db : Db) → IsChecked db → All (λ h. is_change h ≡ true) (f db))
    → Keeps (modify (λ db. record db { order_status_history = f db }))
history-IsChecked f h = record { at = λ db c. (c.0, c.1, h db c, c.3, c.4, c.5) }

pub payments-IsChecked :
    (f : Db → List Payment)
    → ((db : Db) → IsChecked db → All (λ p. is_payment_ok p ≡ true) (f db))
    → Keeps (modify (λ db. record db { payments = f db }))
payments-IsChecked f h = record { at = λ db c. (c.0, c.1, c.2, h db c, c.4, c.5) }

pub reservations-IsChecked :
    (f : Db → List StockReservation)
    → ((db : Db) → IsChecked db → All (λ s. is_hold_ok s ≡ true) (f db))
    → Keeps (modify (λ db. record db { stock_reservations = f db }))
reservations-IsChecked f h = record { at = λ db c. (c.0, c.1, c.2, c.3, h db c, c.5) }

pub keys-IsChecked :
    (f : Db → List IdempotencyKey)
    → ((db : Db) → IsChecked db → All (λ k. is_key_ok k ≡ true) (f db))
    → Keeps (modify (λ db. record db { idempotency_keys = f db }))
keys-IsChecked f h = record { at = λ db c. (c.0, c.1, c.2, c.3, c.4, h db c) }

pub draw-IsChecked : (env : Env) → Keeps (draw env)
draw-IsChecked env = record { at = λ db c. c }

-- A row added at the end of its table.
module _ {A : Type 0} (test : A → Bool) where
  pub All-added :
      (rows : List A) (r : A)
      → All (λ x. test x ≡ true) rows
      → test r ≡ true
      → All (λ x. test x ≡ true) (rows ++ r ∷ [])
  All-added rows r h k = All-append (λ x. test x ≡ true) rows (r ∷ []) h (k, tt)
