-- ===== src/Domain/OrderState/Paths.antt =====
-- What the table of allowed edges makes of an order's life: app/domain/order_state.py.
use canals_assessment.Prelude.{
  ℕ, suc, ◌+◌, ◌≤◌, ◌<◌, ◌≡◌, refl, ap, ◌↔◌, Bool, true, false, ◌||◌, arith, [],
}
use canals_assessment.Domain.Enums.{OrderStatus, order_status_eq}
use canals_assessment.Domain.OrderState.{is_allowed, allowed_from, status_mem, terminal}

-- A chain of allowed edges from one status to another.
pub data Reaches : OrderStatus → OrderStatus → Type 0 where
  here : (a : OrderStatus) → Reaches a a
  edge : {b c : OrderStatus} (a : OrderStatus) → is_allowed a b ≡ true → Reaches b c → Reaches a c

-- The number of edges of a chain.
abbrev pub steps : {a b : OrderStatus} → Reaches a b → ℕ
steps (here a) = 0
steps (edge a h r) = suc (steps r)

-- Whether a chain stands at `s` at some point.
abbrev pub visits : OrderStatus → {a b : OrderStatus} → Reaches a b → Bool
visits s (here a) = order_status_eq s a
visits s (edge a h r) = order_status_eq s a || visits s r

-- How far along its life an order is.
abbrev rank : OrderStatus → ℕ
rank OrderStatus.pending = 0
rank OrderStatus.reserved = 1
rank OrderStatus.paid = 2
rank _ = 3

rank-lt : (a b : OrderStatus) → is_allowed a b ≡ true → rank a < rank b
unfolding is_allowed
rank-lt a b h = ground arith

rank_bound : (a : OrderStatus) → rank a ≤ 3
rank_bound OrderStatus.pending = omega arith
rank_bound _ = omega arith

rank-steps : {a b : OrderStatus} (r : Reaches a b) → rank a + steps r ≤ rank b
rank-steps (here a) = omega arith
rank-steps (edge {b = b} a h r) = omega (arith, rank-lt a b h, rank-steps r)

-- Any chain of allowed status changes has at most three edges, and one that returns to the status
-- it left has none: no order changes its status for ever, and none goes back.
pub chains_end : (a b : OrderStatus) (r : Reaches a b) → (steps r ≤ 3) × (a ≡ b → steps r ≡ 0)
chains_end a b r =
    (omega (arith, rank-steps r, rank_bound b), λ e. omega (arith, rank-steps r, ap rank e))

-- A status is in TERMINAL exactly when no allowed edge leaves it.
terminal_iff : (s : OrderStatus) → (status_mem s terminal ≡ true) ↔ (allowed_from s ≡ [])
unfolding allowed_from
terminal_iff s = ground arith

-- `allowed_from` lists exactly the statuses to which `is_allowed` admits a change.
allowed_from-is_allowed : (a b : OrderStatus) → status_mem b (allowed_from a) ≡ is_allowed a b
unfolding allowed_from is_allowed
allowed_from-is_allowed a b = ground arith

-- No chain leaves a terminal status.
terminal_stays : {a b : OrderStatus} (r : Reaches a b) → status_mem a terminal ≡ true → b ≡ a
unfolding is_allowed
terminal_stays (here a) h = refl
terminal_stays (edge {b = b} a e r) h = ground arith

paid_visited :
    {a b : OrderStatus} (r : Reaches a b)
    → b ≡ OrderStatus.confirmed
    → rank a ≤ 2
    → visits OrderStatus.paid r ≡ true
unfolding is_allowed
paid_visited (here a) e h = ground arith
paid_visited (edge {b = b} a k r) e h = ground (arith, paid_visited r e, terminal_stays r)

reserved_visited :
    {a b : OrderStatus} (r : Reaches a b)
    → b ≡ OrderStatus.confirmed
    → rank a ≤ 1
    → visits OrderStatus.reserved r ≡ true
unfolding is_allowed
reserved_visited (here a) e h = ground arith
reserved_visited (edge {b = b} a k r) e h = ground (arith, reserved_visited r e, terminal_stays r)

failed_avoided :
    {a b : OrderStatus} (r : Reaches a b)
    → b ≡ OrderStatus.confirmed
    → visits OrderStatus.payment_failed r ≡ false
unfolding is_allowed
failed_avoided (here a) e = ground arith
failed_avoided (edge {b = b} a k r) e = ground (arith, failed_avoided r e, terminal_stays r)

-- An order that is confirmed was reserved and paid before: every chain of allowed changes from
-- `pending` to `confirmed` stands at `reserved` and at `paid`, and never at `payment_failed`.
pub confirmed_was_paid :
    (r : Reaches OrderStatus.pending OrderStatus.confirmed)
    → (visits OrderStatus.reserved r ≡ true)
      × (visits OrderStatus.paid r ≡ true)
      × (visits OrderStatus.payment_failed r ≡ false)
confirmed_was_paid r = (
  reserved_visited r refl (omega arith),
  paid_visited r refl (omega arith),
  failed_avoided r refl,
)
