-- ===== src/Domain/Enums.antt =====
-- app/domain/enums.py. Each `*_eq` is Python's `is` and SQL's `=` on that enum.
use canals_assessment.Prelude.{Bool, true, false, String}

pub data OrderStatus : Type 0 where
  pending reserved paid confirmed payment_failed cancelled : OrderStatus

pub data PaymentStatus : Type 0 where
  pending succeeded failed : PaymentStatus

pub data ReservationStatus : Type 0 where
  active committed released expired : ReservationStatus

pub data IdempotencyStatus : Type 0 where
  in_progress completed failed : IdempotencyStatus

-- `.value`
abbrev pub status_value : OrderStatus → String
status_value OrderStatus.pending = "pending"
status_value OrderStatus.reserved = "reserved"
status_value OrderStatus.paid = "paid"
status_value OrderStatus.confirmed = "confirmed"
status_value OrderStatus.payment_failed = "payment_failed"
status_value OrderStatus.cancelled = "cancelled"

abbrev pub order_status_eq : OrderStatus → OrderStatus → Bool
order_status_eq OrderStatus.pending OrderStatus.pending = true
order_status_eq OrderStatus.reserved OrderStatus.reserved = true
order_status_eq OrderStatus.paid OrderStatus.paid = true
order_status_eq OrderStatus.confirmed OrderStatus.confirmed = true
order_status_eq OrderStatus.payment_failed OrderStatus.payment_failed = true
order_status_eq OrderStatus.cancelled OrderStatus.cancelled = true
order_status_eq _ _ = false

abbrev pub payment_status_eq : PaymentStatus → PaymentStatus → Bool
payment_status_eq PaymentStatus.pending PaymentStatus.pending = true
payment_status_eq PaymentStatus.succeeded PaymentStatus.succeeded = true
payment_status_eq PaymentStatus.failed PaymentStatus.failed = true
payment_status_eq _ _ = false

abbrev pub is_active : ReservationStatus → Bool
is_active ReservationStatus.active = true
is_active _ = false

abbrev pub idempotency_status_eq : IdempotencyStatus → IdempotencyStatus → Bool
idempotency_status_eq IdempotencyStatus.in_progress IdempotencyStatus.in_progress = true
idempotency_status_eq IdempotencyStatus.completed IdempotencyStatus.completed = true
idempotency_status_eq IdempotencyStatus.failed IdempotencyStatus.failed = true
idempotency_status_eq _ _ = false
