-- ===== src/Domain/OrderState.antt =====
-- app/domain/order_state.py.
pub mod Paths
use canals_assessment.Prelude.{Bool, false, ◌&&◌, ◌||◌, List, [], ◌∷◌, if◌then◌else◌}
use canals_assessment.Domain.Enums.{OrderStatus, order_status_eq}

abbrev pub Edge : Type 0
Edge = OrderStatus × OrderStatus

abbrev pub allowed : List Edge
allowed =
    (OrderStatus.pending, OrderStatus.reserved)
    ∷ (OrderStatus.pending, OrderStatus.cancelled)
    ∷ (OrderStatus.reserved, OrderStatus.paid)
    ∷ (OrderStatus.reserved, OrderStatus.payment_failed)
    ∷ (OrderStatus.reserved, OrderStatus.cancelled)
    ∷ (OrderStatus.paid, OrderStatus.confirmed)
    ∷ []

abbrev pub terminal : List OrderStatus
terminal = OrderStatus.confirmed ∷ OrderStatus.payment_failed ∷ OrderStatus.cancelled ∷ []

abbrev pub edge_mem : OrderStatus → OrderStatus → List Edge → Bool
edge_mem a b [] = false
edge_mem a b ((x, y) ∷ es) = (order_status_eq a x && order_status_eq b y) || edge_mem a b es

unfoldable pub is_allowed : OrderStatus → OrderStatus → Bool
is_allowed from_status to_status = edge_mem from_status to_status allowed

-- The targets of the edges that leave `from_status`.
abbrev pub targets : OrderStatus → List Edge → List OrderStatus
targets a [] = []
targets a ((x, y) ∷ es) = let rest = targets a es in if order_status_eq x a then y ∷ rest else rest

unfoldable pub allowed_from : OrderStatus → List OrderStatus
allowed_from from_status = targets from_status allowed

-- `status in TERMINAL`, and `status in` any list.
abbrev pub status_mem : OrderStatus → List OrderStatus → Bool
status_mem s [] = false
status_mem s (x ∷ xs) = order_status_eq s x || status_mem s xs
