-- ===== src/Tests/Paths.antt =====
-- The theorems on the table of status changes, at a chain from the table.
use canals_assessment.Prelude.{◌≤◌, ◌≡◌, refl, true, false}
use canals_assessment.Domain.Enums.{OrderStatus}
use canals_assessment.Domain.OrderState.{is_allowed}
use canals_assessment.Domain.OrderState.Paths.{
  Reaches, here, edge, steps, visits, chains_end, confirmed_was_paid,
}

abbrev happy : Reaches OrderStatus.pending OrderStatus.confirmed
unfolding is_allowed
happy =
    edge OrderStatus.pending refl
      (edge OrderStatus.reserved refl (edge OrderStatus.paid refl (here OrderStatus.confirmed)))

chains_end_example :
    (steps happy ≤ 3) × (OrderStatus.pending ≡ OrderStatus.confirmed → steps happy ≡ 0)
chains_end_example = chains_end OrderStatus.pending OrderStatus.confirmed happy

confirmed_was_paid_example :
    (visits OrderStatus.reserved happy ≡ true)
    × (visits OrderStatus.paid happy ≡ true)
    × (visits OrderStatus.payment_failed happy ≡ false)
confirmed_was_paid_example = confirmed_was_paid happy
