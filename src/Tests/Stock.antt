-- ===== src/Tests/Stock.antt =====
-- The theorems on inventory and reservations, on the fixture.
use mathlib.Core.List.Permᴰ.{swap}
use canals_assessment.Prelude.{List, ◌+◌, ℕ, ◌≡◌, refl, ◌↔◌, true, [], ◌∷◌, map, arith, All}
use canals_assessment.Domain.Enums.{ReservationStatus}
use canals_assessment.Domain.Values.{IsPositive}
use canals_assessment.Sql.{select_rows}
use canals_assessment.Db.Rows.{Db}
use canals_assessment.Db.Tx.{Result, is_ok, Ends}
use canals_assessment.Repositories.Reservation.{
  lock_order, reserve_stock, release_reservation, settle_for_order, sweep_expired, is_swept,
  expired_ids, holds_for, released_item, insert_reservation, reserve_item, reserve_items,
  claim_stock,
}
use canals_assessment.Repositories.Reservation.Ledger.{reserved_at, on_hand_at, IsLedger}
use canals_assessment.Repositories.Reservation.Reserve.{Reserves}
use canals_assessment.Repositories.Reservation.Atomic.{
  Fits, reserve_stock-any_order, reserve_stock-Reserves, reserve_stock_iff,
}
use canals_assessment.Repositories.Reservation.Settle.{
  Settles, release_reservation-Settles, release_twice, sweep_expired-Settles,
  settle_for_order-IsLedger,
}
use canals_assessment.Repositories.Reservation.RoundTrip.{release-reserve_stock}
use canals_assessment.Jobs.Sweep.{main}
use canals_assessment.Jobs.Sweep.Drain.{Drains, main-Drains}
use canals_assessment.Domain.Values.{RequestedItem}
use canals_assessment.Tests.Fixture.{env, shop, seeded, basket}

pub shop-IsLedger : IsLedger seeded shop
shop-IsLedger = record {
  keyed = ground arith;
  bounded = ground arith;
  positive = tt;
  accounted = λ w p. ground arith;
}

pub basket-IsPositive : All IsPositive basket
basket-IsPositive = ground arith

basket-Fits : Fits 10 basket shop
basket-Fits p = ground arith

-- The shop after the basket is reserved for order 1, and the same shop 1000 seconds later.
abbrev holding : Db
holding = (reserve_stock env 1 10 basket shop).1

holding-IsLedger : IsLedger seeded holding
unfolding reserve_stock reserve_items lock_order reserve_item claim_stock insert_reservation
holding-IsLedger =
    (reserve_stock-Reserves env seeded 1 10 basket shop basket-IsPositive shop-IsLedger).ledger

holding_returned : is_ok (reserve_stock env 1 10 basket shop).0 ≡ true
unfolding reserve_stock reserve_items lock_order reserve_item claim_stock insert_reservation
holding_returned = refl

abbrev later : Db
later = record holding { now = 2000 }

later-IsLedger : IsLedger seeded later
later-IsLedger = record {
  keyed = holding-IsLedger.keyed;
  bounded = holding-IsLedger.bounded;
  positive = holding-IsLedger.positive;
  accounted = holding-IsLedger.accounted;
}

two_swept :
    map released_item (select_rows (is_swept (expired_ids 500 later)) later.stock_reservations)
    ≡ record { warehouse_id = 10; product_id = 1; quantity = 2 }
      ∷ record { warehouse_id = 10; product_id = 2; quantity = 3 }
      ∷ []
unfolding expired_ids reserve_stock reserve_items reserve_item claim_stock insert_reservation
    lock_order
two_swept = refl

abbrev basket_turned : List RequestedItem
basket_turned =
    record { product_id = 1; quantity = 2 } ∷ record { product_id = 2; quantity = 3 } ∷ []

reserve_stock-any_order_example :
    reserve_stock env 1 10 basket shop ≡ reserve_stock env 1 10 basket_turned shop
reserve_stock-any_order_example =
    reserve_stock-any_order env 1 10 basket basket_turned shop ground arith (swap refl refl)

reserve_stock_iff_example :
    (is_ok (reserve_stock env 1 10 basket shop).0 ≡ true) ↔ Fits 10 basket shop
reserve_stock_iff_example =
    reserve_stock_iff env seeded 1 10 basket shop basket-IsPositive ground arith (refl, (refl, tt))
      shop-IsLedger

reserve_stock-Reserves_example :
    Ends
      (λ r new. Reserves seeded 1 10 (lock_order basket 10) shop new)
      (λ e. Unit)
      (reserve_stock env 1 10 basket shop)
reserve_stock-Reserves_example =
    reserve_stock-Reserves env seeded 1 10 basket shop basket-IsPositive shop-IsLedger

release-reserve_stock_example :
    (is_ok (release_reservation 1 holding).0 ≡ true)
    × ((v p : ℕ)
        → reserved_at v p (release_reservation 1 holding).1.inventory
          ≡ reserved_at v p shop.inventory)
    × ((v p : ℕ)
        → on_hand_at v p (release_reservation 1 holding).1.inventory
          ≡ on_hand_at v p shop.inventory)
release-reserve_stock_example =
    release-reserve_stock env seeded 1 10 basket shop basket-IsPositive shop-IsLedger refl
      holding_returned

release_reservation-Settles_example :
    ((release_reservation 1 holding).0
      ≡ Result.ok (map released_item (select_rows (holds_for 1) holding.stock_reservations)))
    × Settles seeded
        (holds_for 1)
        ReservationStatus.released
        holding
        (release_reservation 1 holding).1
release_reservation-Settles_example = release_reservation-Settles seeded 1 holding holding-IsLedger

release_twice_example :
    release_reservation 1 (release_reservation 1 holding).1
    ≡ (Result.ok [], (release_reservation 1 holding).1)
release_twice_example = release_twice seeded 1 holding holding-IsLedger

sweep_expired-Settles_example :
    ((sweep_expired 500 later).0
      ≡ Result.ok (
          map released_item
            (select_rows (is_swept (expired_ids 500 later)) later.stock_reservations)))
    × Settles seeded
        (is_swept (expired_ids 500 later))
        ReservationStatus.expired
        later
        (sweep_expired 500 later).1
sweep_expired-Settles_example = sweep_expired-Settles seeded 500 later later-IsLedger

settle_for_order-IsLedger_example :
    ((settle_for_order 1 ReservationStatus.committed holding).0 ≡ Result.ok tt)
    × IsLedger seeded (settle_for_order 1 ReservationStatus.committed holding).1
    × ((settle_for_order 1 ReservationStatus.committed holding).1.inventory ≡ holding.inventory)
settle_for_order-IsLedger_example = settle_for_order-IsLedger seeded 1 holding holding-IsLedger

main-Drains_example : Drains seeded 0 later (main 3 (λ n. 2000 + n) later)
unfolding reserve_stock reserve_items lock_order reserve_item claim_stock insert_reservation
main-Drains_example = main-Drains seeded (λ n. 2000 + n) 3 later later-IsLedger ground arith
