-- ===== src/Tests/Warehouses.antt =====
-- The selection of a warehouse on the fixture.
use canals_assessment.Prelude.{◌≡◌, refl, ◌↔◌, true, arith}
use canals_assessment.Repositories.Warehouses.{eligible}
use canals_assessment.Repositories.Warehouses.Best.{Supplies, eligible_iff}
use canals_assessment.Tests.Fixture.{shop, basket}

eligible_iff_example :
    (eligible basket shop.inventory 10 ≡ true) ↔ Supplies basket shop.inventory 10
eligible_iff_example = eligible_iff basket shop.inventory 10 ground arith

basket_is_eligible : eligible basket shop.inventory 10 ≡ true
unfolding eligible
basket_is_eligible = refl
