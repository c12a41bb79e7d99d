-- ===== src/Tests/Seeds.antt =====
-- A run of the seeds on a shop that has some of their rows, and a second one.
use canals_assessment.Prelude.{ℕ, String, ◌≡◌, refl, Option, none, some, List, [], ◌∷◌, map}
use canals_assessment.Db.Rows.{Inventory}
use canals_assessment.Db.Tx.{ok, begin}
use canals_assessment.Jobs.Sweep.{at_time}
use canals_assessment.Seeds.{
  Store, StockSeed, main, stock_values, seed_tables, seed_inventory, seed_customer, customer_or_new,
  seed_addresses,
}
use canals_assessment.Seeds.Upsert.{upsert_rows, AllApart}
use canals_assessment.Seeds.Data
use canals_assessment.Seeds.Rerun.{same_pair}
use canals_assessment.Seeds.Again.{main_again}
use canals_assessment.Seeds.Keeps.{Keeps, main-Keeps}
use canals_assessment.Tests.Fixture.{env, shop}

abbrev lower : String → String
lower s = s

-- The shop without its customer, where the first product has eight reserved units of twenty.
abbrev before : Store
before = record {
  db = record shop {
    customers = [];
    inventory =
        record {
          id = 20;
          warehouse_id = 10;
          product_id = 1;
          on_hand = 20;
          reserved = 8;
          updated_at = 0;
        }
        ∷ [];
  };
  addresses = [];
}

abbrev after : Store
after = (main env lower before).1

-- The row that the shop has is set to fifty units, and its reserved units are left alone.
reserved_kept :
    map {B = ℕ × ℕ} (λ (r : Inventory). (r.on_hand, r.reserved)) after.db.inventory
    ≡ (50, 8)
      ∷ (40, 0)
      ∷ (12, 0)
      ∷ (100, 0)
      ∷ (30, 0)
      ∷ (20, 0)
      ∷ (60, 0)
      ∷ (5, 0)
      ∷ (10, 0)
      ∷ (10, 0)
      ∷ (10, 0)
      ∷ (3, 0)
      ∷ (4, 0)
      ∷ (25, 0)
      ∷ []
unfolding main begin seed_tables seed_inventory seed_customer customer_or_new stock_values
    upsert_rows seed_addresses
reserved_kept = refl

abbrev or_empty : Option (List StockSeed) → List StockSeed
or_empty none = []
or_empty (some ss) = ss

abbrev values : List StockSeed
values = or_empty (stock_values Data.inventory after.db)

values-AllApart : AllApart same_pair values
unfolding main begin seed_tables seed_inventory seed_customer customer_or_new stock_values
    upsert_rows seed_addresses
values-AllApart = (
  (
    refl,
    (
      refl,
      (refl, (refl, (refl, (refl, (refl, (refl, (refl, (refl, (refl, (refl, (refl, tt))))))))))),
    ),
  ),
  (
    (
      refl,
      (refl, (refl, (refl, (refl, (refl, (refl, (refl, (refl, (refl, (refl, (refl, tt))))))))))),
    ),
    (
      (refl, (refl, (refl, (refl, (refl, (refl, (refl, (refl, (refl, (refl, (refl, tt))))))))))),
      (
        (refl, (refl, (refl, (refl, (refl, (refl, (refl, (refl, (refl, (refl, tt)))))))))),
        (
          (refl, (refl, (refl, (refl, (refl, (refl, (refl, (refl, (refl, tt))))))))),
          (
            (refl, (refl, (refl, (refl, (refl, (refl, (refl, (refl, tt)))))))),
            (
              (refl, (refl, (refl, (refl, (refl, (refl, (refl, tt))))))),
              (
                (refl, (refl, (refl, (refl, (refl, (refl, tt)))))),
                (
                  (refl, (refl, (refl, (refl, (refl, tt))))),
                  (
                    (refl, (refl, (refl, (refl, tt)))),
                    ((refl, (refl, (refl, tt))), ((refl, (refl, tt)), ((refl, tt), (tt, tt)))),
                  ),
                ),
              ),
            ),
          ),
        ),
      ),
    ),
  ),
)

main_again_example :
    main env lower (record after { db = at_time 2000 after.db })
    ≡ (ok tt, record after { db = at_time 2000 after.db })
unfolding main begin seed_tables seed_inventory seed_customer customer_or_new stock_values
    upsert_rows seed_addresses
main_again_example = main_again env lower before after values 2000 refl refl refl values-AllApart

main-Keeps_example : Keeps before.db after.db
main-Keeps_example = main-Keeps env lower before refl
