-- ===== src/Services/Selection.antt =====
-- app/services/warehouse_selection.py, and `to_point` of app/db/geo.py.
use canals_assessment.Prelude.{
  ℕ, not, Option, none, some, List, [], ◌∷◌, length, contains, distinct, if◌then◌else◌,
}
use canals_assessment.Domain.Values.{
  PostalAddress, Coordinates, Point, RequestedItem, WarehouseCandidate, within,
}
use canals_assessment.Domain.Errors.{Exception, DomainError}
use canals_assessment.Sql.{select_rows}
use canals_assessment.Db.Tx.{Result, ok, err, Tx, pure, raise, gets, lift, ◌>>=◌, ◌>>◌, Env}
use canals_assessment.Repositories.Orders.{existing_ids}
use canals_assessment.Repositories.Warehouses.{
  product_ids, select_best, count_products_stocked_anywhere,
}

-- The GeocodingProvider port: it may raise, and gives an address the same answer each time.
abbrev pub Geocoder : Type 0
Geocoder = PostalAddress → Result Coordinates

-- Longitude is tested first, and written first.
unfoldable pub to_point : Coordinates → Result Point
to_point c =
    if not (within 180000000 c.lon)
    then err Exception.value_error
    else if not (within 90000000 c.lat)
    then err Exception.value_error
    else ok (record { x = c.lon; y = c.lat })

-- `requested_ids - known`
abbrev pub missing : List ℕ → List ℕ → List ℕ
missing requested known = select_rows (λ i. not (contains i known)) requested

unfoldable pub require_known : List ℕ → Tx (Unit {0})
require_known [] = pure tt
require_known (i ∷ is) = raise (Exception.domain (DomainError.unknown_product (i ∷ is)))

-- The end of `select`, by what the query returned.
unfoldable pub require_candidate : List ℕ → Option WarehouseCandidate → Tx WarehouseCandidate
require_candidate requested_ids (some c) = pure c
require_candidate requested_ids none = do
  stocked ← count_products_stocked_anywhere requested_ids
  raise (Exception.domain (DomainError.no_eligible_warehouse (length requested_ids) stocked))

unfoldable pub select : Env → Geocoder → PostalAddress → List RequestedItem → Tx WarehouseCandidate
unfolding require_known require_candidate
select env geocode address [] = raise (Exception.domain (DomainError.no_eligible_warehouse 0 0))
select env geocode address (i ∷ is) = do
  let requested_ids = distinct (product_ids (i ∷ is))
  known ← gets (existing_ids requested_ids)
  require_known (missing requested_ids known)
  coordinates ← lift (geocode address)
  point ← lift (to_point coordinates)
  best ← select_best env point (i ∷ is)
  require_candidate requested_ids best
