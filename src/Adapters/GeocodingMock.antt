-- ===== src/Adapters/GeocodingMock.antt =====
-- app/adapters/geocoding_mock.py and `normalized_key` of app/domain/address.py. Python's methods on
-- texts and SHA-256 are parameters; a coordinate is a whole number of microdegrees, and `_derive` is
-- computed exactly, where Python's floats may err in the last of their sixteen digits before `round`.
pub mod Bounds
use Prim.Native.Nat.{◌/◌, ◌%◌}
use Prim.Native.String.{◌++◌ as str_append}
use canals_assessment.Prelude.{
  ℕ, zero, suc, ◌+◌, ◌-◌, ◌*◌, ltb, ◌<◌, ◌≤◌, ◌≡◌, String, Bool, true, false, ◌&&◌, Option, none,
  some, List, [], ◌∷◌, All, take, map, head?, str_eq, leb, if◌then◌else◌,
}
use canals_assessment.Domain.Values.{PostalAddress, Coordinates, ℤ, in_range}
use canals_assessment.Domain.Errors.{Exception, DomainError}
use canals_assessment.Sql.{select_rows}
use canals_assessment.Db.Tx.{Result, ok, err}

-- `str.strip`, `str.casefold` and `str.upper`, the substitution of `_WHITESPACE` by one space, and the
-- bytes of the SHA-256 digest of a text in UTF-8.
pub record Python : Type 0 where
  pub strip : String → String
  pub casefold : String → String
  pub upper : String → String
  pub single_spaced : String → String
  pub sha256 : String → List ℕ

abbrev pub leb_z : ℤ → ℤ → Bool
leb_z (ℤ.pos a) (ℤ.pos b) = leb a b
leb_z (ℤ.pos a) (ℤ.negsuc b) = false
leb_z (ℤ.negsuc a) (ℤ.pos b) = true
leb_z (ℤ.negsuc a) (ℤ.negsuc b) = leb b a

-- What Python documents: the digest consists of bytes.
pub record IsPython (py : Python) : Type 0 where
  pub bytes : (s : String) → All (λ b. b < 256) (py.sha256 s)

abbrev pub madrid : Coordinates
madrid = record { lat = ℤ.pos 40416800; lon = ℤ.negsuc 3703799 }

abbrev pub barcelona : Coordinates
barcelona = record { lat = ℤ.pos 41385100; lon = ℤ.pos 2173400 }

abbrev pub valencia : Coordinates
valencia = record { lat = ℤ.pos 39469900; lon = ℤ.negsuc 376299 }

abbrev pub seville : Coordinates
seville = record { lat = ℤ.pos 37389100; lon = ℤ.negsuc 5984499 }

abbrev pub bilbao : Coordinates
bilbao = record { lat = ℤ.pos 43263000; lon = ℤ.negsuc 2934999 }

abbrev pub zaragoza : Coordinates
zaragoza = record { lat = ℤ.pos 41648800; lon = ℤ.negsuc 889099 }

abbrev pub malaga : Coordinates
malaga = record { lat = ℤ.pos 36721300; lon = ℤ.negsuc 4421399 }

abbrev pub lisbon : Coordinates
lisbon = record { lat = ℤ.pos 38722300; lon = ℤ.negsuc 9139299 }

abbrev pub porto : Coordinates
porto = record { lat = ℤ.pos 41157900; lon = ℤ.negsuc 8629099 }

abbrev pub paris : Coordinates
paris = record { lat = ℤ.pos 48856600; lon = ℤ.pos 2352200 }

-- `_CITIES`
abbrev pub cities : List (String × String × Coordinates)
cities =
    ("madrid", "ES", madrid)
    ∷ ("barcelona", "ES", barcelona)
    ∷ ("valencia", "ES", valencia)
    ∷ ("sevilla", "ES", seville)
    ∷ ("seville", "ES", seville)
    ∷ ("bilbao", "ES", bilbao)
    ∷ ("zaragoza", "ES", zaragoza)
    ∷ ("malaga", "ES", malaga)
    ∷ ("lisboa", "PT", lisbon)
    ∷ ("lisbon", "PT", lisbon)
    ∷ ("porto", "PT", porto)
    ∷ ("paris", "FR", paris)
    ∷ []

-- `int.from_bytes(…, "big")`, with the number so far.
abbrev pub from_bytes : ℕ → List ℕ → ℕ
from_bytes n [] = n
from_bytes n (b ∷ bs) = from_bytes (n * 256 + b) bs

-- `l[n:]`
abbrev pub drop {ℓ} : {A : Type ℓ} → ℕ → List A → List A
drop zero xs = xs
drop (suc n) [] = []
drop (suc n) (x ∷ xs) = drop n xs

abbrev pub lat_min : ℤ
lat_min = ℤ.pos 36000000

abbrev pub lat_max : ℤ
lat_max = ℤ.pos 43800000

abbrev pub lon_min : ℤ
lon_min = ℤ.negsuc 9299999

abbrev pub lon_max : ℤ
lon_max = ℤ.pos 3300000

-- `low + n`
abbrev pub plus_z : ℤ → ℕ → ℤ
plus_z (ℤ.pos a) n = ℤ.pos (a + n)
plus_z (ℤ.negsuc a) n = if ltb a n then ℤ.pos (n - suc a) else ℤ.negsuc (a - n)

-- `high - low`, of an upper and a lower bound.
abbrev pub span : ℤ → ℤ → ℕ
span (ℤ.pos a) (ℤ.pos b) = b - a
span (ℤ.pos a) (ℤ.negsuc b) = 0
span (ℤ.negsuc a) (ℤ.pos b) = b + suc a
span (ℤ.negsuc a) (ℤ.negsuc b) = a - b

-- The whole number nearest to `x / 0xFFFFFFFF`; since the divisor is odd, there are no ties.
unfoldable pub nearest : ℕ → ℕ
nearest x = if ltb (x % 4294967295 * 2) 4294967295 then x / 4294967295 else suc (x / 4294967295)

-- `round(low + n / 0xFFFFFFFF * (high - low), 6)`, in microdegrees.
unfoldable pub interpolate : ℤ → ℤ → ℕ → ℤ
unfolding nearest
interpolate low high n = plus_z low (nearest (n * span low high))

module _ (py : Python) where
  -- `_norm`
  abbrev pub norm : String → String
  norm value = py.casefold (py.single_spaced (py.strip value))

  -- `PostalAddress.normalized_key`
  unfoldable pub normalized_key : PostalAddress → String
  normalized_key a = str_append (norm a.line1) (
      str_append "|" (
        str_append (norm a.city) (
          str_append "|" (
            str_append (norm a.postal_code)
              (str_append "|" (py.upper (py.strip a.country_code)))))))

  -- `_CITIES.get(key)`
  abbrev pub city_of : String → String → Option Coordinates
  city_of city country =
      head? (map (λ e. e.2) (select_rows (λ e. str_eq e.0 city && str_eq e.1 country) cities))

  -- `_derive`, from the digest on; `Coordinates` tests its range.
  unfoldable pub derive_from : List ℕ → Result Coordinates
  unfolding interpolate
  derive_from digest =
      let lat = interpolate lat_min lat_max (from_bytes 0 (take 4 digest)) in
      let lon = interpolate lon_min lon_max (from_bytes 0 (take 4 (drop 4 digest))) in
      if in_range (record { lat = lat; lon = lon })
      then ok (record { lat = lat; lon = lon })
      else err Exception.value_error

  abbrev pub known_or : Result Coordinates → Option Coordinates → Result Coordinates
  known_or derived none = derived
  known_or derived (some c) = ok c

  -- `MockGeocoder.geocode`
  unfoldable pub geocode : PostalAddress → Result Coordinates
  geocode a =
      if str_eq (py.strip a.city) ""
      then err (Exception.domain (DomainError.geocoding_failed "city is empty"))
      else known_or (derive_from (py.sha256 (normalized_key a)))
          (city_of (py.casefold (py.strip a.city)) (py.upper (py.strip a.country_code)))
