-- ===== src/Adapters/GeocodingMock/Bounds.antt =====
-- The points of app/adapters/geocoding_mock.py are in range.
use canals_assessment.Prelude.{
  ℕ, zero, suc, ◌*◌, ◌<◌, ◌≤◌, ◌≡◌, refl, subst, String, Bool, true, false, ◌&&◌, Option, none,
  some, List, [], ◌∷◌, All, take, map, head?, arith, str_eq, Bool-cases, inl, inr,
}
use canals_assessment.Domain.Values.{PostalAddress, Coordinates, ℤ, in_range, within}
use canals_assessment.Sql.{select_rows}
use canals_assessment.Sql.Laws.{All-select_rows}
use canals_assessment.Db.Tx.{Result, ok}
use canals_assessment.Services.Selection.{to_point}
use canals_assessment.Adapters.GeocodingMock.{
  Python, IsPython, leb_z, nearest, interpolate, from_bytes, drop, lat_min, lat_max, lon_min,
  lon_max, cities, city_of, derive_from, known_or, geocode, normalized_key,
}

All-drop {ℓ κ} : {A : Type ℓ} (P : A → Type κ) (n : ℕ) (xs : List A) → All P xs → All P (drop n xs)
All-drop P zero xs h = h
All-drop P (suc n) [] h = tt
All-drop P (suc n) (x ∷ xs) h = All-drop P n xs h.1

-- Four bytes make a number of 32 bits.
word-le : (bs : List ℕ) → All (λ b. b < 256) bs → from_bytes 0 (take 4 bs) ≤ 4294967295
word-le [] h = omega arith
word-le (a ∷ []) h = omega arith
word-le (a ∷ b ∷ []) h = omega arith
word-le (a ∷ b ∷ c ∷ []) h = omega arith
word-le (a ∷ b ∷ c ∷ d ∷ r) h = omega arith

-- A 32-bit fraction of a length, rounded, is at most the length.
nearest-le : (n length : ℕ) → n * length ≤ 4294967295 * length → nearest (n * length) ≤ length
unfolding nearest
nearest-le n length h = ground (arith, h)

-- The bounding box of the derived points.
abbrev pub in_box : Coordinates → Bool
in_box c =
    (leb_z lat_min c.lat && leb_z c.lat lat_max) && (leb_z lon_min c.lon && leb_z c.lon lon_max)

lat-between :
    (n : ℕ)
    → n ≤ 4294967295
    → (leb_z lat_min (interpolate lat_min lat_max n)
        && leb_z (interpolate lat_min lat_max n) lat_max)
      ≡ true
unfolding interpolate
lat-between n h = ground (arith, nearest-le n 7800000 (omega (arith, h)))

lon-between :
    (n : ℕ)
    → n ≤ 4294967295
    → (leb_z lon_min (interpolate lon_min lon_max n)
        && leb_z (interpolate lon_min lon_max n) lon_max)
      ≡ true
unfolding interpolate
lon-between n h = ground (arith, nearest-le n 12600000 (omega (arith, h)))

within-lat : (x : ℤ) → (leb_z lat_min x && leb_z x lat_max) ≡ true → within 90000000 x ≡ true
within-lat (ℤ.pos n) h = ground (arith, h)
within-lat (ℤ.negsuc n) h = ground (arith, h)

within-lon : (x : ℤ) → (leb_z lon_min x && leb_z x lon_max) ≡ true → within 180000000 x ≡ true
within-lon (ℤ.pos n) h = ground (arith, h)
within-lon (ℤ.negsuc n) h = ground (arith, h)

in_range-in_box : (c : Coordinates) → in_box c ≡ true → in_range c ≡ true
in_range-in_box c h =
    rw (within-lat c.lat (ground (arith, h)), within-lon c.lon (ground (arith, h))) refl

-- Every city of the table is in range.
cities-in_range : All (λ e. in_range e.2 ≡ true) cities
cities-in_range = (
  refl,
  (refl, (refl, (refl, (refl, (refl, (refl, (refl, (refl, (refl, (refl, (refl, tt))))))))))),
)

found-in_range :
    (xs : List (String × String × Coordinates)) (c : Coordinates)
    → All (λ e. in_range e.2 ≡ true) xs
    → head? (map (λ e. e.2) xs) ≡ some c
    → in_range c ≡ true
found-in_range [] c h e = cc
found-in_range (x ∷ xs) c h e = let same : x.2 ≡ c = cc in subst (λ d. in_range d ≡ true) same h.0

in_range-to_point :
    (c : Coordinates) → in_range c ≡ true → to_point c ≡ ok (record { x = c.lon; y = c.lat })
unfolding to_point
in_range-to_point c h = elim (Bool-cases (within 90000000 c.lat)) [
  | inr out ↦ let k = rw out at h in cc
  | inl fine ↦ let k : within 180000000 c.lon ≡ true = rw fine at h in rw (k, fine) refl
]

module _ (py : Python) (is_python : IsPython py) where
  derive_from-ok :
      (digest : List ℕ)
      → All (λ b. b < 256) digest
      → (c : Coordinates) × (derive_from py digest ≡ ok c) × (in_box c ≡ true)
  unfolding derive_from
  derive_from-ok digest bytes =
      let lat = interpolate lat_min lat_max (from_bytes 0 (take 4 digest)) in
      let lon = interpolate lon_min lon_max (from_bytes 0 (take 4 (drop 4 digest))) in
      let c : Coordinates = record { lat = lat; lon = lon } in
      let boxed : in_box c ≡ true =
        rw
          (
            lat-between (from_bytes 0 (take 4 digest)) (word-le digest bytes),
            lon-between (from_bytes 0 (take 4 (drop 4 digest)))
                (word-le (drop 4 digest) (All-drop (λ b. b < 256) 4 digest bytes)),
          )
          refl in
      (c, rw (in_range-in_box c boxed) refl, boxed)

  known_or-ok :
      (derived : Result Coordinates) (known : Option Coordinates)
      → ((c : Coordinates) × (derived ≡ ok c) × (in_box c ≡ true))
      → ((c : Coordinates) → known ≡ some c → in_range c ≡ true)
      → (c : Coordinates) × (known_or py derived known ≡ ok c)
        × (in_range c ≡ true)
        × (known ≡ none → in_box c ≡ true)
  known_or-ok derived none (c, returned, boxed) k =
      (c, returned, in_range-in_box c boxed, λ e. boxed)
  known_or-ok derived (some c) h k = (c, refl, k c refl, λ e. cc)

  -- For every address whose city is not blank, the mock geocoder returns a point whose latitude and
  -- longitude are in range, so that `to_point` takes it; and one that is not of its table, but derived
  -- from the digest of the address, lies in the bounding box of the Iberian peninsula; given that the
  -- digest consists of bytes.
  pub geocode-in_range :
      (a : PostalAddress)
      → str_eq (py.strip a.city) "" ≡ false
      → (c : Coordinates) × (geocode py a ≡ ok c)
        × (in_range c ≡ true)
        × (to_point c ≡ ok (record { x = c.lon; y = c.lat }))
        × (city_of py (py.casefold (py.strip a.city)) (py.upper (py.strip a.country_code)) ≡ none
            → in_box c ≡ true)
  unfolding geocode
  geocode-in_range a named =
      let digest = py.sha256 (normalized_key py a) in
      let city = py.casefold (py.strip a.city) in
      let country = py.upper (py.strip a.country_code) in
      let (c, returned, fine, boxed) =
        known_or-ok (derive_from py digest) (city_of py city country)
          (derive_from-ok digest (is_python.bytes (normalized_key py a)))
          (λ c. found-in_range (select_rows (λ e. str_eq e.0 city && str_eq e.1 country) cities) c (
            All-select_rows (λ e. str_eq e.0 city && str_eq e.1 country) (λ e. in_range e.2 ≡ true)
              cities cities-in_range)) in
      (c, rw named returned, fine, in_range-to_point c fine, boxed)
