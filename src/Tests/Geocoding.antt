-- ===== src/Tests/Geocoding.antt =====
-- The mock geocoder with a digest of eight fixed bytes.
use canals_assessment.Prelude.{◌≡◌, refl, true, none, [], ◌∷◌, arith}
use canals_assessment.Domain.Values.{PostalAddress, Coordinates, ℤ, in_range}
use canals_assessment.Db.Tx.{ok}
use canals_assessment.Services.Selection.{to_point}
use canals_assessment.Adapters.GeocodingMock.{
  Python, IsPython, city_of, derive_from, geocode, interpolate, nearest, seville,
}
use canals_assessment.Adapters.GeocodingMock.Bounds.{in_box, geocode-in_range}

-- Texts that are plain already.
abbrev plain : Python
plain = record {
  strip = λ s. s;
  casefold = λ s. s;
  upper = λ s. s;
  single_spaced = λ s. s;
  sha256 = λ s. 1 ∷ 2 ∷ 3 ∷ 4 ∷ 5 ∷ 6 ∷ 7 ∷ 8 ∷ [];
}

plain-IsPython : IsPython plain
plain-IsPython = record { bytes = λ s. omega arith }

abbrev granada : PostalAddress
granada = record {
  line1 = "Calle 1";
  city = "granada";
  postal_code = "18001";
  country_code = "ES";
  line2 = none;
}

geocode-in_range_example :
    (c : Coordinates) × (geocode plain granada ≡ ok c)
    × (in_range c ≡ true)
    × (to_point c ≡ ok (record { x = c.lon; y = c.lat }))
    × (city_of plain "granada" "ES" ≡ none → in_box c ≡ true)
geocode-in_range_example = geocode-in_range plain plain-IsPython granada refl

-- A city of the table is found without its digest.
sevilla_known : geocode plain (record granada { city = "sevilla" }) ≡ ok seville
unfolding geocode
sevilla_known = refl

-- The bytes 1 to 4 and 5 to 8 as fractions of the box.
granada_derived :
    geocode plain granada ≡ ok (record { lat = ℤ.pos 36030708; lon = ℤ.negsuc 9052746 })
unfolding geocode derive_from interpolate nearest
granada_derived = refl
