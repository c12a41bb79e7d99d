-- ===== src/Seeds/Data.antt =====
-- The data of app/seeds.py; a coordinate is a whole number of microdegrees.
use canals_assessment.Prelude.{ℕ, String, List, [], ◌∷◌}
use canals_assessment.Domain.Values.{ℤ, Point}

-- `EUR`
abbrev pub eur : String
eur = "EUR"

pub record ProductSeed : Type 0 where
  pub sku : String
  pub name : String
  pub unit_price_minor : ℕ

abbrev product_seed : String → String → ℕ → ProductSeed
product_seed sku name price = record { sku = sku; name = name; unit_price_minor = price }

-- `PRODUCTS`
abbrev pub products : List ProductSeed
products =
    product_seed "SKU-KEYB" "Mechanical Keyboard" 8900
    ∷ product_seed "SKU-MOUSE" "Wireless Mouse" 3450
    ∷ product_seed "SKU-MON27" "27\" 4K Monitor" 42900
    ∷ product_seed "SKU-DOCK" "USB-C Docking Station" 15900
    ∷ product_seed "SKU-CABLE" "USB-C Cable 2m" 1290
    ∷ []

pub record WarehouseSeed : Type 0 where
  pub code : String
  pub name : String
  pub location : Point

abbrev warehouse_seed : String → String → ℤ → ℤ → WarehouseSeed
warehouse_seed code name lon lat = record {
  code = code;
  name = name;
  location = record { x = lon; y = lat };
}

-- `WAREHOUSES`
abbrev pub warehouses : List WarehouseSeed
warehouses =
    warehouse_seed "MAD-01" "Madrid Central" (ℤ.negsuc 3703799) (ℤ.pos 40416800)
    ∷ warehouse_seed "BCN-01" "Barcelona Port" (ℤ.pos 2173400) (ℤ.pos 41385100)
    ∷ warehouse_seed "VLC-01" "Valencia Sur" (ℤ.negsuc 376299) (ℤ.pos 39469900)
    ∷ warehouse_seed "SVQ-01" "Seville Hub" (ℤ.negsuc 5984499) (ℤ.pos 37389100)
    ∷ []

pub record InventorySeed : Type 0 where
  pub code : String
  pub sku : String
  pub on_hand : ℕ
  pub reserved : ℕ

abbrev stock : String → String → ℕ → ℕ → InventorySeed
stock code sku on_hand reserved = record {
  code = code;
  sku = sku;
  on_hand = on_hand;
  reserved = reserved;
}

-- `INVENTORY`
abbrev pub inventory : List InventorySeed
inventory =
    stock "MAD-01" "SKU-KEYB" 50 5
    ∷ stock "MAD-01" "SKU-MOUSE" 40 0
    ∷ stock "MAD-01" "SKU-DOCK" 12 0
    ∷ stock "MAD-01" "SKU-CABLE" 100 0
    ∷ stock "BCN-01" "SKU-KEYB" 30 0
    ∷ stock "BCN-01" "SKU-MOUSE" 20 0
    ∷ stock "BCN-01" "SKU-CABLE" 60 0
    ∷ stock "VLC-01" "SKU-KEYB" 5 0
    ∷ stock "VLC-01" "SKU-CABLE" 10 0
    ∷ stock "SVQ-01" "SKU-KEYB" 10 0
    ∷ stock "SVQ-01" "SKU-MOUSE" 10 0
    ∷ stock "SVQ-01" "SKU-MON27" 3 0
    ∷ stock "SVQ-01" "SKU-DOCK" 4 0
    ∷ stock "SVQ-01" "SKU-CABLE" 25 0
    ∷ []

-- `CUSTOMER_EMAIL`
abbrev pub customer_email : String
customer_email = "ada@example.com"

-- `CUSTOMER_NAME`
abbrev pub customer_name : String
customer_name = "Ada Lovelace"

pub record AddressSeed : Type 0 where
  pub line1 : String
  pub city : String
  pub postal_code : String
  pub country_code : String
  pub point : Point

abbrev address_seed : String → String → String → String → ℤ → ℤ → AddressSeed
address_seed line1 city postal_code country_code lon lat = record {
  line1 = line1;
  city = city;
  postal_code = postal_code;
  country_code = country_code;
  point = record { x = lon; y = lat };
}

-- `ADDRESSES`
abbrev pub addresses : List AddressSeed
addresses =
    address_seed "Calle de Alcala 45" "Madrid" "28014" "ES" (ℤ.negsuc 3697499) (ℤ.pos 40418900)
    ∷ address_seed "Carrer de Mallorca 401" "Barcelona" "08013" "ES" (ℤ.pos 2174400)
        (ℤ.pos 41403600)
    ∷ []
