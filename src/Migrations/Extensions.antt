-- ===== src/Migrations/Extensions.antt =====
-- migrations/versions/0001_extensions_and_enums.py.
use canals_assessment.Prelude.{List, [], ◌∷◌}
use canals_assessment.Migrations.{EnumType, Operation, create_extension, create_type, drop_type}

abbrev pub order_status : EnumType
order_status = record {
  name = "order_status";
  values = "pending" ∷ "reserved" ∷ "paid" ∷ "confirmed" ∷ "payment_failed" ∷ "cancelled" ∷ [];
}

abbrev pub payment_status : EnumType
payment_status = record {
  name = "payment_status";
  values = "pending" ∷ "succeeded" ∷ "failed" ∷ [];
}

abbrev pub reservation_status : EnumType
reservation_status = record {
  name = "reservation_status";
  values = "active" ∷ "committed" ∷ "released" ∷ "expired" ∷ [];
}

-- `upgrade`
abbrev pub upgrade_extensions : List Operation
upgrade_extensions =
    create_extension "postgis"
    ∷ create_type order_status
    ∷ create_type payment_status
    ∷ create_type reservation_status
    ∷ []

-- `downgrade`; the extension stays.
abbrev pub downgrade_extensions : List Operation
downgrade_extensions =
    drop_type "reservation_status" ∷ drop_type "payment_status" ∷ drop_type "order_status" ∷ []
