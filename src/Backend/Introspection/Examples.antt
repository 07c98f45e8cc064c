-- ===== src/Backend/Introspection/Examples.antt =====
-- Types as the server gives them.
use django_clickhouse_backen.Prelude.{◌≡◌, refl, true, codes, same, starts_with}
use django_clickhouse_backen.Models.Fields.{Field, scalar, fixed_string, db_type}
use django_clickhouse_backen.Backend.Introspection.{get_field_type, base_field_type, unwrapped}

abbrev field : Field
field = scalar true true (fixed_string (codes "20"))

written : db_type true field ≡ codes "LowCardinality(Nullable(FixedString(20)))"
unfolding db_type codes
written = refl

zoned_class : get_field_type (codes "DateTime('UTC')") ≡ codes "DateTime('UTC')Field"
unfolding get_field_type base_field_type unwrapped codes starts_with same
zoned_class = refl
