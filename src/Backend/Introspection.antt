-- ===== src/Backend/Introspection.antt =====
-- DatabaseIntrospection.get_field_type of clickhouse_backend/backend/introspection.py.
pub mod Types
mod Examples
use django_clickhouse_backen.Prelude.{
  ℕ, Bool, true, false, List, [], ◌∷◌, ◌++◌, drop, Text, codes, same, starts_with, if◌then◌else◌,
}

-- t[:-1]
pub but_last : Text → Text
but_last [] = []
but_last (c ∷ []) = []
but_last (c ∷ d ∷ t) = c ∷ but_last (d ∷ t)

-- data_type[length:-1] where the type has such a wrapper
pub unwrapped : Text → ℕ → Text → Text
unfolding but_last
unwrapped wrapper length data_type =
    if starts_with data_type wrapper then but_last (drop length data_type) else data_type

pub base_field_type : Text → Text
base_field_type data_type =
    if starts_with data_type (codes "FixedString")
    then codes "FixedStringField"
    else if starts_with data_type (codes "DateTime64")
    then codes "DateTime64Field"
    else if starts_with data_type (codes "Decimal")
    then codes "DecimalField"
    else if starts_with data_type (codes "Enum8")
    then codes "Enum8Field"
    else if starts_with data_type (codes "Enum16")
    then codes "Enum16Field"
    else if starts_with data_type (codes "Enum")
    then codes "EnumField"
    else if starts_with data_type (codes "Array")
    then codes "ArrayField"
    else if starts_with data_type (codes "Tuple")
    then codes "TupleField"
    else if starts_with data_type (codes "Map")
    then codes "MapField"
    else if same data_type (codes "Object('json')")
    then codes "JSONField"
    else data_type ++ codes "Field"

pub get_field_type : Text → Text
unfolding unwrapped base_field_type
get_field_type data_type =
    base_field_type
      (unwrapped (codes "Nullable") 9 (unwrapped (codes "LowCardinality") 15 data_type))
