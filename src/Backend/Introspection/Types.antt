-- ===== src/Backend/Introspection/Types.antt =====
-- Introspection finds the class of the field that wrote a type.
use django_clickhouse_backen.Prelude.{Bool, true, false, Text, codes, if◌then◌else◌}
use django_clickhouse_backen.Models.Fields.{
  Scalar, int8, int16, int32, int64, int128, int256, uint8, uint16, uint32, uint64, uint128,
  uint256, float32, float64, string, uuid, bool, date, date32, date_time, ipv4, ipv6, generic_ip,
  json, fixed_string, date_time64, enum, enum8, enum16, decimal, Field, scalar, array, map_of,
  tuple, named_tuple,
}

-- The class that reads a field's column, in clickhouse_backend.models: that of the field, but for two.
-- The type of a DateTime with a time zone is taken for the name of a class, and the column of a
-- GenericIPAddressField for one of IPv4Field or IPv6Field.
unfoldable pub scalar_class : Bool → Scalar → Text
scalar_class use_tz int8 = codes "Int8Field"
scalar_class use_tz int16 = codes "Int16Field"
scalar_class use_tz int32 = codes "Int32Field"
scalar_class use_tz int64 = codes "Int64Field"
scalar_class use_tz int128 = codes "Int128Field"
scalar_class use_tz int256 = codes "Int256Field"
scalar_class use_tz uint8 = codes "UInt8Field"
scalar_class use_tz uint16 = codes "UInt16Field"
scalar_class use_tz uint32 = codes "UInt32Field"
scalar_class use_tz uint64 = codes "UInt64Field"
scalar_class use_tz uint128 = codes "UInt128Field"
scalar_class use_tz uint256 = codes "UInt256Field"
scalar_class use_tz float32 = codes "Float32Field"
scalar_class use_tz float64 = codes "Float64Field"
scalar_class use_tz string = codes "StringField"
scalar_class use_tz uuid = codes "UUIDField"
scalar_class use_tz bool = codes "BoolField"
scalar_class use_tz date = codes "DateField"
scalar_class use_tz date32 = codes "Date32Field"
scalar_class use_tz date_time =
    if use_tz then codes "DateTime('UTC')Field" else codes "DateTimeField"
scalar_class use_tz ipv4 = codes "IPv4Field"
scalar_class use_tz ipv6 = codes "IPv6Field"
scalar_class use_tz (generic_ip true) = codes "IPv4Field"
scalar_class use_tz (generic_ip false) = codes "IPv6Field"
scalar_class use_tz json = codes "JSONField"
scalar_class use_tz (fixed_string n) = codes "FixedStringField"
scalar_class use_tz (date_time64 p) = codes "DateTime64Field"
scalar_class use_tz (enum m) = codes "EnumField"
scalar_class use_tz (enum8 m) = codes "Enum8Field"
scalar_class use_tz (enum16 m) = codes "Enum16Field"
scalar_class use_tz (decimal d p) = codes "DecimalField"

pub field_class : Bool → Field → Text
field_class use_tz (scalar null low s) = scalar_class use_tz s
field_class use_tz (array f) = codes "ArrayField"
field_class use_tz (map_of k v) = codes "MapField"
field_class use_tz (tuple fs) = codes "TupleField"
field_class use_tz (named_tuple fs) = codes "TupleField"
