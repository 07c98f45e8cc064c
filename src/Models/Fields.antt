-- ===== src/Models/Fields.antt =====
-- The column types that fields write: FieldMixin of clickhouse_backend/models/fields/base.py,
-- data_types of clickhouse_backend/backend/base.py, and db_type of arrays, maps and tuples.
pub mod Validators
pub mod Values
pub mod Addresses
pub mod Checks
pub mod Validate
use django_clickhouse_backen.Prelude.{
  Bool, true, false, Option, none, some, List, [], ◌∷◌, ◌++◌, map, Text, codes, join, if◌then◌else◌,
}

-- The fields with one value. Lengths, precisions and places are given by their digits, the members of
-- an enumeration by what is written between the brackets. A GenericIPAddressField is given by whether
-- its protocol is IPv4.
pub data Scalar : Type 0 where
  int8 int16 int32 int64 int128 int256 uint8 uint16 uint32 uint64 uint128 uint256 : Scalar
  float32 float64 string uuid bool date date32 date_time ipv4 ipv6 json : Scalar
  fixed_string date_time64 enum enum8 enum16 : Text → Scalar
  generic_ip : Bool → Scalar
  decimal : Text → Text → Scalar

-- A scalar has the flags null and low_cardinality.
mutual
  pub data Field : Type 0 where
    scalar : Bool → Bool → Scalar → Field
    array : Field → Field
    map_of : Field → Field → Field
    tuple : Members → Field
    named_tuple : NamedMembers → Field

  pub data Members : Type 0 where
    last : Field → Members
    member : Field → Members → Members

  pub data NamedMembers : Type 0 where
    named_last : Text → Field → NamedMembers
    named : Text → Field → NamedMembers → NamedMembers

-- with "UTC" where USE_TZ is set
unfoldable pub zoned : Bool → Text → Text
zoned use_tz t = if use_tz then t ++ codes ", 'UTC')" else t ++ codes ")"

unfoldable pub data_types : Bool → Scalar → Text
unfolding zoned
data_types use_tz int8 = codes "Int8"
data_types use_tz int16 = codes "Int16"
data_types use_tz int32 = codes "Int32"
data_types use_tz int64 = codes "Int64"
data_types use_tz int128 = codes "Int128"
data_types use_tz int256 = codes "Int256"
data_types use_tz uint8 = codes "UInt8"
data_types use_tz uint16 = codes "UInt16"
data_types use_tz uint32 = codes "UInt32"
data_types use_tz uint64 = codes "UInt64"
data_types use_tz uint128 = codes "UInt128"
data_types use_tz uint256 = codes "UInt256"
data_types use_tz float32 = codes "Float32"
data_types use_tz float64 = codes "Float64"
data_types use_tz string = codes "String"
data_types use_tz uuid = codes "UUID"
data_types use_tz bool = codes "Bool"
data_types use_tz date = codes "Date"
data_types use_tz date32 = codes "Date32"
data_types use_tz date_time = if use_tz then codes "DateTime('UTC')" else codes "DateTime"
data_types use_tz ipv4 = codes "IPv4"
data_types use_tz ipv6 = codes "IPv6"
data_types use_tz (generic_ip true) = codes "IPv4"
data_types use_tz (generic_ip false) = codes "IPv6"
data_types use_tz json = codes "Object('json')"
data_types use_tz (fixed_string max_bytes) = codes "FixedString(" ++ (max_bytes ++ codes ")")
data_types use_tz (date_time64 precision) = codes "DateTime64(" ++ zoned use_tz precision
data_types use_tz (enum members) = codes "Enum(" ++ (members ++ codes ")")
data_types use_tz (enum8 members) = codes "Enum8(" ++ (members ++ codes ")")
data_types use_tz (enum16 members) = codes "Enum16(" ++ (members ++ codes ")")
data_types use_tz (decimal max_digits decimal_places) =
    codes "Decimal(" ++ (max_digits ++ (codes ", " ++ (decimal_places ++ codes ")")))

-- _nested_type
unfoldable pub nested_type : Bool → Bool → Text → Text
nested_type null low_cardinality value =
    let inner = if null then codes "Nullable(" ++ (value ++ codes ")") else value in
    if low_cardinality then codes "LowCardinality(" ++ (inner ++ codes ")") else inner

-- A flag of a field in its type: GenericIPAddressField.db_type writes neither.
unfoldable pub flagged : Scalar → Bool → Bool
flagged (generic_ip v4) b = false
flagged int8 b = b
flagged int16 b = b
flagged int32 b = b
flagged int64 b = b
flagged int128 b = b
flagged int256 b = b
flagged uint8 b = b
flagged uint16 b = b
flagged uint32 b = b
flagged uint64 b = b
flagged uint128 b = b
flagged uint256 b = b
flagged float32 b = b
flagged float64 b = b
flagged string b = b
flagged uuid b = b
flagged bool b = b
flagged date b = b
flagged date32 b = b
flagged date_time b = b
flagged ipv4 b = b
flagged ipv6 b = b
flagged json b = b
flagged (fixed_string n) b = b
flagged (date_time64 n) b = b
flagged (enum n) b = b
flagged (enum8 n) b = b
flagged (enum16 n) b = b
flagged (decimal n m) b = b

unfoldable mutual
  unfolding data_types nested_type flagged

  pub db_type : Bool → Field → Text
  db_type use_tz (scalar null low_cardinality s) =
      nested_type (flagged s null) (flagged s low_cardinality) (data_types use_tz s)
  db_type use_tz (array f) = codes "Array(" ++ (db_type use_tz f ++ codes ")")
  db_type use_tz (map_of k v) =
      codes "Map(" ++ (db_type use_tz k ++ (codes ", " ++ (db_type use_tz v ++ codes ")")))
  db_type use_tz (tuple fs) = codes "Tuple(" ++ (member_types use_tz fs ++ codes ")")
  db_type use_tz (named_tuple fs) = codes "Tuple(" ++ (named_types use_tz fs ++ codes ")")

  pub member_types : Bool → Members → Text
  member_types use_tz (last f) = db_type use_tz f
  member_types use_tz (member f fs) = db_type use_tz f ++ (codes ", " ++ member_types use_tz fs)

  pub named_types : Bool → NamedMembers → Text
  named_types use_tz (named_last n f) = n ++ (codes " " ++ db_type use_tz f)
  named_types use_tz (named n f fs) =
      n ++ (codes " " ++ (db_type use_tz f ++ (codes ", " ++ named_types use_tz fs)))
