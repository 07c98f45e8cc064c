-- ===== src/Inspectdb/Examples.antt =====
-- Types as a server gives them.
use django_clickhouse_backen.Prelude.{
  ◌≡◌, ◌≤◌, refl, true, false, some, none, [], Text, codes, starts_with, join, arith,
}
use django_clickhouse_backen.Models.Fields.{
  Field, scalar, array, map_of, tuple, last, member, fixed_string, decimal, date_time64, db_type,
}
use django_clickhouse_backen.Inspectdb.{
  Inspected, is_digit, inspect_field_type, digits, alnums, scan_name, merge_params, last_param,
}
use django_clickhouse_backen.Inspectdb.Source.{Readable, ReadableScalar, calls}
use django_clickhouse_backen.Inspectdb.Described.{described}
use django_clickhouse_backen.Inspectdb.Read.{inspect_field_type-db_type}

abbrev decode : Text → Text
decode t = t

run : Text → Inspected
run t = inspect_field_type decode 9 t []

enumeration :
    run (codes "Array(Tuple(String, Enum8('a' = 1, 'b' = 2)))")
    ≡ some (
      codes
          "models.ArrayField(models.TupleField([models.StringField(), models.Enum8Field(choices=[(1, 'a'), (2, 'b')])]))",
      [],
    )
unfolding run codes inspect_field_type starts_with digits alnums merge_params join last_param
    scan_name
enumeration = refl

-- A value below zero is no digits, and the loop goes on behind the end of the type.
below_zero : run (codes "Enum8('a' = -1)") ≡ none
unfolding run codes inspect_field_type starts_with digits alnums merge_params join scan_name
below_zero = refl

-- The name of an item of a tuple is taken for its type, and the rest of the tuple is lost.
named_item :
    run (codes "Tuple(a Int8, b String)")
    ≡ some (codes "models.TupleField([models.aField()])", codes "Int8, b String)")
unfolding run codes inspect_field_type starts_with alnums merge_params join last_param
named_item = refl

-- The items behind a DateTime with a time zone are lost.
zoned_item :
    run (codes "Tuple(DateTime('UTC'), String)")
    ≡ some (codes "models.TupleField([models.DateTimeField()])", codes "), String)")
unfolding run codes inspect_field_type starts_with alnums merge_params join last_param
zoned_item = refl

abbrev prices : Field
prices = map_of (scalar false true (fixed_string (codes "20"))) (
    array (
      tuple (
        member (scalar true false (decimal (codes "9") (codes "3")))
          (last (scalar false false (date_time64 (codes "3")))))))

prices-Readable : Readable true prices
unfolding Readable ReadableScalar codes is_digit
prices-Readable = (refl, ((refl, refl), (b'3', refl, refl)))

calls-prices : calls prices ≤ 14
unfolding calls
calls-prices = omega arith

inspect_field_type-db_type_example :
    inspect_field_type decode 14 (db_type true prices) [] ≡ some (described true prices, [])
inspect_field_type-db_type_example =
    inspect_field_type-db_type decode true prices 14 prices-Readable calls-prices
