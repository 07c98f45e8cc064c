-- ===== src/Backend/Lookups/Examples.antt =====
-- The theorems about lookups and dates at a column of small name.
use django_clickhouse_backen.Prelude.{refl, Text, codes}
use django_clickhouse_backen.Backend.Lookups.Shape.{Even}

abbrev column : Text
column = codes "max(d)"

abbrev utc : Text
utc = codes "UTC"

utc-Even : Even utc
unfolding Even codes
utc-Even = refl

month-Even : Even (codes "month")
unfolding Even codes
month-Even = refl

column-Even : Even column
unfolding Even codes
column-Even = refl
