-- ===== src/Models/Compiler/Insert/Examples.antt =====
-- An INSERT of two objects whose key is generated.
use mathlib.Core.List.{Memᴰ}
use django_clickhouse_backen.Prelude.{
  ℕ, ◌+◌, ◌≡◌, ◌≢◌, ◌⊎◌, refl, true, false, List, [], ◌∷◌, ◌++◌, map, length, Text, codes, join,
  arith, same, ◌==◌, if◌then◌else◌,
}
use django_clickhouse_backen.Prelude.Int.{ℤ, pos, negsuc, or_ℤ, shift_left}
use django_clickhouse_backen.Backend.Operations.{quote_name, starts_quoted, ends_quoted}
use django_clickhouse_backen.Snowflake.{
  issue, Clock, Worker, init, worker, twepoch, get_id, finish, new_id,
}
use django_clickhouse_backen.Snowflake.Order.{AfterEpoch, Above}
use django_clickhouse_backen.Driver.Client.{is_insert}
use django_clickhouse_backen.Models.Compiler.{done}
use django_clickhouse_backen.Models.Compiler.Insert.{
  Field, Given, Insert, Params, rows, insert_fields, insert_sql, insert_values, insert_settings,
  insert_header, absent_of_pk, as_sql, stamp, value_rows,
}
use django_clickhouse_backen.Models.Compiler.Insert.Fields.{LeftOut, insert_fields_complete}
use django_clickhouse_backen.Models.Compiler.Insert.Keys.{with_keys, as_sql-Above}
use django_clickhouse_backen.Models.Compiler.Insert.Rows.{is_rows, OneLine, insert_sql-is_insert}

abbrev size : Field
size = record { column = codes "size"; has_db_default = false }

abbrev color : Field
color = record { column = codes "color"; has_db_default = true }

abbrev id : Field
id = record { column = codes "id"; has_db_default = false }

-- An object is its key; a value is a number, and 0 stands for the default of the database.
abbrev given : Given ℤ ℕ
given = record {
  is_default = λ v. v == 0;
  prepared = λ f o. if f.has_db_default then 0 else 1;
  set_pk = λ o key. key;
  assemble = λ fields vs. (map (λ r. map (λ v. codes "%s") r) vs, vs);
  map_object = codes "<map object>";
}

abbrev insert : Insert ℤ ℕ
insert = record {
  statement = codes "INSERT INTO";
  table = codes "t";
  pk = id;
  pk_auto = true;
  fields = size ∷ color ∷ [];
  objs = pos 0 ∷ pos 0 ∷ [];
  known_settings = [];
  setting_info = [];
}

insert_fields_complete_example :
    (Memᴰ color (insert_fields given (pos 0 ∷ []) (size ∷ color ∷ []))
      ⊎ LeftOut given (pos 0 ∷ []) color)
    × (insert_fields given (pos 0 ∷ []) (size ∷ color ∷ []) ≢ [])
insert_fields_complete_example =
    insert_fields_complete given (pos 0 ∷ []) color (size ∷ color ∷ []) (ground arith)
      (Memᴰ.tail (Memᴰ.head refl))

abbrev sent : Text
sent = codes "INSERT INTO \"t\"(\"size\") VALUES"

abbrev data_rows : Params ℕ
data_rows = rows ((1 ∷ []) ∷ (1 ∷ []) ∷ [])

inserted : insert_sql given insert (size ∷ color ∷ []) (pos 0 ∷ pos 0 ∷ []) ≡ done (sent, data_rows)
unfolding insert_sql insert_fields insert_values insert_settings insert_header value_rows quote_name
    starts_quoted ends_quoted codes join same
inserted = refl

one_line : (OneLine (codes "size")) × Unit {0}
unfolding OneLine codes
one_line = (refl, tt)

insert_sql-is_insert_example : is_insert sent ≡ is_rows data_rows
unfolding OneLine insert_fields codes
insert_sql-is_insert_example =
    insert_sql-is_insert given insert (size ∷ color ∷ []) (pos 0 ∷ pos 0 ∷ []) sent data_rows refl
      refl refl one_line inserted

abbrev clock : Clock
clock n = twepoch + 5 + n

clock-AfterEpoch : AfterEpoch clock
clock-AfterEpoch n = omega arith

abbrev new_worker : Worker
new_worker = record {
  worker_id = pos 3;
  datacenter_id = pos 1;
  sequence = 7;
  last_timestamp = negsuc 0;
}

made : init (pos 1) (pos 3) 7 ≡ worker new_worker
unfolding init
made = refl

abbrev keyed : Text × Params ℕ
keyed = (codes "INSERT INTO \"t\"(\"size\", \"id\") VALUES", data_rows_of_two)
  where
    data_rows_of_two : Params ℕ
    data_rows_of_two = rows ((1 ∷ 1 ∷ []) ∷ (1 ∷ 1 ∷ []) ∷ [])

keyed_sql : as_sql given clock 3 new_worker 0 insert ≡ done keyed
unfolding as_sql stamp get_id finish new_id or_ℤ shift_left absent_of_pk insert_sql insert_fields
    insert_values insert_settings insert_header value_rows quote_name starts_quoted ends_quoted
    codes join same
keyed_sql = refl

absent : absent_of_pk given insert ≡ true
unfolding absent_of_pk codes same
absent = refl

as_sql-Above_example :
    (objs : List ℤ) × (insert_sql given insert (insert.fields ++ (insert.pk ∷ [])) objs
      ≡ done keyed)
    × (objs
        ≡ with_keys given (λ o. o) insert.objs (issue clock 3 (length insert.objs) new_worker 0))
    × (length objs ≡ length insert.objs)
    × Above 0 (map (λ o. o) objs)
as_sql-Above_example =
    as_sql-Above given (λ o. o) clock 3 0 (pos 1) (pos 3) 7 new_worker insert keyed (λ o i. refl)
      clock-AfterEpoch made absent keyed_sql
