-- ===== src/Migrations/Recorder/Examples.antt =====
-- The theorems about the recorder at a toy server, whose tables all have the column `deleted` or
-- all lack it.
use django_clickhouse_backen.Prelude.{
  ◌≡◌, refl, Bool, true, false, not, none, some, List, [], ◌∷◌, ◌++◌, map, any, filter, Text, codes,
  arith, if◌then◌else◌, Bool-cases, inl, inr, subst, same_refl, same,
}
use django_clickhouse_backen.Migrations.Recorder.{
  Row, Server, Table, Recorder, done, table_in, ensure_schema, has_table, migration, create_tables,
  create_table, make_model, check_replicas, get_replicas, add_missing_column, is_applied,
}
use django_clickhouse_backen.Migrations.Recorder.Schema.{Defined}
use django_clickhouse_backen.Migrations.Recorder.Applied.{
  Event, applied, unapplied, play_all, play_all-says, says_last,
}

record Toy : Type 0 where
  rows : List Row
  names : List Text
  up_to_date : Bool

abbrev toy_create : Table → Toy → Bool × Toy
toy_create t d =
    if table_in t.db_table d.names
    then (false, d)
    else (true, record d { names = t.db_table ∷ d.names; up_to_date = t.deleted_column })

toy_table_in :
    (t : Table) (d d' : Toy) → toy_create t d ≡ (true, d') → table_in t.db_table d'.names ≡ true
toy_table_in t d d' h = elim (Bool-cases (table_in t.db_table d.names)) [
  | inl b ↦ ground arith
  | inr b ↦
      let e : record d { names = t.db_table ∷ d.names; up_to_date = t.deleted_column } ≡ d' =
        ground arith in
      subst (λ (x : Toy). table_in t.db_table x.names ≡ true) e
        (ground (arith, same_refl t.db_table))
]

toy_column :
    (t : Table) (d d' : Toy) → toy_create t d ≡ (true, d') → d'.up_to_date ≡ t.deleted_column
toy_column t d d' h = ground arith

abbrev toy : Server
toy = record {
  Store = Toy;
  rows = λ d. d.rows;
  exists = λ p d. any p d.rows;
  update = λ p f d. record d { rows = map (λ r. if p r then f r else r) d.rows };
  create = λ r d. record d { rows = d.rows ++ (r ∷ []) };
  delete = λ p d. record d { rows = filter (λ r. not (p r)) d.rows };
  table_names = λ d. d.names;
  has_deleted_column = λ t d. d.up_to_date;
  add_deleted_column = λ t d. record d { up_to_date = true };
  create_model = toy_create;
  replica_num = λ c d. none;
  exists_lem = λ p d. refl;
  rows-update = λ p f d. refl;
  rows-create = λ r d. refl;
  rows-delete = λ p d. refl;
  rows-add = λ t d. refl;
  names-add = λ t d. refl;
  column-add = λ t d. refl;
  names-create_model = toy_table_in;
  column-create_model = toy_column;
}

-- A connection with distributed migrations, to a database without tables.
abbrev start : Recorder toy
start = record {
  connection = record {
    is_clickhouse = true;
    distributed_migrations = true;
    migration_cluster = some (codes "c");
    has_replicas = none;
  };
  migration_class = none;
  known_table = false;
  store = record { rows = []; names = []; up_to_date = false };
}

abbrev started : Recorder toy
started = (ensure_schema start).1

ensures : ensure_schema start ≡ (done, started)
unfolding ensure_schema has_table migration create_tables create_table make_model check_replicas
    get_replicas add_missing_column codes same
ensures = refl

start-Defined : Defined start
unfolding Defined
start-Defined m e = ground arith

abbrev history : List Event
history =
    applied (codes "a") (codes "1") 5
    ∷ applied (codes "a") (codes "2") 6
    ∷ unapplied (codes "a") (codes "2")
    ∷ []

-- A new recorder, on the database that has the tables
abbrev again : Recorder toy
again = record start { store = started.store }

table_there : (has_table again).0 ≡ true
unfolding has_table migration add_missing_column make_model check_replicas get_replicas codes same
    ensure_schema
table_there = refl

play_all-says_example :
    (r1 : Recorder toy) × (play_all history again ≡ (done, r1))
    × (is_applied r1 (codes "a") (codes "2")
        ≡ says_last (codes "a") (codes "2") history (is_applied again (codes "a") (codes "2")))
play_all-says_example = play_all-says history again (codes "a") (codes "2") table_there
