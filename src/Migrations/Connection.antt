-- ===== src/Migrations/Connection.antt =====
-- What patch/migrations.py reads of a database connection.
use django_clickhouse_backen.Prelude.{
  Bool, true, false, ◌&&◌, Option, none, some, [], ◌∷◌, Text, codes, if◌then◌else◌,
}

-- A missing attribute is `none` or `false`. `has_replicas` is set once it has been asked for.
pub record Connection : Type 0 where
  pub is_clickhouse : Bool
  pub distributed_migrations : Bool
  pub migration_cluster : Option Text
  pub has_replicas : Option Bool

-- The truth value of an optional string.
abbrev pub is_set : Option Text → Bool
is_set none = false
is_set (some []) = false
is_set (some (c ∷ t)) = true

abbrev pub should_distribute_migrations : Connection → Bool
should_distribute_migrations c = c.distributed_migrations && is_set c.migration_cluster

abbrev pub get_model_table_name : Connection → Text
get_model_table_name c =
    if should_distribute_migrations c
    then codes "distributed_django_migrations"
    else codes "django_migrations"
