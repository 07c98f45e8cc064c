-- ===== src/Migrations/Recorder.antt =====
-- The patched MigrationRecorder of patch/migrations.py. Statements on the table of migrations go
-- through Django's query sets to a server, which is a parameter.
pub mod Rows
pub mod Schema
pub mod Applied
mod Examples
use django_clickhouse_backen.Prelude.{
  ℕ, ◌≡◌, Bool, true, false, not, ◌&&◌, ◌||◌, Option, none, some, List, [], ◌∷◌, ◌++◌, map, any,
  filter, Text, codes, same, leb, if◌then◌else◌,
}
use django_clickhouse_backen.Migrations.Connection.{
  Connection, should_distribute_migrations, get_model_table_name,
}

pub record Row : Type 0 where
  pub app : Text
  pub name : Text
  pub applied : ℕ
  pub deleted : Bool

-- The engine of a model's Meta; `django_default` where it has none.
pub data Engine : Type 0 where
  django_default merge_tree replicated_merge_tree : Engine
  distributed : Option Text → Text → Engine

pub record Table : Type 0 where
  pub db_table : Text
  pub engine : Engine
  pub cluster : Option Text
  pub deleted_column : Bool

-- A model class, with the local model of a distributed one.
pub record Model : Type 0 where
  pub table : Table
  pub local_model_class : Option Table

abbrev pub table_in : Text → List Text → Bool
table_in t names = any (same t) names

-- The server. `rows` is the table of migrations as the connection reads it; where the column
-- `deleted` is missing or was just added it has its default, false. With mutations_sync an update or a
-- deletion is done when the statement returns. An insertion is read at once, also from a Distributed
-- table where the connection sets insert_distributed_sync, as the README asks for; the laws are for
-- connections with this setting, and those without distributed migrations. The flag of `create_model` is false for a DatabaseError.
pub record Server : Type 1 where
  pub Store : Type 0
  pub rows : Store → List Row
  pub exists : (Row → Bool) → Store → Bool
  pub update : (Row → Bool) → (Row → Row) → Store → Store
  pub create : Row → Store → Store
  pub delete : (Row → Bool) → Store → Store
  pub table_names : Store → List Text
  pub has_deleted_column : Text → Store → Bool
  pub add_deleted_column : Text → Store → Store
  pub create_model : Table → Store → Bool × Store
  pub replica_num : Option Text → Store → Option ℕ
  pub exists_lem : (p : Row → Bool) (d : Store) → exists p d ≡ any p (rows d)
  pub rows-update :
      (p : Row → Bool) (f : Row → Row) (d : Store)
      → rows (update p f d) ≡ map (λ r. if p r then f r else r) (rows d)
  pub rows-create : (r : Row) (d : Store) → rows (create r d) ≡ rows d ++ (r ∷ [])
  pub rows-delete :
      (p : Row → Bool) (d : Store) → rows (delete p d) ≡ filter (λ r. not (p r)) (rows d)
  pub rows-add : (t : Text) (d : Store) → rows (add_deleted_column t d) ≡ rows d
  pub names-add : (t : Text) (d : Store) → table_names (add_deleted_column t d) ≡ table_names d
  pub column-add : (t : Text) (d : Store) → has_deleted_column t (add_deleted_column t d) ≡ true
  pub names-create_model :
      (t : Table) (d d' : Store)
      → create_model t d ≡ (true, d')
      → table_in t.db_table (table_names d') ≡ true
  pub column-create_model :
      (t : Table) (d d' : Store)
      → create_model t d ≡ (true, d')
      → has_deleted_column t.db_table d' ≡ t.deleted_column

pub data Result : Type 0 where
  done migration_schema_missing : Result

module _ (V : Server) where
  open V use {Store, replica_num}

  pub record Recorder : Type 0 where
    pub connection : Connection
    pub migration_class : Option Model
    pub known_table : Bool
    pub store : Store

  -- _get_replicas
  pub get_replicas : Option Text → Store → ℕ
  get_replicas cluster d = elim (replica_num cluster d) [ none ↦ 0 | some n ↦ n ]

  pub check_replicas : Connection → Store → Bool
  unfolding get_replicas
  check_replicas c d = elim c.has_replicas [
    | some b ↦ b
    | none ↦ leb 1 (get_replicas c.migration_cluster d)
  ]

-- The model that MigrationRecorder.Migration defines, once it is known whether there are replicas.
pub make_model : Connection → Bool → Model
make_model c replicas =
    if c.is_clickhouse
    then (if should_distribute_migrations c
        then record {
          table = record {
            db_table = get_model_table_name c;
            engine = distributed c.migration_cluster (codes "django_migrations");
            cluster = c.migration_cluster;
            deleted_column = true;
          };
          local_model_class = some (record {
            db_table = codes "django_migrations";
            engine = if replicas then replicated_merge_tree else merge_tree;
            cluster = c.migration_cluster;
            deleted_column = true;
          });
        }
        else record {
          table = record {
            db_table = get_model_table_name c;
            engine = merge_tree;
            cluster = c.migration_cluster;
            deleted_column = true;
          };
          local_model_class = none;
        })
    else record {
      table = record {
        db_table = codes "django_migrations";
        engine = django_default;
        cluster = none;
        deleted_column = false;
      };
      local_model_class = none;
    }

-- The rows of a migration, and those that `migration_qs` leaves.
pub matches : Text → Text → Row → Bool
matches app name row = same row.app app && same row.name name

pub in_qs : Connection → Row → Bool
in_qs c row = not c.is_clickhouse || not row.deleted

module _ {V : Server} where
  open V use {
    Store, rows, exists, update, create, delete, table_names, has_deleted_column,
    add_deleted_column, create_model,
  }

  -- The property Migration, with its cache.
  pub migration : Recorder V → Model × Recorder V
  unfolding make_model
  migration r = elim r.migration_class [
    | some m ↦ (m, r)
    | none ↦
        let replicas = check_replicas V r.connection r.store in
        let m = make_model r.connection replicas in
        if r.connection.is_clickhouse && should_distribute_migrations r.connection
        then (
          m,
          record r {
            connection = record (r.connection) { has_replicas = some replicas };
            migration_class = some m;
          },
        )
        else (m, record r { migration_class = some m })
  ]

  -- ALTER TABLE … ADD COLUMN IF NOT EXISTS deleted Bool, for a table of an older version.
  pub add_missing_column : Text → Recorder V → Recorder V
  add_missing_column table r =
      if r.known_table && r.connection.is_clickhouse && not (has_deleted_column table r.store)
      then record r { store = add_deleted_column table r.store }
      else r

  pub has_table : Recorder V → Bool × Recorder V
  unfolding migration add_missing_column
  has_table r =
      if r.known_table
      then (true, r)
      else (let (m, r1) = migration r in
          let present = table_in m.table.db_table (table_names r1.store) in
          let r2 = add_missing_column m.table.db_table (record r1 { known_table = present }) in
          (present, r2))

  -- editor.create_model(self.Migration), after the local model's table
  pub create_table : Table → Recorder V → Result × Recorder V
  create_table t r =
      let (created, d) = create_model t r.store in
      if created
      then (done, record r { store = d })
      else (migration_schema_missing, record r { store = d })

  pub create_tables : Model → Recorder V → Result × Recorder V
  unfolding create_table
  create_tables m r = elim m.local_model_class [
    | none ↦ create_table m.table r
    | some t ↦
        if table_in t.db_table (table_names r.store)
        then create_table m.table r
        else (let (result, r1) = create_table t r in
            elim result [
              | migration_schema_missing ↦ (migration_schema_missing, r1)
              | done ↦ create_table m.table r1
            ])
  ]

  pub ensure_schema : Recorder V → Result × Recorder V
  unfolding has_table create_tables migration
  ensure_schema r =
      let (present, r1) = has_table r in
      if present then (done, r1) else (let (m, r2) = migration r1 in create_tables m r2)

  pub after : Result × Recorder V → (Recorder V → Recorder V) → Result × Recorder V
  after (migration_schema_missing, r) next = (migration_schema_missing, r)
  after (done, r) next = (done, next r)

  pub insert_row : Text → Text → ℕ → Recorder V → Recorder V
  unfolding matches
  insert_row app name now r =
      if r.connection.is_clickhouse && exists (matches app name) r.store
      then record r {
        store = update (matches app name) (λ row. record row { deleted = false }) r.store;
      }
      else record r {
        store = create (record { app = app; name = name; applied = now; deleted = false }) r.store;
      }

  pub record_applied : Text → Text → ℕ → Recorder V → Result × Recorder V
  unfolding ensure_schema after insert_row
  record_applied app name now r = after (ensure_schema r) (insert_row app name now)

  pub remove_row : Text → Text → Recorder V → Recorder V
  unfolding matches in_qs
  remove_row app name r =
      if r.connection.is_clickhouse
      then record r {
        store =
            update (λ row. in_qs r.connection row && matches app name row)
              (λ row. record row { deleted = true }) r.store;
      }
      else record r { store = delete (matches app name) r.store }

  pub record_unapplied : Text → Text → Recorder V → Result × Recorder V
  unfolding ensure_schema after remove_row
  record_unapplied app name r = after (ensure_schema r) (remove_row app name)

  pub flush : Recorder V → Recorder V
  unfolding in_qs
  flush r = record r { store = delete (in_qs r.connection) r.store }

  -- Whether Django finds the migration among those of `migration_qs`.
  pub is_applied : Recorder V → Text → Text → Bool
  unfolding in_qs matches
  is_applied r app name = any (λ row. in_qs r.connection row && matches app name row) (rows r.store)
