-- ===== src/Backend/Schema.antt =====
-- DatabaseSchemaEditor of clickhouse_backend/backend/schema.py: the statements it sends and the ones
-- it defers. Values and expressions are of a type V of their own.
pub mod Alter
pub mod Edit
pub mod Compare
mod Examples
use django_clickhouse_backen.Prelude.{
  Bool, true, false, not, ◌&&◌, ◌||◌, Option, none, some, List, [], ◌∷◌, ◌++◌, map, Text, codes,
  starts_with, join, if◌then◌else◌,
}
use django_clickhouse_backen.Backend.Operations.{quote_name}

-- A field, with db_type, `effective_default` and `check` of db_parameters. Where `db_type` is none
-- the field has no column.
pub record Field (V : Type 0) : Type 0 where
  pub column : Text
  pub db_type : Option Text
  pub null : Bool
  pub has_default : Bool
  pub default : Option V
  pub db_default : Option V
  pub db_comment : Text
  pub check : Option Text

-- `distributed` says that the engine is Distributed.
pub record Model : Type 0 where
  pub db_table : Text
  pub cluster : Option Text
  pub distributed : Bool

-- _get_on_cluster
pub on_cluster : Option Text → Bool → Text
on_cluster none sync = []
on_cluster (some []) sync = []
on_cluster (some (c ∷ name)) sync =
    let clause = codes "ON CLUSTER " ++ quote_name (c ∷ name) in
    if sync then clause ++ codes " SYNC" else clause

-- part in text
pub has_part : Text → Text → Bool
has_part part [] = starts_with [] part
has_part part (c ∷ s) = let rest = has_part part s in starts_with (c ∷ s) part || rest

-- "Nullable" in type
pub nullable : Text → Bool → Text
unfolding has_part
nullable type_name null =
    if null && not (has_part (codes "Nullable") type_name)
    then codes "Nullable(" ++ (type_name ++ codes ")")
    else type_name

-- What ALTER TABLE changes in a column: MODIFY COLUMN with a type and whether it is null, or with a
-- default and its values.
pub data Change (V : Type 0) : Type 0 where
  modify_type : Text → Text → Bool → Change V
  modify_default : Text → Text → List V → Change V
  remove_default : Text → Change V

pub data Ddl (V : Type 0) : Type 0 where
  drop_table : Text → Ddl V
  rename_table : Text → Text → Ddl V
  add_column : Text → Text → Text → List V → Ddl V
  drop_column : Text → Text → Ddl V
  rename_column : Text → Text → Text → Ddl V
  alter_column : Text → List (Change V) → Ddl V
  update_nulls : Text → Text → Text → List V → Ddl V
  update_rows : Text → Text → Text → List V → Ddl V
  add_constraint : Text → Text → Ddl V
  drop_constraint : Text → Text → Ddl V
  modify_comment : Text → Text → Ddl V

-- A statement with its ON CLUSTER.
pub record Sent (V : Type 0) : Type 0 where
  pub cluster : Text
  pub ddl : Ddl V

-- ALTER TABLE %(table)s %(on_cluster)s and what follows
pub alter_sql : Text → Text → Text → Text
alter_sql cluster table rest =
    codes "ALTER TABLE " ++ (quote_name table ++ (codes " " ++ (cluster ++ (codes " " ++ rest))))

pub update_sql : Text → Text → Text → Text
update_sql column default condition =
    codes "UPDATE "
    ++ (quote_name column
        ++ (codes " = "
            ++ (default ++ (codes " WHERE " ++ (condition ++ codes " SETTINGS mutations_sync=1")))))

module _ {V : Type 0} where
  pub change_sql : Change V → Text
  unfolding nullable
  change_sql (modify_type column type_name null) =
      codes "MODIFY COLUMN " ++ (quote_name column ++ (codes " " ++ nullable type_name null))
  change_sql (modify_default column default values) =
      codes "MODIFY COLUMN " ++ (quote_name column ++ (codes " DEFAULT " ++ default))
  change_sql (remove_default column) =
      codes "MODIFY COLUMN " ++ (quote_name column ++ codes " REMOVE DEFAULT")

  -- The sql_ templates, filled.
  pub ddl_sql : Sent V → Text
  unfolding change_sql alter_sql update_sql
  ddl_sql s = elim s.ddl [
    | drop_table table ↦ codes "DROP TABLE " ++ (quote_name table ++ (codes " " ++ s.cluster))
    | rename_table old_table new_table ↦
        codes "RENAME TABLE "
        ++ (quote_name old_table
            ++ (codes " TO " ++ (quote_name new_table ++ (codes " " ++ s.cluster))))
    | add_column table column definition values ↦
        alter_sql s.cluster table
          (codes "ADD COLUMN " ++ (quote_name column ++ (codes " " ++ definition)))
    | drop_column table column ↦
        alter_sql s.cluster table (codes "DROP COLUMN " ++ quote_name column)
    | rename_column table old_column new_column ↦ alter_sql s.cluster table (
        codes "RENAME COLUMN "
        ++ (quote_name old_column ++ (codes " TO " ++ quote_name new_column)))
    | alter_column table changes ↦
        alter_sql s.cluster table (join (codes ", ") (map change_sql changes))
    | update_nulls table column default values ↦
        alter_sql s.cluster table
          (update_sql column default (quote_name column ++ codes " IS NULL"))
    | update_rows table column default values ↦
        alter_sql s.cluster table (update_sql column default (codes "1"))
    | add_constraint table constraint ↦ alter_sql s.cluster table (codes "ADD " ++ constraint)
    | drop_constraint table name ↦
        alter_sql s.cluster table (codes "DROP CONSTRAINT " ++ quote_name name)
    | modify_comment table comment ↦ alter_sql s.cluster table (codes "MODIFY COMMENT " ++ comment)
  ]

  -- _column_check_name and _column_check_sql, where CONSTRAINT ... CHECK is Django's template
  pub column_check_name : Field V → Text
  column_check_name f = codes "_check_" ++ f.column

  pub column_check_sql : (Text → Text → Text) → Field V → Option Text
  unfolding column_check_name
  column_check_sql check_sql f = elim f.check [
    | none ↦ none
    | some check ↦ some (check_sql (column_check_name f) check)
  ]

  -- The DEFAULT of a column of such a type.
  pub default_sql : (V → Text × List V) → Bool → Text → Field V → Text × List V
  default_sql db_default_sql include_default typed f = elim f.db_default [
    | some d ↦ (typed ++ (codes " DEFAULT " ++ (db_default_sql d).0), (db_default_sql d).1)
    | none ↦ elim f.default [
      | none ↦ (typed, [])
      | some v ↦ if include_default then (typed ++ codes " DEFAULT %s", v ∷ []) else (typed, [])
    ]
  ]

  pub comment_sql : (Text → V) → Text → Text × List V → Text × List V
  comment_sql comment [] f = f
  comment_sql comment (c ∷ t) f = (f.0 ++ codes " COMMENT %s", f.1 ++ (comment (c ∷ t) ∷ []))

  -- column_sql, for the SQL of a default of the database and the value of a comment.
  pub column_sql : (V → Text × List V) → (Text → V) → Field V → Bool → Option (Text × List V)
  unfolding nullable default_sql comment_sql
  column_sql db_default_sql comment f include_default = elim f.db_type [
    | none ↦ none
    | some type_name ↦ some (
        comment_sql comment f.db_comment
          (default_sql db_default_sql include_default (nullable type_name f.null) f))
  ]
