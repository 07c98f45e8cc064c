-- ===== src/Backend/Schema/Edit.antt =====
-- The methods of DatabaseSchemaEditor in clickhouse_backend/backend/schema.py that edit tables and
-- columns. A deferred statement is of a type S of Django's, with its references, or a text.
pub mod Forgets
use django_clickhouse_backen.Prelude.{
  Bool, true, false, not, ◌&&◌, Option, none, some, List, [], ◌∷◌, ◌++◌, map, filter, Text, codes,
  same, if◌then◌else◌,
}
use django_clickhouse_backen.Models.Compiler.{Outcome, done, raised, type_error}
use django_clickhouse_backen.Backend.Operations.{quote_name}
use django_clickhouse_backen.Backend.Schema.{
  Field, Model, on_cluster, alter_sql, Ddl, drop_table, rename_table, add_column, drop_column,
  update_rows, drop_constraint, modify_comment, Sent, column_sql, column_check_sql,
  column_check_name,
}
use django_clickhouse_backen.Backend.Schema.Alter.{Django, alter_field}

pub data Deferred (S : Type 0) : Type 0 where
  statement : S → Deferred S
  plain : Text → Deferred S

-- isinstance(sql, Statement) and the test
pub is_statement : {S : Type 0} → (S → Bool) → Deferred S → Bool
is_statement test (statement s) = test s
is_statement test (plain t) = false

pub renamed : {S : Type 0} → (S → S) → Deferred S → Deferred S
renamed rename (statement s) = statement (rename s)
renamed rename (plain t) = plain t

-- What was executed, in order, and deferred_sql.
pub record Editor (S V : Type 0) : Type 0 where
  pub executed : List (Sent V)
  pub deferred_sql : List (Deferred S)

-- references_table, references_column, rename_table_references and rename_column_references
pub record References (S : Type 0) : Type 0 where
  pub table : Text → S → Bool
  pub column : Text → Text → S → Bool
  pub rename_table : Text → Text → S → S
  pub rename_column : Text → Text → Text → S → S

module _ {S V : Type 0} (references : References S) where
  pub execute : Model → Ddl V → Editor S V → Editor S V
  execute m d e =
      let sent : Sent V = record { cluster = on_cluster m.cluster false; ddl = d } in
      record e { executed = e.executed ++ (sent ∷ []) }

  pub remove_deferred : (S → Bool) → Editor S V → Editor S V
  unfolding is_statement
  remove_deferred test e = record e {
    deferred_sql = filter (λ d. not (is_statement test d)) e.deferred_sql;
  }

  pub delete_table : Model → Editor S V → Editor S V
  unfolding execute remove_deferred
  delete_table m e =
      remove_deferred (references.table m.db_table) (execute m (drop_table m.db_table) e)

  -- The tables of the relations that Django made come first.
  unfoldable pub delete_model : List Model → Model → Editor S V → Editor S V
  unfolding delete_table
  delete_model [] m e = delete_table m e
  delete_model (through ∷ others) m e = delete_model others m (delete_table through e)

  pub alter_db_table : Model → Text → Text → Editor S V → Editor S V
  unfolding execute renamed
  alter_db_table m old_db_table new_db_table e =
      let sent = execute m (Ddl.rename_table old_db_table new_db_table) e in
      if same old_db_table new_db_table then e else record sent {
        deferred_sql =
            map (renamed (references.rename_table old_db_table new_db_table)) e.deferred_sql;
      }

  pub alter_db_table_comment : (Text → Text) → Model → Text → Editor S V → Editor S V
  unfolding execute
  alter_db_table_comment quote_value m comment e =
      execute m (modify_comment m.db_table (quote_value comment)) e

  pub delete_check : Model → Field V → Option Text → Editor S V → Editor S V
  unfolding execute
  delete_check m f none e = e
  delete_check m f (some check) e = execute m (drop_constraint m.db_table (column_check_name f)) e

  pub remove_column : Model → Field V → Editor S V → Editor S V
  unfolding execute remove_deferred delete_check
  remove_column m f e =
      remove_deferred (references.column m.db_table f.column)
        (delete_check m f f.check (execute m (drop_column m.db_table f.column) e))

  -- Without a type the field has no column.
  pub with_column : Option Text → Editor S V → Editor S V → Editor S V
  with_column none unchanged edited = unchanged
  with_column (some t) unchanged edited = edited

  -- `through` is the table of a relation that Django made.
  pub remove_field : Option Model → Model → Field V → Editor S V → Editor S V
  unfolding delete_model remove_column with_column
  remove_field (some through) m f e = delete_model [] through e
  remove_field none m f e = with_column f.db_type e (remove_column m f e)

  -- The constraint of a new column waits; its statement has its text already.
  pub defer_check : Model → Option Text → Editor S V → Editor S V
  defer_check m none e = e
  defer_check m (some check) e =
      let text = alter_sql (on_cluster m.cluster false) m.db_table (codes "ADD " ++ check) in
      record e { deferred_sql = e.deferred_sql ++ (plain text ∷ []) }

  pub add_default : Model → Field V → Editor S V → Editor S V
  unfolding execute
  add_default m f e = elim f.db_default [
    | some d ↦ e
    | none ↦ elim f.default [
      | none ↦ e
      | some v ↦
          if m.distributed
          then e
          else execute m (update_rows m.db_table f.column (codes "%s") (v ∷ [])) e
    ]
  ]

  -- A relation's table is made by Django's create_model.
  pub add_field :
      Django V
      → (Text → V)
      → (Model → Editor S V → Editor S V)
      → Option Model
      → Model
      → Field V
      → Editor S V
      → Editor S V
  unfolding execute defer_check add_default
  add_field django comment create_model (some through) m f e = create_model through e
  add_field django comment create_model none m f e =
      elim (column_sql django.db_default_sql comment f false) [
        | none ↦ e
        | some (definition, values) ↦ add_default m f (
            execute m (add_column m.db_table f.column definition values)
              (defer_check m (column_check_sql django.check_sql f) e))
      ]

  -- _alter_field with its effect on the deferred statements.
  pub alter_column : Django V → Model → Field V → Field V → Editor S V → Editor S V
  unfolding renamed
  alter_column django m old new e =
      let sent = record e { executed = e.executed ++ alter_field django m old new } in
      if same old.column new.column then sent else record sent {
        deferred_sql =
            map (renamed (references.rename_column m.db_table old.column new.column))
              e.deferred_sql;
      }

  -- add_constraint and remove_constraint, for the SQL of the constraint
  pub edit_constraint : Model → Option (Ddl V) → Editor S V → Outcome (Editor S V)
  unfolding execute
  edit_constraint m none e = if m.distributed then raised type_error else done e
  edit_constraint m (some d) e = if m.distributed then raised type_error else done (execute m d e)
