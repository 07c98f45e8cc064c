-- ===== src/Backend/Schema/Alter.antt =====
-- _alter_field of clickhouse_backend/backend/schema.py.
pub mod Order
pub mod Unchanged
use django_clickhouse_backen.Prelude.{
  Bool, true, false, not, ◌&&◌, ◌||◌, Option, none, some, List, [], ◌∷◌, ◌++◌, map, Text, codes,
  same, if◌then◌else◌,
}
use django_clickhouse_backen.Backend.Schema.{
  Field, Model, on_cluster, nullable, Change, modify_type, modify_default, remove_default, Ddl,
  rename_column, alter_column, update_nulls, add_constraint, drop_constraint, Sent,
  column_check_name, column_check_sql,
}

-- The other end of a relation, whose column follows the type of a key.
pub record Related (V : Type 0) : Type 0 where
  pub db_table : Text
  pub field : Field V
  pub other_actions : List (Ddl V)

pub same_option : Option Text → Option Text → Bool
same_option none none = true
same_option none (some t) = false
same_option (some s) none = false
same_option (some s) (some t) = same s t

pub given : Option Text → Text
given none = []
given (some t) = t

-- What Django does here: the comparison of values, the SQL of a default of the database and of a
-- constraint, Python's None, and the statements that _alter_column_type_sql leaves for later. `rels_to_update` is
-- what _related_non_m2m_objects gives where a primary key changes.
pub record Django (V : Type 0) : Type 0 where
  pub same_value : V → V → Bool
  pub db_default_sql : V → Text × List V
  pub check_sql : Text → Text → Text
  pub none_value : V
  pub other_actions : List (Ddl V)
  pub rels_to_update : List (Related V)

module _ {V : Type 0} (django : Django V) where
  -- field.db_type, with null
  pub column_type : Field V → Text
  unfolding nullable given
  column_type f = nullable (given f.db_type) f.null

  pub has_db_default : Field V → Bool
  has_db_default f = elim f.db_default [ none ↦ false | some d ↦ true ]

  pub same_default : Option V → Option V → Bool
  same_default none none = true
  same_default none (some w) = false
  same_default (some v) none = false
  same_default (some v) (some w) = django.same_value v w

  unfoldable pub four_way_default_alteration : Field V → Field V → Bool
  unfolding has_db_default
  four_way_default_alteration old new =
      (new.has_default || has_db_default new) && (old.null && not new.null)

  -- Type or comment change? The type stays nullable until the nulls are updated.
  pub type_actions : Field V → Field V → List (Change V)
  unfolding column_type four_way_default_alteration given
  type_actions old new =
      if not (same (column_type old) (column_type new)) || not (same old.db_comment new.db_comment)
      then modify_type new.column (given new.db_type)
          (four_way_default_alteration old new || new.null)
        ∷ []
      else []

  pub database_default : Field V → V → Change V
  database_default new d =
      modify_default new.column (django.db_default_sql d).0 (django.db_default_sql d).1

  pub db_default_actions : Text → Field V → Option V → Option V → List (Change V)
  unfolding database_default
  db_default_actions column new old_default (some d) =
      if elim old_default [ none ↦ true | some o ↦ not (django.same_value d o) ]
      then database_default new d ∷ []
      else []
  db_default_actions column new none none = []
  db_default_actions column new (some o) none = remove_default column ∷ []

  -- needs_database_default, with the new default
  pub needs_database_default : Field V → Field V → Option V
  unfolding has_db_default same_default
  needs_database_default old new =
      if old.null
        && not new.null
        && not (has_db_default new)
        && not (same_default old.default new.default)
      then new.default
      else none

  pub default_actions : Text → Option V → List (Change V)
  default_actions column none = []
  default_actions column (some v) = modify_default column (codes "%s") (v ∷ []) ∷ []

  pub actions : Field V → Field V → List (Change V)
  unfolding type_actions db_default_actions needs_database_default default_actions
  actions old new =
      type_actions old new
      ++ (db_default_actions new.column new old.db_default new.db_default
          ++ default_actions new.column (needs_database_default old new))

  pub alter_actions : Text → List (Change V) → List (Ddl V)
  alter_actions table [] = []
  alter_actions table (c ∷ changes) = alter_column table (c ∷ changes) ∷ []

  -- The new default, and its values
  pub null_value : Option V → Option V → Text × List V
  null_value (some d) default = django.db_default_sql d
  null_value none (some v) = (codes "%s", v ∷ [])
  null_value none none = (codes "%s", django.none_value ∷ [])

  -- Nulls are updated where the table stores rows, then NOT NULL is set.
  pub null_actions : Model → Field V → Field V → List (Ddl V)
  unfolding four_way_default_alteration null_value given
  null_actions m old new =
      let value = null_value new.db_default new.default in
      let not_null =
        alter_column m.db_table (modify_type new.column (given new.db_type) new.null ∷ []) in
      if four_way_default_alteration old new
      then (if m.distributed
          then not_null ∷ []
          else update_nulls m.db_table new.column value.0 value.1 ∷ not_null ∷ [])
      else []

  pub check_changed : Field V → Field V → Bool
  unfolding same_option
  check_changed old new = not (same_option old.check new.check) || not (same old.column new.column)

  -- The statement about a check, where there is one and it has changed.
  pub when_changed : Bool → Option Text → (Text → Ddl V) → List (Ddl V)
  when_changed changed none statement = []
  when_changed changed (some check) statement = if changed then statement check ∷ [] else []

  pub drop_checks : Model → Field V → Field V → List (Ddl V)
  unfolding check_changed column_check_name when_changed
  drop_checks m old new =
      when_changed (check_changed old new) old.check
        (λ check. drop_constraint m.db_table (column_check_name old))

  pub add_checks : Model → Field V → Field V → List (Ddl V)
  unfolding check_changed column_check_sql when_changed
  add_checks m old new =
      when_changed (check_changed old new) (column_check_sql django.check_sql new)
        (λ check. add_constraint m.db_table check)

  pub renames : Model → Field V → Field V → List (Ddl V)
  renames m old new =
      if same old.column new.column then [] else rename_column m.db_table old.column new.column ∷ []

  pub related_actions : List (Related V) → List (Ddl V)
  unfolding given
  related_actions [] = []
  related_actions (r ∷ rels) =
      alter_column r.db_table (modify_type r.field.column (given r.field.db_type) r.field.null ∷ [])
      ∷ (r.other_actions ++ related_actions rels)

  pub drop_defaults : Text → Text → Option V → List (Ddl V)
  drop_defaults table column none = []
  drop_defaults table column (some v) = alter_column table (remove_default column ∷ []) ∷ []

  unfoldable pub alter_statements : Model → Field V → Field V → List (Ddl V)
  unfolding drop_checks renames actions alter_actions null_actions related_actions add_checks
      drop_defaults
  alter_statements m old new =
      drop_checks m old new
      ++ (renames m old new
          ++ (alter_actions m.db_table (actions old new)
              ++ (null_actions m old new
                  ++ (django.other_actions
                      ++ (related_actions django.rels_to_update
                          ++ (add_checks m old new
                              ++ drop_defaults m.db_table new.column
                                  (needs_database_default old new)))))))

  -- _alter_field, with ON CLUSTER of the model on every statement.
  pub alter_field : Model → Field V → Field V → List (Sent V)
  unfolding alter_statements on_cluster
  alter_field m old new =
      map (λ d. record { cluster = on_cluster m.cluster false; ddl = d })
        (alter_statements m old new)
