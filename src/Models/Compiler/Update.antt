-- ===== src/Models/Compiler/Update.antt =====
-- SQLUpdateCompiler, SQLDeleteCompiler and SQLAggregateCompiler of
-- clickhouse_backend/models/sql/compiler.py. `qn` is Django's quote_name_unless_alias.
pub mod Counted
pub mod Placeholders
mod Examples
use django_clickhouse_backen.Prelude.{
  ℕ, zero, suc, ◌-◌, Bool, true, false, ◌||◌, Option, none, some, List, [], ◌∷◌, ◌++◌, map, length,
  Text, codes, starts_with, join, if◌then◌else◌,
}
use django_clickhouse_backen.Models.Fragments.{Fragment, text}
use django_clickhouse_backen.Models.Compiler.{
  Exception, empty_result_set, field_error, type_error, Outcome, done, raised, ◌>>=◌, is_empty,
  ExplainInfo, add_explain_sql, add_settings_sql,
}
use django_clickhouse_backen.Models.Compiler.Select.{Clause, sql, absent, empty_result, full_result}

-- The rest of s.replace(old, "") where so many characters of an occurrence are still to pass over.
pub replaced : Text → ℕ → Text → Text
replaced old skip [] = []
replaced old (suc skip) (c ∷ s) = replaced old skip s
replaced old zero (c ∷ s) =
    let passed = replaced old (length old - 1) s in
    let kept = replaced old zero s in if starts_with (c ∷ s) old then passed else c ∷ kept

-- where.replace(table + ".", "")
pub without_table : Text → Text → Text
unfolding replaced
without_table table s = replaced (table ++ codes ".") zero s

-- The value of a column. `expression` is a resolved one with its SQL and the flags
-- contains_aggregate and contains_over_clause, `instance` a model instance with the flag that the
-- field is a relation; the others have what get_db_prep_value gives, where none is None.
pub data Assigned (P : Type 0) : Type 0 where
  expression : Bool → Bool → Fragment P → Assigned P
  instance_value : Bool → Option P → Assigned P
  plain : Option P → Assigned P

-- `placeholder` is get_placeholder of the field, or "%s".
pub record Assignment (P : Type 0) : Type 0 where
  pub column : Text
  pub placeholder : Text
  pub value : Assigned P

pub record Distributed : Type 0 where
  pub cluster : Text
  pub table : Text

-- ALTER TABLE, for the local table of a Distributed one.
pub alter_table : (Text → Text) → Text → Option Distributed → Text
alter_table qn base_table none = codes "ALTER TABLE " ++ qn base_table
alter_table qn base_table (some d) =
    codes "ALTER TABLE " ++ (qn d.table ++ (codes " ON CLUSTER " ++ qn d.cluster))

-- The table of a query, with its engine where that is Distributed, and what the query adds.
pub record Target (P : Type 0) : Type 0 where
  pub base_table : Text
  pub engine : Option Distributed
  pub where_clause : Clause P
  pub known_settings : List Text
  pub setting_info : List (Text × P)

module _ {P : Type 0} where
  -- "TRUE" where there is no condition
  pub or_true : Text → Fragment P → Fragment P
  unfolding without_table
  or_true table (where_sql, params) =
      if is_empty where_sql then (codes "TRUE", params) else (without_table table where_sql, params)

  pub compile_where : Text → Clause P → Outcome (Fragment P)
  unfolding or_true
  compile_where table (sql f) = done (or_true table f)
  compile_where table absent = done (or_true table ([], []))
  compile_where table full_result = done (or_true table ([], []))
  compile_where table empty_result = raised empty_result_set

  pub prepared_sql : Text → Text → Option P → Fragment P
  prepared_sql name placeholder (some p) = (name ++ (codes " = " ++ placeholder), p ∷ [])
  prepared_sql name placeholder none = (name ++ codes " = NULL", [])

  -- One column of UPDATE, for its quoted name.
  pub assignment_sql : Text → Text → Assigned P → Outcome (Fragment P)
  unfolding prepared_sql
  assignment_sql name placeholder (expression aggregate window f) =
      if aggregate || window
      then raised field_error
      else (let formatted = text (λ s. s) (placeholder, f.0 ∷ []) in
          done (name ++ (codes " = " ++ formatted), f.1))
  assignment_sql name placeholder (instance_value relation prepared) =
      if relation then done (prepared_sql name placeholder prepared) else raised type_error
  assignment_sql name placeholder (plain prepared) = done (prepared_sql name placeholder prepared)

  -- values and update_params
  pub assignments_sql : (Text → Text) → List (Assignment P) → Outcome (List Text × List P)
  unfolding assignment_sql
  assignments_sql qn [] = done ([], [])
  assignments_sql qn (a ∷ others) = assignment_sql (qn a.column) a.placeholder a.value >>= λ f.
      assignments_sql qn others >>= λ r. done (f.0 ∷ r.0, f.1 ++ r.1)

  pub delete_as_sql : (Text → Text) → Target P → Outcome (Fragment P)
  unfolding compile_where alter_table
  delete_as_sql qn q = compile_where (qn q.base_table) q.where_clause >>= λ w.
      add_settings_sql q.known_settings q.setting_info
        (alter_table qn q.base_table q.engine ++ (codes " DELETE WHERE " ++ w.0), w.1)

  -- The statement of UPDATE, where there is something to set.
  pub update_sql : (Text → Text) → Target P → List Text → List P → Outcome (Fragment P)
  unfolding compile_where alter_table without_table
  update_sql qn q values update_params =
      let table = qn q.base_table in
      compile_where table q.where_clause >>= λ w. add_settings_sql q.known_settings q.setting_info (
        join (codes " ") (
            (alter_table qn q.base_table q.engine ++ codes " UPDATE")
            ∷ without_table table (join (codes ", ") values)
            ∷ (codes "WHERE " ++ w.0)
            ∷ []),
        update_params ++ w.1,
      )

  pub update_as_sql : (Text → Text) → Target P → List (Assignment P) → Outcome (Fragment P)
  unfolding assignments_sql update_sql
  update_as_sql qn q [] = done ([], [])
  update_as_sql qn q (a ∷ assignments) =
      assignments_sql qn (a ∷ assignments) >>= λ r. update_sql qn q r.0 r.1

  -- Django's SQL of an aggregate query, with what the query adds.
  pub aggregate_as_sql :
      List Text → List (Text × P) → Option ExplainInfo → Fragment P → Outcome (Fragment P)
  aggregate_as_sql known settings info f =
      add_settings_sql known settings f >>= λ g. add_explain_sql info g
