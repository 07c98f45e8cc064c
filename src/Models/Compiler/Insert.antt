-- ===== src/Models/Compiler/Insert.antt =====
-- SQLInsertCompiler.as_sql of clickhouse_backend/models/sql/compiler.py. Fields and objects are
-- Django's, and so are the functions of `Given`.
pub mod Fields
pub mod Keys
pub mod Rows
mod Examples
use django_clickhouse_backen.Prelude.{
  ℕ, Bool, true, false, not, ◌&&◌, ◌||◌, Option, none, some, List, [], ◌∷◌, ◌++◌, map, any, all,
  filter, length, ltb, Text, codes, same, join, if◌then◌else◌,
}
use django_clickhouse_backen.Prelude.Int.{ℤ}
use django_clickhouse_backen.Snowflake.{Clock, Worker, get_id, issued}
use django_clickhouse_backen.Snowflake
use django_clickhouse_backen.Backend.Operations.{quote_name, settings_sql}
use django_clickhouse_backen.Models.Fragments.{Fragment, text}
use django_clickhouse_backen.Models.Compiler.{
  Exception, type_error, invalid_system_clock, waiting, Outcome, done, raised, ◌>>=◌, of_result,
}

abbrev pub max_rows_insert_use_expression : ℕ
max_rows_insert_use_expression = 1000

pub record Field : Type 0 where
  pub column : Text
  pub has_db_default : Bool

-- What goes to the cursor: rows of data, or the values for the placeholders.
pub data Params (V : Type 0) : Type 0 where
  rows : List (List V) → Params V
  values : List V → Params V

-- `prepared` is prepare_value(field, pre_save_val(field, obj)), `is_default` says that a value is a
-- DatabaseDefault, `set_pk` is the setattr of the primary key, `assemble` is assemble_as_sql and
-- `map_object` is what Python writes for a map object.
pub record Given (O V : Type 0) : Type 0 where
  pub is_default : V → Bool
  pub prepared : Field → O → V
  pub set_pk : O → ℤ → O
  pub assemble : List Field → List (List V) → List (List Text) × List (List V)
  pub map_object : Text

-- The query and its model; `pk_auto` says that the key is an AutoField.
pub record Insert (O V : Type 0) : Type 0 where
  pub statement : Text
  pub table : Text
  pub pk : Field
  pub pk_auto : Bool
  pub fields : List Field
  pub objs : List O
  pub known_settings : List Text
  pub setting_info : List (Text × V)

-- if not fields: fields.append(db_default_fields[0])
pub or_first : List Field → List Field → List Field
or_first [] [] = []
or_first [] (f ∷ fs) = f ∷ []
or_first (g ∷ gs) fs = g ∷ gs

pub insert_header : Text → Text → List Field → Text
insert_header statement table fields =
    statement
    ++ (codes " "
        ++ (quote_name table
            ++ (codes "("
                ++ (join (codes ", ") (map (λ f. quote_name f.column) fields) ++ codes ")"))))

-- itertools.chain.from_iterable
pub concat : {V : Type 0} → List (List V) → List V
concat [] = []
concat (r ∷ rs) = r ++ concat rs

pub has_expression : List (List Text) → Bool
unfolding concat
has_expression placeholder_rows = any (λ i. not (same i (codes "%s"))) (concat placeholder_rows)

pub values_sql : List (List Text) → Text
values_sql placeholder_rows =
    codes "VALUES "
    ++ join (codes ", ")
        (map (λ row. codes "(" ++ (join (codes ", ") row ++ codes ")")) placeholder_rows)

-- setting_sql % map(quote_value, setting_params): `%` takes the map object for its one value, so it
-- writes the object's text for one setting and has too few values for more.
pub insert_settings : {V : Type 0} → Text → List Text → List (Text × V) → Outcome (List Text)
insert_settings {V} map_object known [] = done []
insert_settings {V} map_object known (s ∷ []) = of_result (settings_sql known (s ∷ [])) >>= λ r.
    let put : V → Text = λ v. map_object in done (text put (text put r, []) ∷ [])
insert_settings {V} map_object known (s ∷ t ∷ settings) =
    of_result (settings_sql known (s ∷ t ∷ settings)) >>= λ r. raised type_error

module _ {O V : Type 0} (given : Given O V) where
  -- The fields with a default of the database that some object gives a value.
  pub given_fields : List O → List Field → List Field
  given_fields objs fields =
      filter (λ f. not (all (λ o. given.is_default (given.prepared f o)) objs)) fields

  pub first_given_fields : List O → List Field → List Field
  first_given_fields [] fields = []
  first_given_fields (o ∷ objs) fields =
      filter (λ f. not (given.is_default (given.prepared f o))) fields

  pub insert_fields : List O → List Field → List Field
  unfolding given_fields first_given_fields or_first
  insert_fields objs fields =
      let db_default_fields = filter (λ f. f.has_db_default) fields in
      let other_fields = filter (λ f. not f.has_db_default) fields in
      if any (λ f. f.has_db_default) fields
      then (if ltb max_rows_insert_use_expression (length objs)
          then other_fields ++ first_given_fields objs db_default_fields
          else or_first (other_fields ++ given_fields objs db_default_fields) db_default_fields)
      else fields

  -- setattr(obj, pk, id_worker.get_id()), before the objects that are left
  pub set_key : O → Snowflake.Outcome → Outcome (List O) → Outcome (List O)
  set_key o (issued id) rest = rest >>= λ others. done (given.set_pk o id ∷ others)
  set_key o Snowflake.invalid_system_clock rest = raised invalid_system_clock
  set_key o Snowflake.waiting rest = raised waiting

  -- The worker and its clock go along.
  pub stamp : Clock → ℕ → List O → Worker → ℕ → Outcome (List O)
  unfolding set_key
  stamp clock fuel [] w at = done []
  stamp clock fuel (o ∷ objs) w at =
      let (outcome, w', at') = get_id clock fuel w at in
      set_key o outcome (stamp clock fuel objs w' at')

  pub value_rows : List Field → List O → List (List V)
  value_rows fields objs = map (λ o. map (λ f. given.prepared f o) fields) objs

  pub insert_values : List Field → List (List V) → Text × Params V
  unfolding concat has_expression values_sql
  insert_values fields vs =
      let (placeholder_rows, param_rows) = given.assemble fields vs in
      if ltb max_rows_insert_use_expression (length vs)
      then (codes "VALUES", rows vs)
      else if has_expression placeholder_rows
      then (values_sql placeholder_rows, values (concat param_rows))
      else (codes "VALUES", rows param_rows)

  -- The statement, for objects that have their keys.
  pub insert_sql : Insert O V → List Field → List O → Outcome (Text × Params V)
  unfolding insert_fields insert_header insert_settings insert_values value_rows
  insert_sql q fields objs =
      let kept = insert_fields objs fields in
      insert_settings given.map_object q.known_settings q.setting_info >>= λ set.
      let (sql, params) = insert_values kept (value_rows kept objs) in
      done (join (codes " ") (insert_header q.statement q.table kept ∷ (set ++ (sql ∷ []))), params)

  pub absent_of_pk : Insert O V → Bool
  absent_of_pk q = q.pk_auto && not (any (λ f. same f.column q.pk.column) q.fields)

  pub as_sql : Clock → ℕ → Worker → ℕ → Insert O V → Outcome (Text × Params V)
  unfolding absent_of_pk stamp insert_sql
  as_sql clock fuel w at q =
      if absent_of_pk q
      then (stamp clock fuel q.objs w at >>= λ objs. insert_sql q (q.fields ++ (q.pk ∷ [])) objs)
      else insert_sql q q.fields q.objs
