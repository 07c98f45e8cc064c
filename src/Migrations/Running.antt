-- ===== src/Migrations/Running.antt =====
-- Migration.apply and Migration.unapply of patch/migrations.py. Django's project states, the
-- operations of a migration and the database are parameters. A call gives the state of the schema
-- editor after it also where it raises.
pub mod Forwards
pub mod Undo
mod Examples
use django_clickhouse_backen.Prelude.{
  ℕ, Bool, true, false, not, ◌&&◌, ◌==◌, Option, none, some, List, [], ◌∷◌, ◌++◌, length, Text,
  codes, if◌then◌else◌,
}
use django_clickhouse_backen.Migrations.Connection.{Connection, is_set, get_model_table_name}

-- `cluster_of` is `state.models[app, name].options.get("cluster")`, with `none` for a KeyError.
-- `exists_on_replicas` answers the query on clusterAllReplicas for cluster, table, app, name and
-- the value of `deleted`.
pub record Django : Type 1 where
  pub State : Type 0
  pub Database : Type 0
  pub cluster_of : State → Text → Text → Option (Option Text)
  pub exists_on_replicas : Text → Text → Text → Text → Bool → Database → Bool

pub data Error : Type 0 where
  key_error irreversible_error : Error
  failed : Text → Error

pub data Result (A : Type 0) : Type 0 where
  ok : A → Result A
  raised : Error → Result A

-- The class of an operation, with its `model_name_lower` or `name_lower`.
pub data Kind : Type 0 where
  on_index_or_field : Text → Kind
  rename_or_delete_model : Text → Kind
  on_model : Text → Kind
  without_model : Kind

abbrev pub model_name : Kind → Text
model_name (on_index_or_field n) = n
model_name (rename_or_delete_model n) = n
model_name (on_model n) = n
model_name without_model = []

-- The state in which the model of the operation is looked up.
pub state_of_model : {S : Type 0} → Kind → S → S → S
state_of_model (rename_or_delete_model n) old new = old
state_of_model (on_index_or_field n) old new = new
state_of_model (on_model n) old new = new
state_of_model without_model old new = new

module _ (J : Django) where
  open J use {State, Database, cluster_of}

  pub record Editor : Type 0 where
    pub collected_sql : List Text
    pub database : Database

  -- Operations of `database` take the app's label, the state before and the state after.
  pub record Operation : Type 0 where
    pub kind : Kind
    pub describe : Text
    pub reduces_to_sql : Bool
    pub reversible : Bool
    pub state_forwards : Text → State → State
    pub database_forwards : Text → State → State → Editor → Option Error × Editor
    pub database_backwards : Text → State → State → Editor → Option Error × Editor

  pub record Migration : Type 0 where
    pub app_label : Text
    pub name : Text
    pub operations : List Operation

  -- Whether a node of the cluster did it already.
  pub skips : Text → Bool → Kind → State → State → Result Bool
  unfolding state_of_model
  skips app on_remote kind old new = elim (model_name kind) [
    | [] ↦ ok false
    | c ∷ t ↦ elim (cluster_of (state_of_model kind old new) app (c ∷ t)) [
      | none ↦ raised key_error
      | some cluster ↦ ok (is_set cluster && on_remote)
    ]
  ]

  -- An operation with the states before and after it.
  pub record Step : Type 0 where
    pub operation : Operation
    pub before : State
    pub after : State

module _ {J : Django} where
  open J use {State, Database, exists_on_replicas}

  -- schema_editor.collected_sql.append(line)
  pub collect : Text → Editor J → Editor J
  collect line e = record e { collected_sql = e.collected_sql ++ (line ∷ []) }

  pub announce : Operation J → Editor J → Editor J
  unfolding collect
  announce op e =
      collect (codes "--") (collect (codes "-- " ++ op.describe) (collect (codes "--") e))

  pub note_no_op : Bool → ℕ → Editor J → Editor J
  unfolding collect
  note_no_op collect_sql before e =
      if collect_sql && before == length e.collected_sql then collect (codes "-- (no-op)") e else e

  -- The work on the database, unless it is skipped.
  pub guarded :
      Result Bool → (Editor J → Option Error × Editor J) → Editor J → Option Error × Editor J
  guarded (raised x) work e = (some x, e)
  guarded (ok true) work e = (none, e)
  guarded (ok false) work e = work e

  -- The loop of `apply`.
  pub forwards :
      Text → Bool → Bool → List (Operation J) → State → Editor J → Result State × Editor J
  unfolding announce note_no_op skips guarded collect
  forwards app on_remote collect_sql [] state e = (ok state, e)
  forwards app on_remote collect_sql (op ∷ ops) state e =
      let rest = forwards app on_remote collect_sql ops in
      let e1 = if collect_sql then announce op e else e in
      if collect_sql && not op.reduces_to_sql
      then rest state (collect (codes "-- THIS OPERATION CANNOT BE WRITTEN AS SQL") e1)
      else (let new = op.state_forwards app state in
          let (failure, e2) =
            guarded (skips J app on_remote op.kind state new) (op.database_forwards app state new)
              e1 in
          elim failure [
            | some x ↦ (raised x, e2)
            | none ↦ rest new (note_no_op collect_sql (length e1.collected_sql) e2)
          ])

  -- The answer of the query, which is made where a cluster is set.
  pub on_remote : Connection → Migration J → Bool → Editor J → Bool
  on_remote c m deleted e = elim c.migration_cluster [
    | none ↦ false
    | some [] ↦ false
    | some (x ∷ t) ↦
        exists_on_replicas (x ∷ t) (get_model_table_name c) m.app_label m.name deleted e.database
  ]

  pub apply : Connection → Migration J → State → Bool → Editor J → Result State × Editor J
  unfolding forwards on_remote
  apply c m state collect_sql e =
      forwards m.app_label (on_remote c m false e) collect_sql m.operations state e

  -- The first phase of `unapply`, with what is to run so far.
  pub preserve : Text → List (Operation J) → State → List (Step J) → Result (List (Step J))
  preserve app [] state to_run = ok to_run
  preserve app (op ∷ ops) state to_run =
      let new = op.state_forwards app state in
      let rest =
        preserve app ops new (record { operation = op; before = state; after = new } ∷ to_run) in
      if op.reversible then rest else raised irreversible_error

  -- The second phase.
  pub backwards : Text → Bool → Bool → List (Step J) → Editor J → Option Error × Editor J
  unfolding announce note_no_op skips guarded collect
  backwards app on_remote collect_sql [] e = (none, e)
  backwards app on_remote collect_sql (s ∷ steps) e =
      let op = s.operation in
      let rest = backwards app on_remote collect_sql steps in
      let e1 = if collect_sql then announce op e else e in
      if collect_sql && not op.reduces_to_sql
      then rest (collect (codes "-- THIS OPERATION CANNOT BE WRITTEN AS SQL") e1)
      else (let (failure, e2) =
            guarded (skips J app on_remote op.kind s.before s.after)
              (op.database_backwards app s.after s.before) e1 in
          elim failure [
            | some x ↦ (some x, e2)
            | none ↦ rest (note_no_op collect_sql (length e1.collected_sql) e2)
          ])

  pub unapply : Connection → Migration J → State → Bool → Editor J → Result State × Editor J
  unfolding preserve backwards on_remote
  unapply c m state collect_sql e = elim (preserve m.app_label m.operations state []) [
    | raised x ↦ (raised x, e)
    | ok steps ↦
        let (failure, e1) = backwards m.app_label (on_remote c m true e) collect_sql steps e in
        elim failure [ some x ↦ (raised x, e1) | none ↦ (ok state, e1) ]
  ]
