-- ===== src/Migrations/Running/Forwards.antt =====
-- What `apply` does to the project state and to the database, against a plain run of the steps.
use django_clickhouse_backen.Prelude.{
  ℕ, ◌≡◌, ◌↔◌, ◌&&◌, refl, Bool, true, false, Option, none, some, List, [], ◌∷◌, Text, arith,
}
use django_clickhouse_backen.Migrations.Connection.{Connection, is_set, get_model_table_name}
use django_clickhouse_backen.Migrations.Running.{
  Django, Error, Result, ok, raised, Operation, Editor, Migration, Step, Kind, on_index_or_field,
  rename_or_delete_model, on_model, without_model, key_error, state_of_model, skips, guarded,
  forwards, on_remote, apply, note_no_op,
}

-- What becomes of a step: whether it is left out, or what it raises
pub left_out : Bool → Option (Option (Option Text)) → Result Bool
left_out done none = ok false
left_out done (some none) = raised key_error
left_out done (some (some none)) = ok false
left_out done (some (some (some []))) = ok false
left_out done (some (some (some (c ∷ t)))) = ok done

named-left_out :
    (done : Bool) (o : Option (Option Text))
    → (elim o [ none ↦ raised key_error | some cluster ↦ ok (is_set cluster && done) ])
      ≡ left_out done (some o)
unfolding left_out
named-left_out done none = refl
named-left_out done (some none) = refl
named-left_out done (some (some [])) = refl
named-left_out done (some (some (c ∷ t))) = refl

module _ (J : Django) where
  open J use {State, cluster_of}

  -- The options of the model that a step is on, by its cluster: that before the step for a model that
  -- is renamed or deleted, and that after it for all else. `none` where the step is on no model, and
  -- `some none` where the state has no such model.
  pub options_of : Text → Kind → State → State → Option (Option (Option Text))
  options_of app (rename_or_delete_model (c ∷ t)) before after =
      some (cluster_of before app (c ∷ t))
  options_of app (on_index_or_field (c ∷ t)) before after = some (cluster_of after app (c ∷ t))
  options_of app (on_model (c ∷ t)) before after = some (cluster_of after app (c ∷ t))
  options_of app (rename_or_delete_model []) before after = none
  options_of app (on_index_or_field []) before after = none
  options_of app (on_model []) before after = none
  options_of app without_model before after = none

  skips-left_out :
      (app : Text) (done : Bool) (k : Kind) (old new : State)
      → skips J app done k old new ≡ left_out done (options_of app k old new)
  unfolding skips left_out options_of state_of_model
  skips-left_out app done (rename_or_delete_model (c ∷ t)) old new =
      named-left_out done (cluster_of old app (c ∷ t))
  skips-left_out app done (on_index_or_field (c ∷ t)) old new =
      named-left_out done (cluster_of new app (c ∷ t))
  skips-left_out app done (on_model (c ∷ t)) old new =
      named-left_out done (cluster_of new app (c ∷ t))
  skips-left_out app done (rename_or_delete_model []) old new = refl
  skips-left_out app done (on_index_or_field []) old new = refl
  skips-left_out app done (on_model []) old new = refl
  skips-left_out app done without_model old new = refl

module _ {J : Django} where
  open J use {State, Database}

  -- The operations in order, with the states between them.
  pub steps : Text → List (Operation J) → State → List (Step J)
  steps app [] state = []
  steps app (op ∷ ops) state =
      let new = op.state_forwards app state in
      record { operation = op; before = state; after = new } ∷ steps app ops new

  pub final_state : Text → List (Operation J) → State → State
  final_state app [] state = state
  final_state app (op ∷ ops) state = final_state app ops (op.state_forwards app state)

  -- The steps on the database in order, those left out aside, up to the first failure. `done` is
  -- whether a node has done the migration.
  pub run : Text → Bool → List (Step J) → Editor J → Option Error × Editor J
  unfolding left_out options_of
  run app done [] e = (none, e)
  run app done (s ∷ rest) e =
      elim (left_out done (options_of J app s.operation.kind s.before s.after)) [
        | raised x ↦ (some x, e)
        | ok true ↦ run app done rest e
        | ok false ↦
            let (failure, e1) = s.operation.database_forwards app s.before s.after e in
            elim failure [ some x ↦ (some x, e1) | none ↦ run app done rest e1 ]
      ]

  -- A node of the cluster that is set for migrations has the migration recorded as applied.
  pub DoneElsewhere : Connection → Migration J → Editor J → Type 0
  DoneElsewhere c m e =
      (x : ℕ) × (t : Text) × (c.migration_cluster ≡ some (x ∷ t))
      × (J.exists_on_replicas (x ∷ t) (get_model_table_name c) m.app_label m.name false e.database
          ≡ true)

  pub answer : State → Option Error × Editor J → Result State × Editor J
  answer s (none, e) = (ok s, e)
  answer s (some x, e) = (raised x, e)

  forwards-run :
      (app : Text) (done : Bool) (ops : List (Operation J)) (s : State) (e : Editor J)
      → forwards app done false ops s e
        ≡ answer (final_state app ops s) (run app done (steps app ops s) e)
  unfolding forwards run steps final_state answer guarded note_no_op
  forwards-run app done [] s e = refl
  forwards-run app done (op ∷ ops) s e =
      let new = op.state_forwards app s in
      ground (
        arith,
        skips-left_out J app done op.kind s new,
        forwards-run app done ops new e,
        forwards-run app done ops new (op.database_forwards app s new e).1,
      )

  on_remote-DoneElsewhere :
      (c : Connection) (m : Migration J) (e : Editor J) (o : Option Text)
      → c.migration_cluster ≡ o
      → (on_remote c m false e ≡ true) ↔ DoneElsewhere c m e
  unfolding on_remote DoneElsewhere
  on_remote-DoneElsewhere c m e none p = (λ h. ground arith, λ (x, t, q, h). ground arith)
  on_remote-DoneElsewhere c m e (some []) p = (λ h. ground arith, λ (x, t, q, h). ground arith)
  on_remote-DoneElsewhere c m e (some (y ∷ u)) p =
      (λ h. (y, u, p, ground arith), λ (x, t, q, h). ground arith)

  -- Without collecting SQL, apply runs the operations' work on the database in order, each with the
  -- states before and after it. It leaves out those on a model whose options name a cluster, exactly
  -- if a node of the connection's cluster has the migration recorded as applied, and stops with the
  -- first exception, that of a model the state does not have included. Where there is none, it
  -- returns the state that all operations lead to, those left out included.
  pub apply-run :
      (c : Connection) (m : Migration J) (s : State) (e : Editor J)
      → (done : Bool) × ((done ≡ true) ↔ DoneElsewhere c m e)
        × (apply c m s false e
            ≡ answer
                (final_state m.app_label m.operations s)
                (run m.app_label done (steps m.app_label m.operations s) e))
  unfolding apply
  apply-run c m s e = (
    on_remote c m false e,
    on_remote-DoneElsewhere c m e c.migration_cluster refl,
    forwards-run m.app_label (on_remote c m false e) m.operations s e,
  )
