-- ===== src/Migrations/Running/Undo.antt =====
-- `unapply` after `apply`, and a migration that cannot be undone.
use django_clickhouse_backen.Prelude.{
  ◌≡◌, refl, sym, ap, ◌∙◌, Bool, true, false, Option, none, List, [], ◌∷◌, Text, arith, All, all,
}
use django_clickhouse_backen.Migrations.Connection.{Connection}
use django_clickhouse_backen.Migrations.Running.{
  Django, Error, irreversible_error, Result, ok, raised, Operation, Editor, Migration, Step, skips,
  guarded, forwards, backwards, preserve, on_remote, apply, unapply, note_no_op,
}

module _ {J : Django} where
  open J use {State, Database}

  -- What a reversible operation promises: its work backwards undoes its work forwards.
  abbrev pub Undone : Text → Operation J → Type 0
  Undone app op =
      (old new : State) (e e' : Editor J)
      → op.database_forwards app old new e ≡ (none, e')
      → op.database_backwards app new old e' ≡ (none, e)

  guarded-undo :
      (g : Result Bool) (work back : Editor J → Option Error × Editor J) (e e' : Editor J)
      → (work e ≡ (none, e') → back e' ≡ (none, e))
      → guarded g work e ≡ (none, e')
      → guarded g back e' ≡ (none, e)
  unfolding guarded
  guarded-undo (raised x) work back e e' u h = ground arith
  guarded-undo (ok true) work back e e' u h = sym h
  guarded-undo (ok false) work back e e' u h = u h

  forwards-split :
      (app : Text) (remote : Bool) (op : Operation J) (ops : List (Operation J)) (s s' : State)
      (e e' : Editor J)
      → forwards app remote false (op ∷ ops) s e ≡ (ok s', e')
      → (e1 : Editor J) × (guarded
            (skips J app remote op.kind s (op.state_forwards app s))
            (op.database_forwards app s (op.state_forwards app s))
            e
          ≡ (none, e1))
        × (forwards app remote false ops (op.state_forwards app s) e1 ≡ (ok s', e'))
  unfolding forwards note_no_op
  forwards-split app remote op ops s s' e e' h =
      let new = op.state_forwards app s in
      let d = guarded (skips J app remote op.kind s new) (op.database_forwards app s new) e in
      (d.1, ground arith, ground arith)

  backwards-step :
      (app : Text) (remote : Bool) (step : Step J) (acc : List (Step J)) (e e1 : Editor J)
      → guarded
          (skips J app remote step.operation.kind step.before step.after)
          (step.operation.database_backwards app step.after step.before)
          e1
        ≡ (none, e)
      → backwards app remote false (step ∷ acc) e1 ≡ backwards app remote false acc e
  unfolding backwards note_no_op
  backwards-step app remote step acc e e1 h = rw h (ap (λ d. backwards app remote false acc d.1) h)

  -- The steps that the first phase keeps undo those of `apply`.
  undo :
      (app : Text) (remote : Bool) (ops : List (Operation J)) (acc : List (Step J)) (s s' : State)
      (e e' : Editor J)
      → all (λ op. op.reversible) ops ≡ true
      → All (Undone app) ops
      → forwards app remote false ops s e ≡ (ok s', e')
      → (to_run : List (Step J)) × (preserve app ops s acc ≡ ok to_run)
        × (backwards app remote false to_run e' ≡ backwards app remote false acc e)
  unfolding forwards backwards preserve
  undo app remote [] acc s s' e e' r u h = (acc, refl, ground arith)
  undo app remote (op ∷ ops) acc s s' e e' r (u, us) h =
      let new = op.state_forwards app s in
      let (e1, g, rest) = forwards-split app remote op ops s s' e e' h in
      let step : Step J = record { operation = op; before = s; after = new } in
      let (to_run, p, b) = undo app remote ops (step ∷ acc) new s' e1 e' (ground arith) us rest in
      let back =
        guarded-undo (skips J app remote op.kind s new) (op.database_forwards app s new)
          (op.database_backwards app new s) e e1 (u s new e e1) g in
      (to_run, ground arith, b ∙ backwards-step app remote step acc e e1 back)

  irreversible :
      (app : Text) (ops : List (Operation J)) (s : State) (acc : List (Step J))
      → all (λ op. op.reversible) ops ≡ false
      → preserve app ops s acc ≡ raised irreversible_error
  unfolding preserve
  irreversible app [] s acc h = ground arith
  irreversible app (op ∷ ops) s acc h =
      let new = op.state_forwards app s in
      ground
        (arith, irreversible app ops new (record { operation = op; before = s; after = new } ∷ acc))

  -- Where all operations of a migration are reversible and undo their work, apply returns, and the
  -- answer of the cluster is the same for both calls, unapply of the migration on what apply left
  -- of the schema editor, from the same project state, returns that state and leaves the schema
  -- editor and its database as they were before apply, whatever was left out on the way.
  pub unapply-apply :
      (c : Connection) (m : Migration J) (s s' : State) (e e' : Editor J)
      → all (λ op. op.reversible) m.operations ≡ true
      → All (Undone m.app_label) m.operations
      → on_remote c m true e' ≡ on_remote c m false e
      → apply c m s false e ≡ (ok s', e')
      → unapply c m s false e' ≡ (ok s, e)
  unfolding apply unapply backwards
  unapply-apply c m s s' e e' r u q h =
      let (to_run, p, b) =
        undo m.app_label (on_remote c m false e) m.operations [] s s' e e' r u h in
      ground (arith, p, b, q)

  -- Where an operation of the migration is not reversible, unapply raises IrreversibleError and
  -- has not touched the schema editor or its database, whatever the other operations are.
  pub unapply-irreversible :
      (c : Connection) (m : Migration J) (s : State) (collect_sql : Bool) (e : Editor J)
      → all (λ op. op.reversible) m.operations ≡ false
      → unapply c m s collect_sql e ≡ (raised irreversible_error, e)
  unfolding unapply
  unapply-irreversible c m s collect_sql e h =
      ground (arith, irreversible m.app_label m.operations s [] h)
