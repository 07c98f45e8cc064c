-- ===== src/Backend/Schema/Alter/Unchanged.antt =====
-- Altering a field into itself.
use django_clickhouse_backen.Prelude.{
  ◌≡◌, refl, Bool, true, false, not, ◌&&◌, ◌||◌, Option, none, some, [], Text, same_refl,
}
use django_clickhouse_backen.Backend.Schema.{Field, Model, Ddl, column_check_sql}
use django_clickhouse_backen.Backend.Schema.Alter.{
  Django, same_option, column_type, has_db_default, same_default, four_way_default_alteration,
  type_actions, db_default_actions, needs_database_default, default_actions, actions, alter_actions,
  null_actions, check_changed, when_changed, drop_checks, add_checks, renames, related_actions,
  drop_defaults, alter_statements, alter_field,
}

module _ {V : Type 0} (django : Django V) where
  same_option_refl : (o : Option Text) → same_option o o ≡ true
  unfolding same_option
  same_option_refl none = refl
  same_option_refl (some t) = same_refl t

  unchanged : (f : Field V) → check_changed django f f ≡ false
  unfolding check_changed
  unchanged f = rw (same_option_refl f.check, same_refl f.column) refl

  when_unchanged :
      (b : Bool) (check : Option Text) (statement : Text → Ddl V)
      → b ≡ false
      → when_changed django b check statement ≡ []
  unfolding when_changed
  when_unchanged b none statement e = refl
  when_unchanged b (some c) statement e = rw e refl

  db_default_actions-same :
      (column : Text) (f : Field V) (o : Option V)
      → ((v : V) → django.same_value v v ≡ true)
      → db_default_actions django column f o o ≡ []
  unfolding db_default_actions
  db_default_actions-same column f none r = refl
  db_default_actions-same column f (some d) r = rw (r d) refl

  never_null : (a b : Bool) → (a && (b && not b)) ≡ false
  never_null true true = refl
  never_null true false = refl
  never_null false b = refl

  never_default : (n b c : Bool) → ((n && not n) && b && c) ≡ false
  never_default true b c = refl
  never_default false b c = refl

  renames-same : (m : Model) (f : Field V) → renames django m f f ≡ []
  unfolding renames
  renames-same m f = rw (same_refl f.column) refl

  drop_checks-same : (m : Model) (f : Field V) → drop_checks django m f f ≡ []
  unfolding drop_checks
  drop_checks-same m f = when_unchanged (check_changed django f f) f.check _ (unchanged f)

  add_checks-same : (m : Model) (f : Field V) → add_checks django m f f ≡ []
  unfolding add_checks
  add_checks-same m f =
      when_unchanged (check_changed django f f) (column_check_sql django.check_sql f) _
        (unchanged f)

  null_actions-same : (m : Model) (f : Field V) → null_actions django m f f ≡ []
  unfolding null_actions four_way_default_alteration
  null_actions-same m f = rw (never_null (f.has_default || has_db_default django f) f.null) refl

  needs_database_default-same : (f : Field V) → needs_database_default django f f ≡ none
  unfolding needs_database_default
  needs_database_default-same f =
      rw
        (never_default f.null (not (has_db_default django f))
          (not (same_default django f.default f.default)))
        refl

  actions-same : (f : Field V) → ((v : V) → django.same_value v v ≡ true) → actions django f f ≡ []
  unfolding actions type_actions default_actions
  actions-same f r =
      rw
        (
          same_refl (column_type django f),
          same_refl f.db_comment,
          db_default_actions-same f.column f f.db_default r,
          needs_database_default-same f,
        )
        refl

  -- A field that is altered into itself is left alone: no statement is sent, where Django has none
  -- of its own.
  pub alter_field-same :
      (m : Model) (f : Field V)
      → ((v : V) → django.same_value v v ≡ true)
      → django.other_actions ≡ []
      → django.rels_to_update ≡ []
      → alter_field django m f f ≡ []
  unfolding alter_field alter_statements alter_actions related_actions drop_defaults
  alter_field-same m f r o u =
      rw
        (
          drop_checks-same m f,
          renames-same m f,
          actions-same f r,
          null_actions-same m f,
          o,
          u,
          add_checks-same m f,
          needs_database_default-same f,
        )
        refl
