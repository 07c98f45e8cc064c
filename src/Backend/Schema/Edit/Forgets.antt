-- ===== src/Backend/Schema/Edit/Forgets.antt =====
-- Which statements stay deferred.
use django_clickhouse_backen.Prelude.{
  ◌≡◌, sym, subst, Bool, true, not, Option, none, some, List, [], ◌∷◌, filter, All, Text, if_cases,
}
use django_clickhouse_backen.Backend.Schema.{Field, Model, drop_column}
use django_clickhouse_backen.Backend.Schema.Edit.{
  Deferred, statement, plain, Editor, References, execute, is_statement, remove_deferred,
  delete_check, with_column, remove_column, remove_field,
}

module _ {A : Type 0} where
  All-filter : (p : A → Bool) (xs : List A) → All (λ x. p x ≡ true) (filter p xs)
  All-filter p [] = tt
  All-filter p (x ∷ xs) =
      if_cases (All (λ y. p y ≡ true)) (p x) (λ h. (h, All-filter p xs)) (λ _. All-filter p xs)

module _ {S : Type 0} where
  -- The deferred statements that are text: these carry no references.
  pub plain_texts : List (Deferred S) → List Text
  plain_texts [] = []
  plain_texts (statement s ∷ ds) = plain_texts ds
  plain_texts (plain t ∷ ds) = t ∷ plain_texts ds

module _ {S V : Type 0} (references : References S) where
  -- No deferred Statement object refers to the table; a text has no references.
  pub Forgets : Text → Editor S V → Type 0
  Forgets table e = All (λ d. not (is_statement (references.table table) d) ≡ true) e.deferred_sql

  remove_column-Forgets :
      (m : Model) (f : Field V) (e : Editor S V)
      → All
          (λ d. not (is_statement (references.column m.db_table f.column) d) ≡ true)
          (remove_column references m f e).deferred_sql
  unfolding remove_column remove_deferred
  remove_column-Forgets m f e =
      let dropped =
        delete_check references m f f.check
          (execute references m (drop_column m.db_table f.column) e) in
      All-filter (λ d. not (is_statement (references.column m.db_table f.column) d))
        dropped.deferred_sql

  -- After a field with a column is removed, no deferred Statement object refers to the column.
  pub remove_field-Forgets :
      (m : Model) (f : Field V) (t : Text) (e : Editor S V)
      → f.db_type ≡ some t
      → All
          (λ d. not (is_statement (references.column m.db_table f.column) d) ≡ true)
          (remove_field references none m f e).deferred_sql
  unfolding remove_field with_column
  remove_field-Forgets m f t e h =
      subst
        (λ (o : Option Text).
          All (λ d. not (is_statement (references.column m.db_table f.column) d) ≡ true)
            (with_column references o e (remove_column references m f e)).deferred_sql)
        (sym h) (remove_column-Forgets m f e)
