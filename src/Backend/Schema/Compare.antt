-- ===== src/Backend/Schema/Compare.antt =====
-- _field_should_be_altered of clickhouse_backend/backend/schema.py, on what deconstruct() gives: the
-- path, the positional arguments and the keyword arguments with their values in a type V.
use django_clickhouse_backen.Prelude.{
  ◌≡◌, refl, sym, subst, ap, Bool, true, false, not, ◌&&◌, ◌||◌, Option, none, some, List, [], ◌∷◌,
  Text, codes, same, same_refl, contains, arith, Bool-cases, inl, inr, ◌⊎◌, if◌then◌else◌, if_cases,
}
use django_clickhouse_backen.Backend.Operations.{quote_name}

abbrev pub non_database_attrs : List Text
non_database_attrs =
    codes "verbose_name"
    ∷ codes "primary_key"
    ∷ codes "unique"
    ∷ codes "blank"
    ∷ codes "db_index"
    ∷ codes "editable"
    ∷ codes "serialize"
    ∷ codes "unique_for_date"
    ∷ codes "unique_for_month"
    ∷ codes "unique_for_year"
    ∷ codes "help_text"
    ∷ codes "db_column"
    ∷ codes "db_tablespace"
    ∷ codes "auto_created"
    ∷ codes "validators"
    ∷ codes "error_messages"
    ∷ codes "on_delete"
    ∷ codes "related_name"
    ∷ codes "related_query_name"
    ∷ codes "db_collation"
    ∷ codes "limit_choices_to"
    ∷ codes "size"
    ∷ []

-- A field; `related_table` is the table that remote_field refers to, and `default_sql` the SQL of
-- its database default where kwargs has a true one.
pub record Field (V : Type 0) : Type 0 where
  pub concrete : Bool
  pub many_to_many : Bool
  pub is_enum : Bool
  pub name : Text
  pub column : Text
  pub related_table : Option Text
  pub default_sql : Option V
  pub path : Text
  pub args : List V
  pub kwargs : List (Text × V)

-- Python's == on values and on dicts
module _ {V : Type 0} (same_value : V → V → Bool)
    (same_kwargs : List (Text × V) → List (Text × V) → Bool) where
  -- kwargs.pop(key, None)
  pub pop : Text → List (Text × V) → List (Text × V)
  pop key [] = []
  pop key ((k, v) ∷ kwargs) =
      let rest = pop key kwargs in if same k key then rest else (k, v) ∷ rest

  pub pop_all : List Text → List (Text × V) → List (Text × V)
  unfolding pop
  pop_all [] kwargs = kwargs
  pop_all (key ∷ keys) kwargs = pop_all keys (pop key kwargs)

  pub same_related : Field V → Field V → Bool
  same_related old new = elim old.related_table [
    | none ↦ false
    | some s ↦ elim new.related_table [ none ↦ false | some t ↦ not new.many_to_many && same s t ]
  ]

  pub same_default : Field V → Field V → Bool
  same_default old new = elim old.default_sql [
    | none ↦ false
    | some v ↦ elim new.default_sql [ none ↦ false | some w ↦ same_value v w ]
  ]

  -- The keyword arguments of a field that matter to the schema.
  pub reduced : Bool → Bool → Field V → List (Text × V)
  unfolding pop pop_all
  reduced relation default f =
      let kwargs =
        pop_all non_database_attrs
          (if f.is_enum then f.kwargs else pop (codes "choices") f.kwargs) in
      let without_to = if relation then pop (codes "to") kwargs else kwargs in
      if default then pop (codes "db_default") without_to else without_to

  pub same_args : List V → List V → Bool
  same_args [] [] = true
  same_args [] (w ∷ ws) = false
  same_args (v ∷ vs) [] = false
  same_args (v ∷ vs) (w ∷ ws) = same_value v w && same_args vs ws

  pub differ : Field V → Field V → Bool
  unfolding same_related same_default reduced same_args
  differ old new =
      let relation = same_related old new in
      let default = same_default old new in
      let old_kwargs = reduced relation default old in
      let new_kwargs = reduced relation default new in
      not
        (same old.path new.path && same_args old.args new.args && same_kwargs old_kwargs new_kwargs)

  pub field_should_be_altered : Field V → Field V → Bool
  unfolding differ
  field_should_be_altered old new =
      if not (old.concrete || old.many_to_many) && not (new.concrete || new.many_to_many)
      then false
      else if old.concrete
          && new.concrete
          && not (same (quote_name old.column) (quote_name new.column))
      then true
      else if old.many_to_many && new.many_to_many && not (same old.name new.name)
      then true
      else differ old new

  pop-cons_same :
      (key : Text) (v : V) (kwargs : List (Text × V)) → pop key ((key, v) ∷ kwargs) ≡ pop key kwargs
  unfolding pop
  pop-cons_same key v kwargs = rw (same_refl key) refl

  -- A name that is popped does not matter.
  pop_all-cons :
      (keys : List Text) (key : Text) (v : V) (kwargs : List (Text × V))
      → contains key keys ≡ true
      → pop_all keys ((key, v) ∷ kwargs) ≡ pop_all keys kwargs
  unfolding pop_all pop contains
  pop_all-cons [] key v kwargs h = ground arith
  pop_all-cons (k ∷ keys) key v kwargs h = elim (Bool-cases (same key k)) [
    | inl e ↦ rw e refl
    | inr e ↦ rw e (
        pop_all-cons keys key v (pop k kwargs)
          (subst (λ b. (if b then true else contains key keys) ≡ true) e h))
  ]

  same_args_refl : ((v : V) → same_value v v ≡ true) → (vs : List V) → same_args vs vs ≡ true
  unfolding same_args
  same_args_refl r [] = refl
  same_args_refl r (v ∷ vs) = rw (r v, same_args_refl r vs) refl

  pub with_argument : Text → V → Field V → Field V
  with_argument key v f = record f { kwargs = (key, v) ∷ f.kwargs }

  kept_kwargs : Bool → List (Text × V) → List (Text × V)
  kept_kwargs is_enum kwargs =
      pop_all non_database_attrs (if is_enum then kwargs else pop (codes "choices") kwargs)

  kept-cons :
      (is_enum : Bool) (key : Text) (v : V) (kwargs : List (Text × V))
      → contains key non_database_attrs ≡ true
      → kept_kwargs is_enum ((key, v) ∷ kwargs) ≡ kept_kwargs is_enum kwargs
  unfolding kept_kwargs pop
  kept-cons true key v kwargs h = pop_all-cons non_database_attrs key v kwargs h
  kept-cons false key v kwargs h =
      if_cases
        (λ ks.
          pop_all non_database_attrs ks ≡ pop_all non_database_attrs (pop (codes "choices") kwargs))
        (same key (codes "choices")) (λ _. refl)
        (λ _. pop_all-cons non_database_attrs key v (pop (codes "choices") kwargs) h)

  choices-cons :
      (v : V) (kwargs : List (Text × V))
      → kept_kwargs false ((codes "choices", v) ∷ kwargs) ≡ kept_kwargs false kwargs
  unfolding kept_kwargs
  choices-cons v kwargs = ap (pop_all non_database_attrs) (pop-cons_same (codes "choices") v kwargs)

  -- An argument that has no effect on the schema
  unfoldable pub Harmless : Text → Field V → Type 0
  Harmless key f =
      (contains key non_database_attrs ≡ true) ⊎ ((f.is_enum ≡ false) × (key ≡ codes "choices"))

  Harmless-kept :
      (key : Text) (v : V) (f : Field V)
      → Harmless key f
      → kept_kwargs f.is_enum ((key, v) ∷ f.kwargs) ≡ kept_kwargs f.is_enum f.kwargs
  unfolding Harmless
  Harmless-kept key v f (inl h) = kept-cons f.is_enum key v f.kwargs h
  Harmless-kept key v f (inr (e, k)) =
      subst (λ b. kept_kwargs b ((key, v) ∷ f.kwargs) ≡ kept_kwargs b f.kwargs) (sym e)
        (subst (λ z. kept_kwargs false ((z, v) ∷ f.kwargs) ≡ kept_kwargs false f.kwargs) (sym k)
          (choices-cons v f.kwargs))

  reduce : Bool → Bool → List (Text × V) → List (Text × V)
  reduce relation default kwargs =
      let without_to = if relation then pop (codes "to") kwargs else kwargs in
      if default then pop (codes "db_default") without_to else without_to

  Harmless-reduced :
      (relation default : Bool) (key : Text) (v : V) (f : Field V)
      → Harmless key f
      → reduced relation default (with_argument key v f) ≡ reduced relation default f
  unfolding reduced with_argument kept_kwargs reduce
  Harmless-reduced relation default key v f h =
      ap (reduce relation default) (Harmless-kept key v f h)

  differ_none : (a b c : Bool) → a ≡ true → b ≡ true → c ≡ true → not (a && b && c) ≡ false
  differ_none a b c ha hb hc = ground arith

  differ-Harmless :
      (key : Text) (v : V) (f : Field V)
      → ((w : V) → same_value w w ≡ true)
      → ((kwargs : List (Text × V)) → same_kwargs kwargs kwargs ≡ true)
      → Harmless key f
      → differ f (with_argument key v f) ≡ false
  unfolding differ with_argument
  differ-Harmless key v f r k h =
      let relation = same_related f (with_argument key v f) in
      let default = same_default f (with_argument key v f) in
      differ_none (same f.path f.path) (same_args f.args f.args) _ (same_refl f.path)
        (same_args_refl r f.args)
        (subst (λ z. same_kwargs (reduced relation default f) z ≡ true)
          (sym (Harmless-reduced relation default key v f h)) (k (reduced relation default f)))

  unaltered :
      (virtual concrete many d : Bool)
      → d ≡ false
      → (if virtual
          then false
          else if concrete && concrete && not true
          then true
          else if many && many && not true
          then true
          else d)
        ≡ false
  unaltered true concrete many d h = refl
  unaltered false concrete many d h = ground arith

  -- A field that differs by an argument that has no effect on the schema is not altered.
  pub field_should_be_altered-Harmless :
      (key : Text) (v : V) (f : Field V)
      → ((w : V) → same_value w w ≡ true)
      → ((kwargs : List (Text × V)) → same_kwargs kwargs kwargs ≡ true)
      → Harmless key f
      → field_should_be_altered f (with_argument key v f) ≡ false
  unfolding field_should_be_altered with_argument
  field_should_be_altered-Harmless key v f r k h =
      rw (same_refl (quote_name f.column), same_refl f.name)
        (unaltered (not (f.concrete || f.many_to_many) && not (f.concrete || f.many_to_many))
          f.concrete f.many_to_many (differ f (with_argument key v f))
          (differ-Harmless key v f r k h))
