-- ===== src/Models/Fields/Checks.antt =====
-- The checks of fields' arguments: TupleField._check_base_fields in
-- clickhouse_backend/models/fields/tuple.py, and the checks of choices, precisions, lengths, null and
-- map keys in clickhouse_backend/models/fields/__init__.py, base.py and map.py.
pub mod Tuples
pub mod Choices
mod Examples
use django_clickhouse_backen.Prelude.{
  ℕ, suc, Bool, true, false, not, ◌&&◌, ◌||◌, Option, none, some, List, [], ◌∷◌, ◌++◌, map, any,
  all, Text, codes, contains, if◌then◌else◌,
}
use django_clickhouse_backen.Prelude.Int.{ℤ, pos, negsuc, ltb_ℤ}

-- An item of base_fields: a field, what unpacks into two, or anything else. A name that is no str and a
-- second part that is no field are `none`.
pub data Item (F : Type 0) : Type 0 where
  a_field : F → Item F
  a_pair : Option Text → Option F → Item F
  other : Item F

-- base_fields and is_named_tuple
pub data BaseFields (F : Type 0) : Type 0 where
  plain : List F → BaseFields F
  named : List (Text × F) → BaseFields F

-- The exceptions are RuntimeError with these messages.
pub data Error : Type 0 where
  invalid_error empty_error : Error
  related_error : ℕ → Error

pub data Checked (F : Type 0) : Type 0 where
  checked : BaseFields F → Checked F
  refused : Error → Checked F

-- The lists of the loop: the fields, with their names where they have one
pub data Loop (F : Type 0) : Type 0 where
  collected : List (Option Text × F) → Loop F
  stopped : Error → Loop F

module _ {F : Type 0} (is_identifier : Text → Bool) (is_related : F → Bool) where
  -- isinstance(field, Field), or name, field = field with its tests
  unfoldable pub base_field : Item F → Option (Option Text × F)
  base_field (a_field f) = some (none, f)
  base_field (a_pair (some name) (some f)) =
      if is_identifier name then some (some name, f) else none
  base_field (a_pair (some name) none) = none
  base_field (a_pair none f) = none
  base_field other = none

  unfoldable pub add_base_field : ℕ → Option (Option Text × F) → Loop F → Loop F
  add_base_field index none rest = stopped invalid_error
  add_base_field index (some (name, f)) (collected fs) =
      if is_related f then stopped (related_error index) else collected ((name, f) ∷ fs)
  add_base_field index (some (name, f)) (stopped e) =
      if is_related f then stopped (related_error index) else stopped e

  unfoldable pub base_fields_loop : ℕ → List (Item F) → Loop F
  unfolding base_field add_base_field
  base_fields_loop index [] = collected []
  base_fields_loop index (i ∷ items) =
      add_base_field index (base_field i) (base_fields_loop (suc index) items)

  unfoldable pub is_named : Option Text × F → Bool
  is_named (none, f) = false
  is_named (some name, f) = true

  unfoldable pub with_name : Option Text × F → Text × F
  with_name (none, f) = ([], f)
  with_name (some name, f) = (name, f)

  unfoldable pub without_name : Option Text × F → F
  without_name (name, f) = f

  unfoldable pub classify : List (Option Text × F) → Checked F
  unfolding is_named with_name without_name
  classify [] = refused empty_error
  classify (f ∷ fs) =
      if all is_named (f ∷ fs)
      then checked (named (map with_name (f ∷ fs)))
      else if not (any is_named (f ∷ fs))
      then checked (plain (map without_name (f ∷ fs)))
      else refused invalid_error

  unfoldable pub after_loop : Loop F → Checked F
  after_loop (collected fs) = classify fs
  after_loop (stopped e) = refused e

  -- `none` is what is no iterable, or a str.
  unfoldable pub check_base_fields : Option (List (Item F)) → Checked F
  unfolding base_fields_loop after_loop
  check_base_fields none = refused invalid_error
  check_base_fields (some items) = after_loop (base_fields_loop 1 items)

-- A choice of an enumeration unpacks into two or does not; a value that is no int and a name that is
-- neither str nor bytes are `none`.
pub data Name : Type 0 where
  str : Text → Name
  bytes : List ℕ → Name

pub data Choice : Type 0 where
  a_choice : Option ℤ → Option Name → Choice
  no_pair : Choice

pub data ChoicesChecked : Type 0 where
  choices : List (ℤ × Name) → ChoicesChecked
  not_iterable no_choices bad_choice out_of_range : ChoicesChecked

unfoldable pub add_choice : ℤ × Name → ChoicesChecked → ChoicesChecked
add_choice c (choices cs) = choices (c ∷ cs)
add_choice c not_iterable = not_iterable
add_choice c no_choices = no_choices
add_choice c bad_choice = bad_choice
add_choice c out_of_range = out_of_range

-- normal_choices.sort(key=lambda o: o[0]), which keeps the order of equal keys
unfoldable pub insert_choice : ℤ × Name → List (ℤ × Name) → List (ℤ × Name)
insert_choice c [] = c ∷ []
insert_choice c (d ∷ ds) =
    let rest = insert_choice c ds in if ltb_ℤ d.0 c.0 then d ∷ rest else c ∷ d ∷ ds

unfoldable pub sort_choices : List (ℤ × Name) → List (ℤ × Name)
unfolding insert_choice
sort_choices [] = []
sort_choices (c ∷ cs) = insert_choice c (sort_choices cs)

unfoldable pub sorted_choices : ChoicesChecked → ChoicesChecked
unfolding sort_choices
sorted_choices (choices cs) = choices (sort_choices cs)
sorted_choices not_iterable = not_iterable
sorted_choices no_choices = no_choices
sorted_choices bad_choice = bad_choice
sorted_choices out_of_range = out_of_range

module _ (decode : List ℕ → Option Text) where
  -- name.decode("utf-8"), or the bytes where that fails
  unfoldable pub decoded : Name → Name
  decoded (str s) = str s
  decoded (bytes b) = elim (decode b) [ none ↦ bytes b | some s ↦ str s ]

  unfoldable pub normal_choices : ℤ → ℤ → List Choice → ChoicesChecked
  unfolding add_choice decoded
  normal_choices low high [] = choices []
  normal_choices low high (no_pair ∷ cs) = bad_choice
  normal_choices low high (a_choice none name ∷ cs) = bad_choice
  normal_choices low high (a_choice (some value) none ∷ cs) = bad_choice
  normal_choices low high (a_choice (some value) (some name) ∷ cs) =
      let rest = normal_choices low high cs in
      if ltb_ℤ value low || ltb_ℤ high value
      then out_of_range
      else add_choice (value, decoded name) rest

  unfoldable pub check_choices : ℤ → ℤ → Option (List Choice) → ChoicesChecked
  unfolding normal_choices sorted_choices
  check_choices low high none = not_iterable
  check_choices low high (some []) = no_choices
  check_choices low high (some (c ∷ cs)) = sorted_choices (normal_choices low high (c ∷ cs))
