-- ===== src/Models/Fields/Validate.antt =====
-- validate and run_validators of nested fields in clickhouse_backend/models/fields/array.py, tuple.py
-- and map.py. What Django's Field does at the start is the parameter `own`.
pub mod Faults
pub mod Blames
pub mod Sound
pub mod Accepted
pub mod Complete
use django_clickhouse_backen.Prelude.{
  ℕ, suc, ◌≡◌, ◌≢◌, ◌⊎◌, inl, inr, refl, Bool, true, false, Bool-cases, Option, none, some, arith,
  ◌==◌, if◌then◌else◌,
}
use django_clickhouse_backen.Models.Fields.{
  Field, Members, NamedMembers, scalar, array, map_of, tuple, named_tuple, last, member, named_last,
  named,
}
use django_clickhouse_backen.Models.Fields.Values.{
  Value, Values, Pairs, Converted, none_value, one, list_of, tuple_of, dict_of, nil, more, end,
  pair, ok, raises, size, count_members, count_named,
}
use django_clickhouse_backen.Models.Fields.Values.Read.{Python, items}

-- A ValidationError: its own of a field, or that of a part behind the prefix that names the part.
pub data Fault (V : Type 0) : Type 0 where
  own_invalid length_mismatch : Fault V
  item_invalid : ℕ → Fault V → Fault V
  key_invalid : Value V → Fault V → Fault V
  value_invalid : Value V → Fault V → Fault V

-- `crash` is another exception, from iterating over what has no items.
pub data Outcome (V : Type 0) : Type 0 where
  valid : Outcome V
  invalid : Fault V → Outcome V
  crash : Outcome V

module _ {V : Type 0} where
  -- except ValidationError: raise prefix_validation_error
  unfoldable pub prefixed : (Fault V → Fault V) → Outcome V → Outcome V
  prefixed prefix valid = valid
  prefixed prefix (invalid e) = invalid (prefix e)
  prefixed prefix crash = crash

  unfoldable pub and_then : Outcome V → Outcome V → Outcome V
  and_then valid next = next
  and_then (invalid e) next = invalid e
  and_then crash next = crash

  -- The loop over the parts of an array, which are counted from 1 in messages
  unfoldable pub validate_each : (Value V → Outcome V) → ℕ → Values V → Outcome V
  unfolding prefixed and_then
  validate_each check n nil = valid
  validate_each check n (more v vs) =
      and_then (prefixed (item_invalid n) (check v)) (validate_each check (suc n) vs)

  -- The loop over parts and base fields, at the last of these and at one before others
  unfoldable pub validate_last : (Value V → Outcome V) → ℕ → Values V → Outcome V
  unfolding prefixed
  validate_last check n nil = valid
  validate_last check n (more v vs) = prefixed (item_invalid n) (check v)

  unfoldable pub validate_member :
      (Value V → Outcome V) → (ℕ → Values V → Outcome V) → ℕ → Values V → Outcome V
  unfolding prefixed and_then
  validate_member check check_rest n nil = valid
  validate_member check check_rest n (more v vs) =
      and_then (prefixed (item_invalid n) (check v)) (check_rest (suc n) vs)

  unfoldable pub validate_pairs :
      (Value V → Outcome V) → (Value V → Outcome V) → Pairs V → Outcome V
  unfolding prefixed and_then
  validate_pairs check_key check_value end = valid
  validate_pairs check_key check_value (pair k v d) =
      and_then (prefixed (key_invalid k) (check_key k)) (
        and_then (prefixed (value_invalid v) (check_value v))
          (validate_pairs check_key check_value d))

  unfoldable pub validate_array : (Value V → Outcome V) → Converted (Values V) → Outcome V
  validate_array check (ok vs) = validate_each check 1 vs
  validate_array check (raises e) = crash

  unfoldable pub validate_tuple : ℕ → (ℕ → Values V → Outcome V) → Converted (Values V) → Outcome V
  validate_tuple fields check (ok vs) =
      if size vs == fields then check 1 vs else invalid length_mismatch
  validate_tuple fields check (raises e) = crash

  unfoldable pub validate_map : (Value V → Outcome V) → (Value V → Outcome V) → Value V → Outcome V
  validate_map check_key check_value (dict_of d) = validate_pairs check_key check_value d
  validate_map check_key check_value v = crash

module _ {V : Type 0} (py : Python V) (own : Field → Value V → Bool) where
  unfoldable pub own_first : Field → Value V → Outcome V → Outcome V
  own_first f v next = if own f v then next else invalid own_invalid

  unfoldable mutual
    unfolding own_first

    pub validate : Field → Value V → Outcome V
    validate (scalar null low s) v = own_first (scalar null low s) v valid
    validate (array f) v = own_first (array f) v (validate_array (validate f) (items py v))
    validate (map_of k f) v = own_first (map_of k f) v (validate_map (validate k) (validate f) v)
    validate (tuple fs) v =
        own_first (tuple fs) v
          (validate_tuple (count_members fs) (validate_members fs) (items py v))
    validate (named_tuple fs) v =
        own_first (named_tuple fs) v
          (validate_tuple (count_named fs) (validate_named fs) (items py v))

    pub validate_members : Members → ℕ → Values V → Outcome V
    validate_members (last f) = validate_last (validate f)
    validate_members (member f fs) = validate_member (validate f) (validate_members fs)

    pub validate_named : NamedMembers → ℕ → Values V → Outcome V
    validate_named (named_last n f) = validate_last (validate f)
    validate_named (named n f fs) = validate_member (validate f) (validate_named fs)
