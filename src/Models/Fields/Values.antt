-- ===== src/Models/Fields/Values.antt =====
-- The conversions of nested values: get_db_prep_value, get_db_prep_save and from_db_value in
-- clickhouse_backend/models/fields/array.py, tuple.py and map.py. The conversions of fields with one
-- value are parameters. A named tuple is the tuple of its items.
pub mod Read
mod Dicts
mod Shape
mod Parts
pub mod Returned
mod Examples
use django_clickhouse_backen.Prelude.{
  ℕ, suc, Bool, true, false, ◌||◌, Option, none, some, ◌==◌, if◌then◌else◌,
}
use django_clickhouse_backen.Models.Fields.{
  Scalar, Field, Members, NamedMembers, scalar, array, map_of, tuple, named_tuple, last, member,
  named_last, named, json, ipv4, ipv6, enum, enum8, enum16,
}

-- `one` is what is not iterated, str and bytes included.
mutual
  pub data Value (V : Type 0) : Type 0 where
    none_value : Value V
    one : V → Value V
    list_of : Values V → Value V
    tuple_of : Values V → Value V
    dict_of : Pairs V → Value V

  pub data Values (V : Type 0) : Type 0 where
    nil : Values V
    more : Value V → Values V → Values V

  pub data Pairs (V : Type 0) : Type 0 where
    end : Pairs V
    pair : Value V → Value V → Pairs V → Pairs V

pub data Error : Type 0 where
  validation_error type_error value_error attribute_error : Error

pub data Converted (A : Type 0) : Type 0 where
  ok : A → Converted A
  raises : Error → Converted A

infixl 5 ◌>>=◌
abbrev pub ◌>>=◌ : {A B : Type 0} → Converted A → (A → Converted B) → Converted B
ok a >>= next = next a
raises e >>= next = raises e

module _ {V : Type 0} where
  -- Iterating over a dict gives its keys.
  unfoldable pub keys : Pairs V → Values V
  keys end = nil
  keys (pair k v d) = more k (keys d)

  -- dict.values()
  unfoldable pub dict_values : Pairs V → Values V
  dict_values end = nil
  dict_values (pair k v d) = more v (dict_values d)

  -- A list comprehension with a conversion that may raise
  unfoldable pub convert_each : (Value V → Converted (Value V)) → Values V → Converted (Values V)
  convert_each convert nil = ok nil
  convert_each convert (more v vs) = do w ← convert v; ws ← convert_each convert vs; ok (more w ws)

  -- The loop of a tuple over its items and base fields, for the last of these and for one before
  -- others: zip stops where the items end.
  unfoldable pub convert_last : (Value V → Converted (Value V)) → Values V → Converted (Values V)
  convert_last convert nil = ok nil
  convert_last convert (more v vs) = do w ← convert v; ok (more w nil)

  unfoldable pub convert_member :
      (Value V → Converted (Value V))
      → (Values V → Converted (Values V))
      → Values V
      → Converted (Values V)
  convert_member convert convert_rest nil = ok nil
  convert_member convert convert_rest (more v vs) = do
    w ← convert v
    ws ← convert_rest vs
    ok (more w ws)

  -- len of a list or a tuple
  unfoldable pub size : Values V → ℕ
  size nil = 0
  size (more v vs) = suc (size vs)

  -- isinstance(value, Iterable) and not isinstance(value, (str, bytes)), with the items
  unfoldable pub iterated : Value V → Option (Values V)
  iterated none_value = none
  iterated (one v) = none
  iterated (list_of vs) = some vs
  iterated (tuple_of vs) = some vs
  iterated (dict_of d) = some (keys d)

  -- The prepared list of an array, and the prepared tuple of a tuple after the check of the length
  unfoldable pub prepare_array :
      (Value V → Converted (Value V)) → Value V → Option (Values V) → Converted (Value V)
  prepare_array convert v none = ok v
  prepare_array convert v (some vs) = do ws ← convert_each convert vs; ok (list_of ws)

  unfoldable pub call_base_fields :
      ℕ → (Values V → Converted (Values V)) → Values V → Converted (Values V)
  call_base_fields fields convert vs =
      if size vs == fields then convert vs else raises validation_error

  unfoldable pub prepare_tuple :
      ℕ → (Values V → Converted (Values V)) → Value V → Option (Values V) → Converted (Value V)
  unfolding call_base_fields
  prepare_tuple fields convert v none = ok v
  prepare_tuple fields convert v (some vs) = do
    ws ← call_base_fields fields convert vs
    ok (tuple_of ws)

module _ {V : Type 0} (same : Value V → Value V → Bool) where
  -- d[k] = v
  unfoldable pub put : Value V → Value V → Pairs V → Pairs V
  put k v end = pair k v end
  put k v (pair j w d) = if same j k then pair j v d else pair j w (put k v d)

  -- A dict comprehension, with the dict made so far
  unfoldable pub convert_pairs :
      (Value V → Converted (Value V))
      → (Value V → Converted (Value V))
      → Pairs V
      → Pairs V
      → Converted (Pairs V)
  unfolding put
  convert_pairs of_key of_value end made = ok made
  convert_pairs of_key of_value (pair k v d) made = do
    j ← of_key k
    w ← of_value v
    convert_pairs of_key of_value d (put j w made)

  unfoldable pub prepare_map :
      (Value V → Converted (Value V))
      → (Value V → Converted (Value V))
      → Value V
      → Converted (Value V)
  prepare_map of_key of_value (dict_of d) = do
    made ← convert_pairs of_key of_value d end
    ok (dict_of made)
  prepare_map of_key of_value v = ok v

-- len(self.base_fields)
unfoldable pub count_members : Members → ℕ
count_members (last f) = 1
count_members (member f fs) = suc (count_members fs)

unfoldable pub count_named : NamedMembers → ℕ
count_named (named_last n f) = 1
count_named (named n f fs) = suc (count_named fs)

module _ {V : Type 0} (same : Value V → Value V → Bool)
    (prepare_one : Scalar → Value V → Converted (Value V)) where
  -- get_db_prep_value, and get_db_prep_save, with that of fields with one value
  unfoldable mutual
    unfolding prepare_array prepare_tuple prepare_map iterated

    pub prepare : Field → Value V → Converted (Value V)
    prepare (scalar null low s) v = prepare_one s v
    prepare (array f) v = prepare_array (prepare f) v (iterated v)
    prepare (map_of k f) v = prepare_map same (prepare k) (prepare f) v
    prepare (tuple fs) v = prepare_tuple (count_members fs) (prepare_members fs) v (iterated v)
    prepare (named_tuple fs) v = prepare_tuple (count_named fs) (prepare_named fs) v (iterated v)

    pub prepare_members : Members → Values V → Converted (Values V)
    prepare_members (last f) = convert_last (prepare f)
    prepare_members (member f fs) = convert_member (prepare f) (prepare_members fs)

    pub prepare_named : NamedMembers → Values V → Converted (Values V)
    prepare_named (named_last n f) = convert_last (prepare f)
    prepare_named (named n f fs) = convert_member (prepare f) (prepare_named fs)
