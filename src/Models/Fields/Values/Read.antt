-- ===== src/Models/Fields/Values/Read.antt =====
-- What Django makes of a column of nested values that a client returns: from_db_value where the field
-- has one, the value itself where it has none.
use django_clickhouse_backen.Prelude.{ℕ, Bool, true, false, ◌||◌, ◌==◌, if◌then◌else◌}
use django_clickhouse_backen.Models.Fields.{
  Scalar, Field, Members, NamedMembers, scalar, array, map_of, tuple, named_tuple, last, member,
  named_last, named, int8, int16, int32, int64, int128, int256, uint8, uint16, uint32, uint64,
  uint128, uint256, float32, float64, string, uuid, bool, date, date32, date_time, fixed_string,
  date_time64, decimal, json, ipv4, ipv6, generic_ip, enum, enum8, enum16,
}
use django_clickhouse_backen.Models.Fields.Values.{
  Value, Values, Pairs, Converted, none_value, one, list_of, tuple_of, dict_of, end, ok, raises,
  validation_error, type_error, attribute_error, ◌>>=◌, keys, dict_values, size, convert_each,
  convert_last, convert_member, convert_pairs, count_members, count_named,
}

-- hasattr(field, "from_db_value") of fields with one value
unfoldable pub has_reader : Scalar → Bool
has_reader json = true
has_reader ipv4 = true
has_reader ipv6 = true
has_reader (generic_ip v4) = true
has_reader (enum members) = true
has_reader (enum8 members) = true
has_reader (enum16 members) = true
has_reader int8 = false
has_reader int16 = false
has_reader int32 = false
has_reader int64 = false
has_reader int128 = false
has_reader int256 = false
has_reader uint8 = false
has_reader uint16 = false
has_reader uint32 = false
has_reader uint64 = false
has_reader uint128 = false
has_reader uint256 = false
has_reader float32 = false
has_reader float64 = false
has_reader string = false
has_reader uuid = false
has_reader bool = false
has_reader date = false
has_reader date32 = false
has_reader date_time = false
has_reader (fixed_string n) = false
has_reader (date_time64 n) = false
has_reader (decimal n m) = false

-- The class of a tuple field has a from_db_value, also where no base field has one.
unfoldable pub has_from_db_value : Field → Bool
unfolding has_reader
has_from_db_value (scalar null low s) = has_reader s
has_from_db_value (array f) = has_from_db_value f
has_from_db_value (map_of k f) = has_from_db_value k || has_from_db_value f
has_from_db_value (tuple fs) = true
has_from_db_value (named_tuple fs) = true

unfoldable pub any_member : Members → Bool
any_member (last f) = has_from_db_value f
any_member (member f fs) = has_from_db_value f || any_member fs

unfoldable pub any_named : NamedMembers → Bool
any_named (named_last n f) = has_from_db_value f
any_named (named n f fs) = has_from_db_value f || any_named fs

-- What Python makes of other values: the items of one that is no container, such as the characters of
-- a str, and a named tuple of keyword arguments.
pub record Python (V : Type 0) : Type 0 where
  pub same : Value V → Value V → Bool
  pub iterate : V → Converted (Values V)
  pub by_names : NamedMembers → Pairs V → Converted (Values V)

module _ {V : Type 0} (py : Python V) where
  -- The items of an array, and those of a tuple
  unfoldable pub items : Value V → Converted (Values V)
  items none_value = raises type_error
  items (one v) = py.iterate v
  items (list_of vs) = ok vs
  items (tuple_of vs) = ok vs
  items (dict_of d) = ok (keys d)

  unfoldable pub tuple_items : Value V → Converted (Values V)
  unfolding items
  tuple_items (dict_of d) = ok (dict_values d)
  tuple_items v = items v

  unfoldable pub convert_type : Value V → Converted (Value V)
  unfolding tuple_items
  convert_type none_value = ok none_value
  convert_type v = do vs ← tuple_items v; ok (tuple_of vs)

  unfoldable pub container_class : NamedMembers → Values V → Converted (Value V)
  container_class fs vs = if size vs == count_named fs then ok (tuple_of vs) else raises type_error

  unfoldable pub convert_named_type : NamedMembers → Value V → Converted (Value V)
  unfolding container_class items
  convert_named_type fs none_value = ok none_value
  convert_named_type fs (dict_of d) = do vs ← py.by_names fs d; ok (tuple_of vs)
  convert_named_type fs v = do vs ← items v; container_class fs vs

  unfoldable pub read_array : (Value V → Converted (Value V)) → Value V → Converted (Value V)
  unfolding items
  read_array read none_value = ok none_value
  read_array read v = do vs ← items v; ws ← convert_each read vs; ok (list_of ws)

  unfoldable pub read_map :
      (Value V → Converted (Value V))
      → (Value V → Converted (Value V))
      → Value V
      → Converted (Value V)
  read_map read_key read_value none_value = ok none_value
  read_map read_key read_value (dict_of d) = do
    made ← convert_pairs py.same read_key read_value d end
    ok (dict_of made)
  read_map read_key read_value v = raises attribute_error

  unfoldable pub read_members :
      ℕ
      → (Values V → Converted (Values V))
      → (Values V → Converted (Value V))
      → Value V
      → Converted (Value V)
  unfolding tuple_items
  read_members fields read convert none_value = ok none_value
  read_members fields read convert v = do
    vs ← tuple_items v
    ws ← if size vs == fields then read vs else raises validation_error
    convert ws

module _ {V : Type 0} (py : Python V) (read_one : Scalar → Value V → Converted (Value V)) where
  unfoldable mutual
    unfolding read_array read_map read_members convert_type convert_named_type container_class

    pub from_db : Field → Value V → Converted (Value V)
    from_db (scalar null low s) v = if has_reader s then read_one s v else ok v
    from_db (array f) v = if has_from_db_value f then read_array py (from_db f) v else ok v
    from_db (map_of k f) v =
        if has_from_db_value k || has_from_db_value f
        then read_map py (from_db k) (from_db f) v
        else ok v
    from_db (tuple fs) v =
        if any_member fs
        then read_members py (count_members fs) (from_db_members fs) (λ ws. ok (tuple_of ws)) v
        else convert_type py v
    from_db (named_tuple fs) v =
        if any_named fs
        then read_members py (count_named fs) (from_db_named fs) (container_class py fs) v
        else convert_named_type py fs v

    pub from_db_members : Members → Values V → Converted (Values V)
    from_db_members (last f) = convert_last (from_db f)
    from_db_members (member f fs) = convert_member (from_db f) (from_db_members fs)

    pub from_db_named : NamedMembers → Values V → Converted (Values V)
    from_db_named (named_last n f) = convert_last (from_db f)
    from_db_named (named n f fs) = convert_member (from_db f) (from_db_named fs)
