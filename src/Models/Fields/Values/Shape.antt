-- ===== src/Models/Fields/Values/Shape.antt =====
-- The values that fit a field.
use django_clickhouse_backen.Prelude.{◌≡◌, Bool, if◌then◌else◌}
use django_clickhouse_backen.Models.Fields.{
  Scalar, Field, Members, NamedMembers, scalar, array, map_of, tuple, named_tuple, last, member,
  named_last, named,
}
use django_clickhouse_backen.Models.Fields.Values.{
  Value, Values, Pairs, Converted, none_value, one, list_of, tuple_of, dict_of, nil, more, end,
  pair, ok,
}
use django_clickhouse_backen.Models.Fields.Values.Read.{Python, has_reader}
use django_clickhouse_backen.Models.Fields.Values.Dicts.{Fresh}

module _ {V : Type 0} where
  -- Each item has the property.
  unfoldable pub Each : (Value V → Type 0) → Values V → Type 0
  Each P nil = Unit
  Each P (more v vs) = P v × Each P vs

  unfoldable pub EachPair : (Value V → Type 0) → (Value V → Type 0) → Pairs V → Type 0
  EachPair P Q end = Unit
  EachPair P Q (pair k v d) = P k × Q v × EachPair P Q d

  -- None, or a list whose items have the property
  unfoldable pub ListOf : (Value V → Type 0) → Value V → Type 0
  unfolding Each
  ListOf P none_value = Unit
  ListOf P (one v) = ⊥
  ListOf P (list_of vs) = Each P vs
  ListOf P (tuple_of vs) = ⊥
  ListOf P (dict_of d) = ⊥

  unfoldable pub TupleOf : (Values V → Type 0) → Value V → Type 0
  TupleOf P none_value = Unit
  TupleOf P (one v) = ⊥
  TupleOf P (list_of vs) = ⊥
  TupleOf P (tuple_of vs) = P vs
  TupleOf P (dict_of d) = ⊥

  unfoldable pub DictOf :
      (Value V → Value V → Bool) → (Value V → Type 0) → (Value V → Type 0) → Value V → Type 0
  unfolding EachPair
  DictOf same P Q none_value = Unit
  DictOf same P Q (one v) = ⊥
  DictOf same P Q (list_of vs) = ⊥
  DictOf same P Q (tuple_of vs) = ⊥
  DictOf same P Q (dict_of d) = EachPair P Q d × Fresh same d end

  unfoldable pub LastOf : (Value V → Type 0) → Values V → Type 0
  LastOf P nil = ⊥
  LastOf P (more v nil) = P v
  LastOf P (more v (more w vs)) = ⊥

  unfoldable pub MemberOf : (Value V → Type 0) → (Values V → Type 0) → Values V → Type 0
  MemberOf P Q nil = ⊥
  MemberOf P Q (more v vs) = P v × Q vs

module _ {V : Type 0} (py : Python V)
    (prepare_one read_one : Scalar → Value V → Converted (Value V)) where
  -- The client's value of a field with one value is read as the value that was prepared.
  unfoldable pub Kept : Scalar → Value V → Type 0
  Kept s v =
      (w : Value V) × (prepare_one s v ≡ ok w)
      × ((if has_reader s then read_one s w else ok w) ≡ ok v)

  -- A value of the field: a list for an array, a dict with distinct keys for a map, a tuple of the right
  -- length for a tuple, or None for any of them; inside, values that are kept.
  unfoldable mutual
    unfolding ListOf TupleOf DictOf LastOf MemberOf Kept

    pub ValueOf : Field → Value V → Type 0
    ValueOf (scalar null low s) = Kept s
    ValueOf (array f) = ListOf (ValueOf f)
    ValueOf (map_of k f) = DictOf py.same (ValueOf k) (ValueOf f)
    ValueOf (tuple fs) = TupleOf (ValuesOf fs)
    ValueOf (named_tuple fs) = TupleOf (NamedOf fs)

    pub ValuesOf : Members → Values V → Type 0
    ValuesOf (last f) = LastOf (ValueOf f)
    ValuesOf (member f fs) = MemberOf (ValueOf f) (ValuesOf fs)

    pub NamedOf : NamedMembers → Values V → Type 0
    NamedOf (named_last n f) = LastOf (ValueOf f)
    NamedOf (named n f fs) = MemberOf (ValueOf f) (NamedOf fs)
