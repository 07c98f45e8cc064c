-- ===== src/Models/Fields/Validate/Faults.antt =====
-- What an error of validation says of the value.
use django_clickhouse_backen.Prelude.{
  ℕ, suc, ◌≡◌, ◌≢◌, ◌⊎◌, Bool, false, Option, none, some, ◌==◌, if◌then◌else◌,
}
use django_clickhouse_backen.Models.Fields.{
  Field, Members, NamedMembers, scalar, array, map_of, tuple, named_tuple, last, member, named_last,
  named,
}
use django_clickhouse_backen.Models.Fields.Values.{
  Value, Values, Pairs, dict_of, nil, more, end, pair, ok, size, count_members, count_named,
}
use django_clickhouse_backen.Models.Fields.Values.Read.{Python, items}
use django_clickhouse_backen.Models.Fields.Validate.{
  Fault, own_invalid, length_mismatch, item_invalid, key_invalid, value_invalid,
}

module _ {V : Type 0} where
  -- The item with a number, where the first has the number n
  unfoldable pub nth : ℕ → Values V → ℕ → Option (Value V)
  nth n nil m = none
  nth n (more v vs) m = let rest = nth (suc n) vs m in if n == m then some v else rest

  unfoldable pub HasKey : Value V → Pairs V → Type 0
  HasKey k end = ⊥
  HasKey k (pair j v d) = (j ≡ k) ⊎ HasKey k d

  unfoldable pub HasValue : Value V → Pairs V → Type 0
  HasValue w end = ⊥
  HasValue w (pair j v d) = (v ≡ w) ⊎ HasValue w d

unfoldable pub nth_member : ℕ → Members → ℕ → Option Field
nth_member n (last f) m = if n == m then some f else none
nth_member n (member f fs) m = let rest = nth_member (suc n) fs m in if n == m then some f else rest

unfoldable pub nth_named : ℕ → NamedMembers → ℕ → Option Field
nth_named n (named_last t f) m = if n == m then some f else none
nth_named n (named t f fs) m = let rest = nth_named (suc n) fs m in if n == m then some f else rest

-- The field of the items with a number
unfoldable pub item_field : Field → ℕ → Option Field
unfolding nth_member nth_named
item_field (scalar null low s) m = none
item_field (array f) m = some f
item_field (map_of k f) m = none
item_field (tuple fs) m = nth_member 1 fs m
item_field (named_tuple fs) m = nth_named 1 fs m

module _ {V : Type 0} (py : Python V) (own : Field → Value V → Bool) where
  unfoldable pub Mismatch : Field → Value V → Type 0
  Mismatch (scalar null low s) v = ⊥
  Mismatch (array f) v = ⊥
  Mismatch (map_of k f) v = ⊥
  Mismatch (tuple fs) v = (vs : Values V) × (items py v ≡ ok vs) × (size vs ≢ count_members fs)
  Mismatch (named_tuple fs) v = (vs : Values V) × (items py v ≡ ok vs) × (size vs ≢ count_named fs)

  -- The error is about the value of the field: the field refuses the value itself, its length is not
  -- the number of the base fields, or the part that is named has the error inside.
  unfoldable pub Names : Fault V → Field → Value V → Type 0
  Names own_invalid f v = own f v ≡ false
  Names length_mismatch f v = Mismatch f v
  Names (item_invalid n e) f v =
      (vs : Values V) × (g : Field) × (w : Value V) × (items py v ≡ ok vs)
      × (item_field f n ≡ some g)
      × (nth 1 vs n ≡ some w)
      × Names e g w
  Names (key_invalid k e) f v =
      (g : Field) × (h : Field) × (d : Pairs V) × (f ≡ map_of g h)
      × (v ≡ dict_of d)
      × HasKey k d
      × Names e g k
  Names (value_invalid w e) f v =
      (g : Field) × (h : Field) × (d : Pairs V) × (f ≡ map_of g h)
      × (v ≡ dict_of d)
      × HasValue w d
      × Names e h w
