-- ===== src/Models/Fields/Values/Examples.antt =====
-- An array of tuples of an address and a number, and a map.
use native.Mathlib.Decide.{ℕ_discrete}
use django_clickhouse_backen.Prelude.{
  ℕ, suc, ◌≡◌, ◌≢◌, ◌↔◌, refl, Bool, true, false, not, Bool-cases, inl, inr, arith, ◌==◌,
}
use django_clickhouse_backen.Models.Fields.{
  Scalar, Field, scalar, array, map_of, tuple, last, member, ipv4, int8, string,
}
use django_clickhouse_backen.Models.Fields.Values.{
  Value, Converted, none_value, one, list_of, tuple_of, dict_of, nil, more, end, pair, ok, raises,
  type_error, prepare, keys, size, count_members,
}
use django_clickhouse_backen.Models.Fields.Values.Read.{Python, has_reader, items, from_db}
use django_clickhouse_backen.Models.Fields.Values.Dicts.{Fresh, Absent, append}
use django_clickhouse_backen.Models.Fields.Values.Shape.{ValueOf, EachPair}
use django_clickhouse_backen.Models.Fields.Values.Returned.{from_db-prepare}
use django_clickhouse_backen.Models.Fields.Validate.{
  Fault, own_invalid, item_invalid, value_invalid, valid, invalid, validate, validate_map,
  validate_pairs, validate_array, validate_each, validate_tuple, validate_member, validate_last,
}
use django_clickhouse_backen.Models.Fields.Validate.Faults.{Names}
use django_clickhouse_backen.Models.Fields.Validate.Sound.{validate-Names}
use django_clickhouse_backen.Models.Fields.Validate.Complete.{Names-refuses}

Value-discrete : Discrete (Value ℕ)
Value-discrete = hlevel (ℕ_discrete)

same_value : Value ℕ → Value ℕ → Bool
same_value a b = elim (Value-discrete a b) [ yes p ↦ true | no p ↦ false ]

same_value_iff : (a b : Value ℕ) → (same_value a b ≡ true) ↔ (a ≡ b)
unfolding same_value
same_value_iff a b =
    elim (Value-discrete a b) as (λ x. (elim x [ yes p ↦ true | no p ↦ false ] ≡ true) ↔ (a ≡ b)) [
      | yes p ↦ (λ e. p, λ e. refl)
      | no p ↦ (λ e. cc, λ e. absurd (p e))
    ]

-- An address, the number n, is sent as n + 1.
prepare_one : Scalar → Value ℕ → Converted (Value ℕ)
prepare_one ipv4 (one n) = ok (one (suc n))
prepare_one s v = ok v

read_one : Scalar → Value ℕ → Converted (Value ℕ)
read_one ipv4 (one (suc n)) = ok (one n)
read_one s v = ok v

abbrev python : Python ℕ
python = record {
  same = same_value;
  iterate = λ n. raises type_error;
  by_names = λ fs d. ok (keys d);
}

abbrev field : Field
field =
    map_of (scalar false false string)
      (array (tuple (member (scalar false false ipv4) (last (scalar false false int8)))))

abbrev hosts : Value ℕ
hosts = dict_of (
    pair (one 1) (list_of (more (tuple_of (more (one 5) (more (one 7) nil))) nil))
      (pair (one 2) none_value end))

same_one : same_value (one 1) (one 2) ≡ false
same_one = elim (Bool-cases (same_value (one 1) (one 2))) [
  | inl e ↦
      let p : ◌≡◌ {A = Value ℕ} (one 1) (one 2) = (same_value_iff (one 1) (one 2)).0 e in
      absurd (ground arith)
  | inr e ↦ e
]

hosts_fit : ValueOf python prepare_one read_one field hosts
unfolding ValueOf prepare_one read_one has_reader Fresh Absent append EachPair
hosts_fit = (
  (
    (one 1, refl, refl),
    (((one 6, refl, refl), (one 7, refl, refl)), tt),
    ((one 2, refl, refl), tt, tt),
  ),
  (tt, ((same_one, tt), tt)),
)

from_db-prepare_example :
    (w : Value ℕ) × (prepare same_value prepare_one field hosts ≡ ok w)
    × (from_db python read_one field w ≡ ok hosts)
from_db-prepare_example =
    from_db-prepare python prepare_one read_one same_value_iff field hosts hosts_fit

-- No field with one value accepts the number 7.
own : Field → Value ℕ → Bool
own (scalar null low s) (one n) = not (n == 7)
own f v = true

abbrev fault : Fault ℕ
fault =
    value_invalid (list_of (more (tuple_of (more (one 5) (more (one 7) nil))) nil))
      (item_invalid 1 (item_invalid 2 own_invalid))

refused : validate python own field hosts ≡ invalid fault
unfolding own validate validate_map validate_pairs validate_array validate_each validate_tuple
    validate_member validate_last items size count_members
refused = refl

validate-Names_example : Names python own fault field hosts
validate-Names_example = validate-Names python own field hosts fault refused

fault_named : Names python own fault field hosts
fault_named = validate-Names python own field hosts fault refused

Names-refuses_example : validate python own field hosts ≢ valid
Names-refuses_example = Names-refuses python own field hosts fault fault_named
