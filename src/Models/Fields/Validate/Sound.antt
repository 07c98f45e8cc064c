-- ===== src/Models/Fields/Validate/Sound.antt =====
-- An error of validation names a fault.
use django_clickhouse_backen.Prelude.{
  ℕ, ◌≡◌, ◌⊎◌, inl, inr, refl, Bool, Bool-cases, arith, ◌==◌, subst, sym,
}
use django_clickhouse_backen.Models.Fields.{
  Scalar, Field, Members, NamedMembers, scalar, array, map_of, tuple, named_tuple, last, member,
  named_last, named,
}
use django_clickhouse_backen.Models.Fields.Values.{
  Value, Values, Converted, none_value, one, list_of, tuple_of, dict_of, ok, raises, size,
  count_members, count_named,
}
use django_clickhouse_backen.Models.Fields.Values.Read.{Python, items}
use django_clickhouse_backen.Models.Fields.Validate.{
  Fault, own_invalid, length_mismatch, Outcome, valid, invalid, validate_array, validate_tuple,
  validate_map, own_first, validate, validate_members, validate_named,
}
use django_clickhouse_backen.Models.Fields.Validate.Faults.{
  nth_member, nth_named, item_field, Mismatch, Names,
}
use django_clickhouse_backen.Models.Fields.Validate.Blames.{
  nth_member_from, nth_named_from, Sound, each-Names, PartNames, last-Names, member-Names,
  pairs-Names,
}

module _ {V : Type 0} (py : Python V) (own : Field → Value V → Bool) where
  own_cases :
      (f : Field) (v : Value V) (next : Outcome V) (e : Fault V)
      → own_first py own f v next ≡ invalid e
      → Names py own e f v ⊎ (next ≡ invalid e)
  unfolding own_first Names
  own_cases f v next e h = elim (Bool-cases (own f v)) [
    | inl t ↦ inr (ground arith)
    | inr t ↦ inl (let p : own_invalid ≡ e = ground arith in subst (λ i. Names py own i f v) p t)
  ]

  array-Names : (f : Field) → Sound py own f → Sound py own (array f)
  unfolding Sound validate validate_array Names item_field
  array-Names f sound v e h =
      elim (own_cases (array f) v (validate_array (validate py own f) (items py v)) e h) [
        | inl n ↦ n
        | inr b ↦ over (items py v) refl b
      ]
    where
      over :
          (vs : Converted (Values V))
          → items py v ≡ vs
          → validate_array (validate py own f) vs ≡ invalid e
          → Names py own e (array f) v
      over (ok vs) i h =
          let (m, e', w, p, q, names) = each-Names py own f 1 vs e sound h in
          subst (λ x. Names py own x (array f) v) (sym p) (vs, f, w, i, refl, q, names)
      over (raises x) i h = cc

  map-Names : (k f : Field) → Sound py own k → Sound py own f → Sound py own (map_of k f)
  unfolding Sound validate validate_map Names
  map-Names k f sk sf v e h =
      elim (own_cases (map_of k f) v (validate_map (validate py own k) (validate py own f) v) e h) [
        | inl n ↦ n
        | inr b ↦ over v b
      ]
    where
      over :
          (v : Value V)
          → validate_map (validate py own k) (validate py own f) v ≡ invalid e
          → Names py own e (map_of k f) v
      over (dict_of d) h = elim (pairs-Names py own k f d e sk sf h) [
        | inl (j, e', p, q, r) ↦
            subst (λ x. Names py own x (map_of k f) (dict_of d)) (sym p) (k, f, d, refl, refl, q, r)
        | inr (w, e', p, q, r) ↦
            subst (λ x. Names py own x (map_of k f) (dict_of d)) (sym p) (k, f, d, refl, refl, q, r)
      ]
      over none_value h = cc
      over (one x) h = cc
      over (list_of x) h = cc
      over (tuple_of x) h = cc

  MembersSound : Members → Type 0
  MembersSound fs =
      (n : ℕ) (vs : Values V) (e : Fault V)
      → validate_members py own fs n vs ≡ invalid e
      → PartNames py own (λ k m. nth_member k fs m) n vs e

  NamedSound : NamedMembers → Type 0
  NamedSound fs =
      (n : ℕ) (vs : Values V) (e : Fault V)
      → validate_named py own fs n vs ≡ invalid e
      → PartNames py own (λ k m. nth_named k fs m) n vs e

  tuple-Names : (fs : Members) → MembersSound fs → Sound py own (tuple fs)
  unfolding Sound MembersSound PartNames validate validate_tuple Names item_field Mismatch
  tuple-Names fs sound v e h =
      elim (own_cases (tuple fs) v
        (validate_tuple (count_members fs) (validate_members py own fs) (items py v)) e h) [
          | inl n ↦ n
          | inr b ↦ over (items py v) refl b
        ]
    where
      over :
          (vs : Converted (Values V))
          → items py v ≡ vs
          → validate_tuple (count_members fs) (validate_members py own fs) vs ≡ invalid e
          → Names py own e (tuple fs) v
      over (raises x) i h = cc
      over (ok vs) i h = elim (Bool-cases (size vs == count_members fs)) [
        | inl t ↦
            let (m, e', g, w, p, q, at, names) = sound 1 vs e (ground arith) in
            subst (λ x. Names py own x (tuple fs) v) (sym p) (vs, g, w, i, q, at, names)
        | inr t ↦
            let p : length_mismatch ≡ e = ground arith in
            subst (λ x. Names py own x (tuple fs) v) p (vs, i, λ n. ground arith)
      ]

  named-Names : (fs : NamedMembers) → NamedSound fs → Sound py own (named_tuple fs)
  unfolding Sound NamedSound PartNames validate validate_tuple Names item_field Mismatch
  named-Names fs sound v e h =
      elim (own_cases (named_tuple fs) v
        (validate_tuple (count_named fs) (validate_named py own fs) (items py v)) e h) [
          | inl n ↦ n
          | inr b ↦ over (items py v) refl b
        ]
    where
      over :
          (vs : Converted (Values V))
          → items py v ≡ vs
          → validate_tuple (count_named fs) (validate_named py own fs) vs ≡ invalid e
          → Names py own e (named_tuple fs) v
      over (raises x) i h = cc
      over (ok vs) i h = elim (Bool-cases (size vs == count_named fs)) [
        | inl t ↦
            let (m, e', g, w, p, q, at, names) = sound 1 vs e (ground arith) in
            subst (λ x. Names py own x (named_tuple fs) v) (sym p) (vs, g, w, i, q, at, names)
        | inr t ↦
            let p : length_mismatch ≡ e = ground arith in
            subst (λ x. Names py own x (named_tuple fs) v) p (vs, i, λ n. ground arith)
      ]

  scalar-Names : (null low : Bool) (s : Scalar) → Sound py own (scalar null low s)
  unfolding Sound validate
  scalar-Names null low s v e h = elim (own_cases (scalar null low s) v valid e h) [
    | inl n ↦ n
    | inr b ↦ absurd (cc b)
  ]

  mutual
    unfolding MembersSound NamedSound validate nth_member nth_named

    sound : (f : Field) → Sound py own f
    sound (scalar null low s) = scalar-Names null low s
    sound (array f) = array-Names f (sound f)
    sound (map_of k f) = map-Names k f (sound k) (sound f)
    sound (tuple fs) = tuple-Names fs (members_sound fs)
    sound (named_tuple fs) = named-Names fs (named_sound fs)

    members_sound : (fs : Members) → MembersSound fs
    members_sound (last f) n vs e = last-Names py own f n vs e (sound f)
    members_sound (member f fs) n vs e =
        member-Names py own f (validate_members py own fs) (λ k m. nth_member k fs m)
          (nth_member_from fs) n vs e (sound f) (members_sound fs)

    named_sound : (fs : NamedMembers) → NamedSound fs
    named_sound (named_last t f) n vs e = last-Names py own f n vs e (sound f)
    named_sound (named t f fs) n vs e =
        member-Names py own f (validate_named py own fs) (λ k m. nth_named k fs m)
          (nth_named_from fs) n vs e (sound f) (named_sound fs)

  -- A ValidationError of a field, nested however deep, names a part of the value that has the fault.
  pub validate-Names :
      (f : Field) (v : Value V) (e : Fault V) → validate py own f v ≡ invalid e → Names py own e f v
  unfolding Sound
  validate-Names f = sound f
