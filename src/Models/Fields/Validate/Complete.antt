-- ===== src/Models/Fields/Validate/Complete.antt =====
-- A value with a fault does not pass validation.
use django_clickhouse_backen.Prelude.{
  ℕ, ◌≡◌, ◌≢◌, inl, inr, Bool, true, Bool-cases, arith, ◌==◌, subst, sym,
}
use django_clickhouse_backen.Models.Fields.{
  Scalar, Field, Members, NamedMembers, scalar, array, map_of, tuple, named_tuple, last, member,
  named_last, named,
}
use django_clickhouse_backen.Models.Fields.Values.{
  Value, Values, ok, size, count_members, count_named,
}
use django_clickhouse_backen.Models.Fields.Values.Read.{Python, items}
use django_clickhouse_backen.Models.Fields.Validate.{
  Fault, own_invalid, length_mismatch, item_invalid, key_invalid, value_invalid, Outcome, valid,
  validate_array, validate_tuple, validate_map, own_first, validate, validate_members,
  validate_named,
}
use django_clickhouse_backen.Models.Fields.Validate.Faults.{
  nth_member, nth_named, item_field, Mismatch, Names,
}
use django_clickhouse_backen.Models.Fields.Validate.Accepted.{
  Complete, each-Complete, PartsComplete, last-Complete, member-Complete, key-Complete,
  value-Complete,
}

module _ {V : Type 0} (py : Python V) (own : Field → Value V → Bool) where
  own_valid :
      (f : Field) (v : Value V) (next : Outcome V)
      → own_first py own f v next ≡ valid
      → (own f v ≡ true) × (next ≡ valid)
  unfolding own_first
  own_valid f v next h = elim (Bool-cases (own f v)) [
    | inl t ↦ (t, ground arith)
    | inr t ↦ absurd (ground arith)
  ]

  scalar-Complete : (null low : Bool) (s : Scalar) → Complete py own (scalar null low s)
  unfolding Complete validate Names item_field Mismatch
  scalar-Complete null low s v own_invalid names h =
      let (t, _) = own_valid (scalar null low s) v valid h in cc
  scalar-Complete null low s v length_mismatch names h = names
  scalar-Complete null low s v (item_invalid n e) (vs, g, w, i, at, item, names) h = cc
  scalar-Complete null low s v (key_invalid k e) (g, i, d, p, q, at, names) h = cc
  scalar-Complete null low s v (value_invalid k e) (g, i, d, p, q, at, names) h = cc

  array-Complete : (f : Field) → Complete py own f → Complete py own (array f)
  unfolding Complete validate validate_array Names item_field Mismatch
  array-Complete f complete v own_invalid names h =
      let (t, _) = own_valid (array f) v (validate_array (validate py own f) (items py v)) h in cc
  array-Complete f complete v length_mismatch names h = names
  array-Complete f complete v (item_invalid n e) (vs, g, w, i, at, item, names) h =
      let (_, b) = own_valid (array f) v (validate_array (validate py own f) (items py v)) h in
      let q : f ≡ g = cc in
      each-Complete py own f 1 n vs w e complete item
        (subst (λ x. Names py own e x w) (sym q) names)
        (subst (λ x. validate_array (validate py own f) x ≡ valid) i b)
  array-Complete f complete v (key_invalid k e) (g, i, d, p, q, at, names) h = cc
  array-Complete f complete v (value_invalid k e) (g, i, d, p, q, at, names) h = cc

  map-Complete :
      (k f : Field) → Complete py own k → Complete py own f → Complete py own (map_of k f)
  unfolding Complete validate validate_map Names item_field Mismatch
  map-Complete k f ck cf v own_invalid names h =
      let (t, _) =
        own_valid (map_of k f) v (validate_map (validate py own k) (validate py own f) v) h in
      cc
  map-Complete k f ck cf v length_mismatch names h = names
  map-Complete k f ck cf v (item_invalid n e) (vs, g, w, i, at, item, names) h = cc
  map-Complete k f ck cf v (key_invalid j e) (g, i, d, p, q, at, names) h =
      let (_, b) =
        own_valid (map_of k f) v (validate_map (validate py own k) (validate py own f) v) h in
      let r : k ≡ g = cc in
      key-Complete py own k f d j e ck at (subst (λ x. Names py own e x j) (sym r) names)
        (subst (λ x. validate_map (validate py own k) (validate py own f) x ≡ valid) q b)
  map-Complete k f ck cf v (value_invalid j e) (g, i, d, p, q, at, names) h =
      let (_, b) =
        own_valid (map_of k f) v (validate_map (validate py own k) (validate py own f) v) h in
      let r : f ≡ i = cc in
      value-Complete py own k f d j e cf at (subst (λ x. Names py own e x j) (sym r) names)
        (subst (λ x. validate_map (validate py own k) (validate py own f) x ≡ valid) q b)

  -- A tuple that passes has as many items as base fields, and its items pass.
  tuple_valid :
      (fields : ℕ) (check : ℕ → Values V → Outcome V) (vs : Values V)
      → validate_tuple fields check (ok vs) ≡ valid
      → (size vs ≡ fields) × (check 1 vs ≡ valid)
  unfolding validate_tuple
  tuple_valid fields check vs h = elim (Bool-cases (size vs == fields)) [
    | inl t ↦ (ground arith, ground arith)
    | inr t ↦ absurd (ground arith)
  ]

  tuple-Complete :
      (fs : Members)
      → PartsComplete py own (λ k m. nth_member k fs m) (validate_members py own fs)
      → Complete py own (tuple fs)
  unfolding Complete PartsComplete validate Names item_field Mismatch
  tuple-Complete fs complete v own_invalid names h =
      let (t, _) =
        own_valid (tuple fs) v
          (validate_tuple (count_members fs) (validate_members py own fs) (items py v)) h in
      cc
  tuple-Complete fs complete v length_mismatch (vs, i, n) h =
      let (_, b) =
        own_valid (tuple fs) v
          (validate_tuple (count_members fs) (validate_members py own fs) (items py v)) h in
      let check = validate_tuple (count_members fs) (validate_members py own fs) in
      n
        (tuple_valid (count_members fs) (validate_members py own fs) vs
          (subst (λ x. check x ≡ valid) i b)).0
  tuple-Complete fs complete v (item_invalid n e) (vs, g, w, i, at, item, names) h =
      let (_, b) =
        own_valid (tuple fs) v
          (validate_tuple (count_members fs) (validate_members py own fs) (items py v)) h in
      let check = validate_tuple (count_members fs) (validate_members py own fs) in
      complete 1 n vs g w e at item names
        (tuple_valid (count_members fs) (validate_members py own fs) vs
          (subst (λ x. check x ≡ valid) i b)).1
  tuple-Complete fs complete v (key_invalid j e) (g, i, d, p, q, at, names) h = cc
  tuple-Complete fs complete v (value_invalid j e) (g, i, d, p, q, at, names) h = cc

  named-Complete :
      (fs : NamedMembers)
      → PartsComplete py own (λ k m. nth_named k fs m) (validate_named py own fs)
      → Complete py own (named_tuple fs)
  unfolding Complete PartsComplete validate Names item_field Mismatch
  named-Complete fs complete v own_invalid names h =
      let (t, _) =
        own_valid (named_tuple fs) v
          (validate_tuple (count_named fs) (validate_named py own fs) (items py v)) h in
      cc
  named-Complete fs complete v length_mismatch (vs, i, n) h =
      let (_, b) =
        own_valid (named_tuple fs) v
          (validate_tuple (count_named fs) (validate_named py own fs) (items py v)) h in
      let check = validate_tuple (count_named fs) (validate_named py own fs) in
      n
        (tuple_valid (count_named fs) (validate_named py own fs) vs
          (subst (λ x. check x ≡ valid) i b)).0
  named-Complete fs complete v (item_invalid n e) (vs, g, w, i, at, item, names) h =
      let (_, b) =
        own_valid (named_tuple fs) v
          (validate_tuple (count_named fs) (validate_named py own fs) (items py v)) h in
      let check = validate_tuple (count_named fs) (validate_named py own fs) in
      complete 1 n vs g w e at item names
        (tuple_valid (count_named fs) (validate_named py own fs) vs
          (subst (λ x. check x ≡ valid) i b)).1
  named-Complete fs complete v (key_invalid j e) (g, i, d, p, q, at, names) h = cc
  named-Complete fs complete v (value_invalid j e) (g, i, d, p, q, at, names) h = cc

  mutual
    unfolding nth_member nth_named validate

    all-Complete : (f : Field) → Complete py own f
    all-Complete (scalar null low s) = scalar-Complete null low s
    all-Complete (array f) = array-Complete f (all-Complete f)
    all-Complete (map_of k f) = map-Complete k f (all-Complete k) (all-Complete f)
    all-Complete (tuple fs) = tuple-Complete fs (members-Complete fs)
    all-Complete (named_tuple fs) = named-Complete fs (all_named-Complete fs)

    members-Complete :
        (fs : Members)
        → PartsComplete py own (λ k m. nth_member k fs m) (validate_members py own fs)
    members-Complete (last f) = last-Complete py own f (all-Complete f)
    members-Complete (member f fs) =
        member-Complete py own f (validate_members py own fs) (λ k m. nth_member k fs m)
          (all-Complete f) (members-Complete fs)

    all_named-Complete :
        (fs : NamedMembers)
        → PartsComplete py own (λ k m. nth_named k fs m) (validate_named py own fs)
    all_named-Complete (named_last t f) = last-Complete py own f (all-Complete f)
    all_named-Complete (named t f fs) =
        member-Complete py own f (validate_named py own fs) (λ k m. nth_named k fs m)
          (all-Complete f) (all_named-Complete fs)

  -- A value with a fault in any part, however deep, is never valid.
  pub Names-refuses :
      (f : Field) (v : Value V) (e : Fault V) → Names py own e f v → validate py own f v ≢ valid
  unfolding Complete
  Names-refuses f v e names h = all-Complete f v e names h
