-- ===== src/Models/Fields/Values/Returned.antt =====
-- What is prepared for the database and read back from it.
use django_clickhouse_backen.Prelude.{
  ◌≡◌, ◌↔◌, refl, ap, true, ◌||◌, Bool-cases, inl, inr, arith, ◌==◌,
}
use django_clickhouse_backen.Models.Fields.{
  Scalar, Field, Members, NamedMembers, scalar, array, map_of, tuple, named_tuple, last, member,
  named_last, named,
}
use django_clickhouse_backen.Models.Fields.Values.{
  Value, Values, Pairs, Converted, none_value, one, list_of, tuple_of, dict_of, end, pair, ok, size,
  count_members, count_named, prepare, prepare_members, prepare_named,
}
use django_clickhouse_backen.Models.Fields.Values.Read.{
  Python, has_from_db_value, any_member, any_named, from_db, from_db_members, from_db_named,
}
use django_clickhouse_backen.Models.Fields.Values.Shape.{EachPair, ValueOf, ValuesOf, NamedOf}
use django_clickhouse_backen.Models.Fields.Values.Dicts.{Back, AllBack, pairs_returned}
use django_clickhouse_backen.Models.Fields.Values.Parts.{
  if_same, no_reader, Returned, MembersReturned, array_returned, last_returned, member_returned,
}

module _ {V : Type 0} (py : Python V)
    (prepare_one read_one : Scalar → Value V → Converted (Value V)) where
  abbrev Fits : Field → Value V → Type 0
  Fits = ValueOf py prepare_one read_one

  abbrev FitsAll : Members → Values V → Type 0
  FitsAll = ValuesOf py prepare_one read_one

  abbrev FitsNamed : NamedMembers → Values V → Type 0
  FitsNamed = NamedOf py prepare_one read_one

  tuple_returned :
      (fs : Members)
      → ((vs : Values V)
          → FitsAll fs vs
          → MembersReturned py prepare_one read_one
              (count_members fs)
              (any_member fs)
              (prepare_members py.same prepare_one fs)
              (from_db_members py read_one fs)
              vs)
      → (v : Value V) → Fits (tuple fs) v
      → Returned py prepare_one read_one (tuple fs) v
  unfolding Returned prepare from_db ValueOf MembersReturned
  tuple_returned fs r none_value h = (none_value, refl, if_same _ _)
  tuple_returned fs r (tuple_of vs) h =
      let (ws, p, q, n, m, s) = r vs h in
      let n' : (size vs == count_members fs) ≡ true = ground arith in
      let m' : (size ws == count_members fs) ≡ true = ground arith in
      (
        tuple_of ws,
        rw (n', p) refl,
        elim (Bool-cases (any_member fs)) [
          | inl e ↦ rw (e, m', q) refl
          | inr e ↦ rw e (ap (λ us. ok (tuple_of us)) (s e))
        ],
      )
  tuple_returned fs r (one v) h = absurd h
  tuple_returned fs r (list_of v) h = absurd h
  tuple_returned fs r (dict_of v) h = absurd h

  named_returned :
      (fs : NamedMembers)
      → ((vs : Values V)
          → FitsNamed fs vs
          → MembersReturned py prepare_one read_one
              (count_named fs)
              (any_named fs)
              (prepare_named py.same prepare_one fs)
              (from_db_named py read_one fs)
              vs)
      → (v : Value V) → Fits (named_tuple fs) v
      → Returned py prepare_one read_one (named_tuple fs) v
  unfolding Returned prepare from_db ValueOf MembersReturned
  named_returned fs r none_value h = (none_value, refl, if_same _ _)
  named_returned fs r (tuple_of vs) h =
      let (ws, p, q, n, m, s) = r vs h in
      let n' : (size vs == count_named fs) ≡ true = ground arith in
      let m' : (size ws == count_named fs) ≡ true = ground arith in
      (
        tuple_of ws,
        rw (n', p) refl,
        elim (Bool-cases (any_named fs)) [
          | inl e ↦ rw (e, m', q, n') refl
          | inr e ↦ rw (e, m') (ap (λ us. ok (tuple_of us)) (s e))
        ],
      )
  named_returned fs r (one v) h = absurd h
  named_returned fs r (list_of v) h = absurd h
  named_returned fs r (dict_of v) h = absurd h

  back :
      (f : Field) (v : Value V)
      → Returned py prepare_one read_one f v
      → (w : Value V) × Back (prepare py.same prepare_one f) (from_db py read_one f) v w
  unfolding Returned
  back f v (w, p, q) = (w, (p, q))

  all_back :
      (k f : Field)
      → ((v : Value V) → Fits k v → Returned py prepare_one read_one k v)
      → ((v : Value V) → Fits f v → Returned py prepare_one read_one f v)
      → (d : Pairs V) → EachPair (Fits k) (Fits f) d
      → AllBack py.same
          (prepare py.same prepare_one k)
          (from_db py read_one k)
          (prepare py.same prepare_one f)
          (from_db py read_one f)
          d
  unfolding EachPair AllBack Returned
  all_back k f rk rf end h = tt
  all_back k f rk rf (pair j v d) (hj, hv, h) =
      (back k j (rk j hj), back f v (rf v hv), all_back k f rk rf d h)

  map_returned :
      (same_iff : (a b : Value V) → (py.same a b ≡ true) ↔ (a ≡ b))
      → (k f : Field) → ((v : Value V) → Fits k v → Returned py prepare_one read_one k v)
      → ((v : Value V) → Fits f v → Returned py prepare_one read_one f v)
      → (v : Value V) → Fits (map_of k f) v
      → Returned py prepare_one read_one (map_of k f) v
  unfolding Returned prepare from_db ValueOf
  map_returned same_iff k f rk rf none_value h = (none_value, refl, if_same _ _)
  map_returned same_iff k f rk rf (dict_of d) (h, r) =
      let (e, p, q, s) =
        pairs_returned py.same (prepare py.same prepare_one k) (from_db py read_one k)
          (prepare py.same prepare_one f) (from_db py read_one f) same_iff d
          (all_back k f rk rf d h) r in
      (
        dict_of e,
        rw p refl,
        elim (Bool-cases (has_from_db_value k || has_from_db_value f)) [
          | inl b ↦ rw (b, q) refl
          | inr b ↦
              let same_dict =
                s (λ v. no_reader py prepare_one read_one k v (ground arith))
                  (λ v. no_reader py prepare_one read_one f v (ground arith)) in
              rw b (ap (λ c. ok (dict_of c)) same_dict)
        ],
      )
  map_returned same_iff k f rk rf (one v) h = absurd h
  map_returned same_iff k f rk rf (list_of v) h = absurd h
  map_returned same_iff k f rk rf (tuple_of v) h = absurd h

  module _ (same_iff : (a b : Value V) → (py.same a b ≡ true) ↔ (a ≡ b)) where
    mutual
      unfolding ValueOf prepare from_db count_members count_named any_member any_named Returned

      returned : (f : Field) (v : Value V) → Fits f v → Returned py prepare_one read_one f v
      returned (scalar null low s) v h = h
      returned (array f) v h = array_returned py prepare_one read_one f (returned f) v h
      returned (map_of k f) v h = map_returned same_iff k f (returned k) (returned f) v h
      returned (tuple fs) v h = tuple_returned fs (members_returned fs) v h
      returned (named_tuple fs) v h = named_returned fs (all_named_returned fs) v h

      members_returned :
          (fs : Members) (vs : Values V)
          → FitsAll fs vs
          → MembersReturned py prepare_one read_one
              (count_members fs)
              (any_member fs)
              (prepare_members py.same prepare_one fs)
              (from_db_members py read_one fs)
              vs
      members_returned (last f) vs h = last_returned py prepare_one read_one f (returned f) vs h
      members_returned (member f fs) vs h =
          member_returned py prepare_one read_one f (count_members fs) (any_member fs)
            (prepare_members py.same prepare_one fs) (from_db_members py read_one fs) (returned f)
            (FitsAll fs) (members_returned fs) vs h

      all_named_returned :
          (fs : NamedMembers) (vs : Values V)
          → FitsNamed fs vs
          → MembersReturned py prepare_one read_one
              (count_named fs)
              (any_named fs)
              (prepare_named py.same prepare_one fs)
              (from_db_named py read_one fs)
              vs
      all_named_returned (named_last n f) vs h =
          last_returned py prepare_one read_one f (returned f) vs h
      all_named_returned (named n f fs) vs h =
          member_returned py prepare_one read_one f (count_named fs) (any_named fs)
            (prepare_named py.same prepare_one fs) (from_db_named py read_one fs) (returned f)
            (FitsNamed fs) (all_named_returned fs) vs h

    -- Where keys of dicts are the same exactly when they are equal, a value of any field, nested however
    -- deep, whose parts with one value are each read back as they were before they were prepared, is
    -- prepared without an exception, and what was prepared is read back as that value.
    pub from_db-prepare :
        (f : Field) (v : Value V)
        → ValueOf py prepare_one read_one f v
        → (w : Value V) × (prepare py.same prepare_one f v ≡ ok w)
          × (from_db py read_one f w ≡ ok v)
    unfolding Returned
    from_db-prepare f v h = returned f v h
