-- ===== src/Models/Fields/Values/Parts.antt =====
-- The parts of a value that are prepared for the database and read back from it.
use django_clickhouse_backen.Prelude.{
  ℕ, suc, ◌≡◌, refl, ap, Bool, true, false, ◌||◌, Bool-cases, inl, inr, arith, if◌then◌else◌,
}
use django_clickhouse_backen.Models.Fields.{
  Scalar, Field, Members, NamedMembers, scalar, array, map_of, tuple, named_tuple,
}
use django_clickhouse_backen.Models.Fields.Values.{
  Value, Values, Converted, none_value, one, list_of, tuple_of, dict_of, nil, more, ok, size,
  convert_each, convert_last, convert_member, prepare,
}
use django_clickhouse_backen.Models.Fields.Values.Read.{Python, has_from_db_value, from_db}
use django_clickhouse_backen.Models.Fields.Values.Shape.{
  Each, LastOf, MemberOf, ValueOf, ValuesOf, NamedOf,
}

pub if_same : {A : Type 0} (b : Bool) (x : A) → (if b then x else x) ≡ x
if_same true x = refl
if_same false x = refl

module _ {V : Type 0} (py : Python V)
    (prepare_one read_one : Scalar → Value V → Converted (Value V)) where
  abbrev pub Fits : Field → Value V → Type 0
  Fits = ValueOf py prepare_one read_one

  abbrev pub FitsAll : Members → Values V → Type 0
  FitsAll = ValuesOf py prepare_one read_one

  abbrev pub FitsNamed : NamedMembers → Values V → Type 0
  FitsNamed = NamedOf py prepare_one read_one

  -- A field without from_db_value gives the value itself.
  pub no_reader :
      (f : Field) (v : Value V) → has_from_db_value f ≡ false → from_db py read_one f v ≡ ok v
  unfolding from_db has_from_db_value
  no_reader (scalar null low s) v h = rw h
  no_reader (array f) v h = rw h
  no_reader (map_of k f) v h = rw h
  no_reader (tuple fs) v h = cc
  no_reader (named_tuple fs) v h = cc

  same_value :
      (f : Field) (v w : Value V)
      → has_from_db_value f ≡ false
      → from_db py read_one f w ≡ ok v
      → w ≡ v
  same_value f v w h e = cc (no_reader f w h)

  unfoldable pub Returned : Field → Value V → Type 0
  Returned f v =
      (w : Value V) × (prepare py.same prepare_one f v ≡ ok w) × (from_db py read_one f w ≡ ok v)

  Each-returned :
      (f : Field)
      → ((v : Value V) → Fits f v → Returned f v)
      → (vs : Values V) → Each (Fits f) vs
      → (ws : Values V) × (convert_each (prepare py.same prepare_one f) vs ≡ ok ws)
        × (convert_each (from_db py read_one f) ws ≡ ok vs)
  unfolding convert_each Each Returned
  Each-returned f r nil h = (nil, refl, refl)
  Each-returned f r (more v vs) (h, hs) =
      let (w, p, q) = r v h in
      let (ws, ps, qs) = Each-returned f r vs hs in (more w ws, rw (p, ps) refl, rw (q, qs) refl)

  each_ok :
      (f : Field) (ws : Values V)
      → has_from_db_value f ≡ false
      → convert_each (from_db py read_one f) ws ≡ ok ws
  unfolding convert_each
  each_ok f nil h = refl
  each_ok f (more w ws) h = rw (no_reader f w h, each_ok f ws h) refl

  pub array_returned :
      (f : Field)
      → ((v : Value V) → Fits f v → Returned f v)
      → (v : Value V) → Fits (array f) v
      → Returned (array f) v
  unfolding Returned prepare from_db ValueOf
  array_returned f r none_value h = (none_value, refl, if_same _ _)
  array_returned f r (list_of vs) h =
      let (ws, p, q) = Each-returned f r vs h in
      (
        list_of ws,
        rw p refl,
        elim (Bool-cases (has_from_db_value f)) [
          | inl e ↦ rw (e, q) refl
          | inr e ↦ let k : ws ≡ vs = cc (each_ok f ws e) in rw e (ap (λ us. ok (list_of us)) k)
        ],
      )
  array_returned f r (one v) h = absurd h
  array_returned f r (tuple_of v) h = absurd h
  array_returned f r (dict_of v) h = absurd h

  unfoldable pub MembersReturned :
      ℕ
      → Bool
      → (Values V → Converted (Values V))
      → (Values V → Converted (Values V))
      → Values V
      → Type 0
  MembersReturned fields reads prepare_all read_all vs =
      (ws : Values V) × (prepare_all vs ≡ ok ws)
      × (read_all ws ≡ ok vs)
      × (size vs ≡ fields)
      × (size ws ≡ fields)
      × (reads ≡ false → ws ≡ vs)

  pub last_returned :
      (f : Field)
      → ((v : Value V) → Fits f v → Returned f v)
      → (vs : Values V) → LastOf (Fits f) vs
      → MembersReturned 1
          (has_from_db_value f)
          (convert_last (prepare py.same prepare_one f))
          (convert_last (from_db py read_one f))
          vs
  unfolding MembersReturned LastOf Returned convert_last size
  last_returned f r nil h = absurd h
  last_returned f r (more v nil) h =
      let (w, p, q) = r v h in
      (
        more w nil,
        rw p refl,
        rw q refl,
        refl,
        refl,
        λ e. ap (λ u. more u nil) (same_value f v w e q),
      )
  last_returned f r (more v (more w vs)) h = absurd h

  pub member_returned :
      (f : Field) (fields : ℕ) (reads : Bool)
      (prepare_all read_all : Values V → Converted (Values V))
      → ((v : Value V) → Fits f v → Returned f v)
      → (P : Values V → Type 0)
      → ((vs : Values V) → P vs → MembersReturned fields reads prepare_all read_all vs)
      → (vs : Values V) → MemberOf (Fits f) P vs
      → MembersReturned
          (suc fields)
          (has_from_db_value f || reads)
          (convert_member (prepare py.same prepare_one f) prepare_all)
          (convert_member (from_db py read_one f) read_all)
          vs
  unfolding MembersReturned MemberOf Returned convert_member size
  member_returned f fields reads prepare_all read_all r P rs nil h = absurd h
  member_returned f fields reads prepare_all read_all r P rs (more v vs) (h, hs) =
      let (w, p, q) = r v h in
      let (ws, ps, qs, n, m, s) = rs vs hs in
      (
        more w ws,
        rw (p, ps) refl,
        rw (q, qs) refl,
        ap suc n,
        ap suc m,
        λ e.
            let k : w ≡ v = same_value f v w (ground arith) q in
            let ks : ws ≡ vs = s (ground arith) in cc,
      )
