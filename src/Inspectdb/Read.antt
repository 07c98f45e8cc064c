-- ===== src/Inspectdb/Read.antt =====
-- inspectdb reads the types that fields write.
use django_clickhouse_backen.Prelude.{
  ℕ, zero, suc, ◌≤◌, ◌≡◌, refl, ap, subst, Bool, true, false, some, [], ◌∷◌, ◌++◌, append_assoc,
  append-nil, Text, codes, starts_with, arith,
}
use django_clickhouse_backen.Models.Fields.{
  Scalar, flagged, Field, Members, scalar, array, map_of, tuple, named_tuple, last, member,
  data_types, nested_type, db_type, member_types,
}
use django_clickhouse_backen.Inspectdb.{
  Inspected, is_alnum, merge_params, last_param, inspect_field_type, inspect_items,
}
use django_clickhouse_backen.Inspectdb.Source.{
  ReadableScalar, scalar_source, with_flags, field_source, members_source, Readable,
  ReadableMembers, Ends, calls, member_calls,
}
use django_clickhouse_backen.Inspectdb.Described.{described, field_source-described}
use django_clickhouse_backen.Inspectdb.Scalars.{scalar_read}

module _ (decoded : Text → Text) (use_tz : Bool) where
  Read : Field → Type 0
  Read f =
      (n : ℕ) (param rest : Text)
      → Readable use_tz f
      → Ends rest
      → calls f ≤ n
      → inspect_field_type decoded n (db_type use_tz f ++ rest) param
        ≡ some (field_source use_tz param f, rest)

  bracket-Ends : (rest : Text) → Ends (b')' ∷ rest)
  unfolding is_alnum
  bracket-Ends rest = (refl, omega arith)

  comma-Ends : (rest : Text) → Ends (b',' ∷ rest)
  unfolding is_alnum
  comma-Ends rest = (refl, omega arith)

  low_read :
      (n : ℕ) (t param rest : Text) {out : Text}
      → inspect_field_type decoded n
          (t ++ (b')' ∷ rest))
          (merge_params (param ∷ codes "low_cardinality=True" ∷ []))
        ≡ some (out, b')' ∷ rest)
      → inspect_field_type decoded
          (suc n)
          ((codes "LowCardinality(" ++ (t ++ codes ")")) ++ rest)
          param
        ≡ some (out, rest)
  unfolding inspect_field_type codes starts_with
  low_read n t param rest h = rw (append_assoc t (codes ")") rest, h) refl

  null_read :
      (n : ℕ) (t param rest : Text) {out : Text}
      → inspect_field_type decoded n
          (t ++ (b')' ∷ rest))
          (merge_params (param ∷ codes "null=True" ∷ codes "blank=True" ∷ []))
        ≡ some (out, b')' ∷ rest)
      → inspect_field_type decoded (suc n) ((codes "Nullable(" ++ (t ++ codes ")")) ++ rest) param
        ≡ some (out, rest)
  unfolding inspect_field_type codes starts_with
  null_read n t param rest h = rw (append_assoc t (codes ")") rest, h) refl

  nested_read :
      (null low : Bool) (s : Scalar) (n : ℕ) (param rest : Text)
      → ReadableScalar use_tz s
      → Ends rest
      → inspect_field_type decoded
          (suc (suc (suc n)))
          (nested_type null low (data_types use_tz s) ++ rest)
          param
        ≡ some (scalar_source use_tz (with_flags null low param) s, rest)
  unfolding nested_type with_flags
  nested_read true true s n param rest h e =
      low_read (suc (suc n)) (codes "Nullable(" ++ (data_types use_tz s ++ codes ")")) param rest (
        null_read (suc n) (data_types use_tz s) _ (b')' ∷ rest)
          (scalar_read decoded use_tz s n _ (b')' ∷ b')' ∷ rest) h (bracket-Ends (b')' ∷ rest))))
  nested_read false true s n param rest h e =
      low_read (suc (suc n)) (data_types use_tz s) param rest
        (scalar_read decoded use_tz s (suc n) _ (b')' ∷ rest) h (bracket-Ends rest))
  nested_read true false s n param rest h e =
      null_read (suc (suc n)) (data_types use_tz s) param rest
        (scalar_read decoded use_tz s (suc n) _ (b')' ∷ rest) h (bracket-Ends rest))
  nested_read false false s n param rest h e =
      scalar_read decoded use_tz s (suc (suc n)) param rest h e

  array_read : (f : Field) → Read f → Read (array f)
  unfolding Read Readable calls db_type field_source inspect_field_type codes starts_with
  array_read f read zero param rest h e m = absurd (omega arith)
  array_read f read (suc n) param rest h e m =
      rw
        (
          append_assoc (db_type use_tz f) (codes ")") rest,
          read n [] (b')' ∷ rest) h (bracket-Ends rest) (omega arith),
        )
        refl

  map_read : (k f : Field) → Read k → Read f → Read (map_of k f)
  unfolding Read Readable calls db_type field_source inspect_field_type codes starts_with
  map_read k f read_key read_value zero param rest h e m = absurd (omega arith)
  map_read k f read_key read_value (suc n) param rest (hk, hf) e m =
      let tail = db_type use_tz f ++ codes ")" in
      rw
        (
          append_assoc (db_type use_tz k) (codes ", " ++ tail) rest,
          read_key n [] (b',' ∷ 32 ∷ (tail ++ rest)) hk (comma-Ends (32 ∷ (tail ++ rest)))
              (omega arith),
          append_assoc (db_type use_tz f) (codes ")") rest,
          read_value n [] (b')' ∷ rest) hf (bracket-Ends rest) (omega arith),
        )
        refl

  -- The items of a tuple: the first, and the loop over the others.
  ReadMembers : Members → Type 0
  ReadMembers fs =
      (n : ℕ) (rest : Text)
      → ReadableMembers use_tz fs
      → member_calls fs ≤ n
      → (out : Text) × (outs : Text) × (remain : Text) × (inspect_field_type decoded n
            (member_types use_tz fs ++ (b')' ∷ rest)) []
          ≡ some (out, remain))
        × (inspect_items decoded n remain ≡ some (outs, b')' ∷ rest))
        × (out ++ outs ≡ members_source use_tz fs)

  last_read : (f : Field) → Read f → ReadMembers (last f)
  unfolding Read ReadMembers Readable member_calls db_type members_source inspect_items
  last_read f read zero rest h m = absurd (omega arith)
  last_read f read (suc n) rest h m = (
    field_source use_tz [] f,
    [],
    b')' ∷ rest,
    read (suc n) [] (b')' ∷ rest) h (bracket-Ends rest) (omega arith),
    refl,
    append-nil _,
  )

  items_next :
      (n : ℕ) (t : Text) {out outs remain end : Text}
      → inspect_field_type decoded n t [] ≡ some (out, remain)
      → inspect_items decoded n remain ≡ some (outs, end)
      → inspect_items decoded (suc n) (codes ", " ++ t) ≡ some (codes ", " ++ (out ++ outs), end)
  unfolding inspect_items codes
  items_next n t p q = rw (p, q) refl

  member_first :
      (f : Field) (n : ℕ) (t rest : Text) {result : Inspected}
      → inspect_field_type decoded n (db_type use_tz f ++ (codes ", " ++ (t ++ rest))) [] ≡ result
      → inspect_field_type decoded n ((db_type use_tz f ++ (codes ", " ++ t)) ++ rest) [] ≡ result
  member_first f n t rest h =
      rw (append_assoc (db_type use_tz f) (codes ", " ++ t) rest, append_assoc (codes ", ") t rest)
        h

  member_read : (f : Field) (fs : Members) → Read f → ReadMembers fs → ReadMembers (member f fs)
  unfolding Read ReadMembers Readable member_calls db_type members_source codes
  member_read f fs read reads zero rest h m = absurd (omega arith)
  member_read f fs read reads (suc n) rest (hf, hs) m =
      let (out, outs, remain, p, q, r) = reads n rest hs (omega arith) in
      let later = codes ", " ++ (member_types use_tz fs ++ (b')' ∷ rest)) in
      (
        field_source use_tz [] f,
        codes ", " ++ (out ++ outs),
        later,
        member_first f (suc n) (member_types use_tz fs) (b')' ∷ rest) (
            read (suc n) [] later hf (comma-Ends (32 ∷ (member_types use_tz fs ++ (b')' ∷ rest))))
              (omega arith)),
        items_next n (member_types use_tz fs ++ (b')' ∷ rest)) p q,
        ap (λ u. field_source use_tz [] f ++ (codes ", " ++ u)) r,
      )

  tuple_step :
      (n : ℕ) (t param rest out outs remain inner : Text)
      → inspect_field_type decoded n (t ++ (b')' ∷ rest)) [] ≡ some (out, remain)
      → inspect_items decoded n remain ≡ some (outs, b')' ∷ rest)
      → out ++ outs ≡ inner
      → inspect_field_type decoded (suc n) ((codes "Tuple(" ++ (t ++ codes ")")) ++ rest) param
        ≡ some (
          codes "models.TupleField([" ++ (inner ++ (codes "]" ++ (last_param param ++ codes ")"))),
          rest,
        )
  unfolding inspect_field_type codes starts_with
  tuple_step n t param rest out outs remain inner p q r =
      rw
        (
          append_assoc t (codes ")") rest,
          p,
          q,
          ← r,
          append_assoc out outs (codes "]" ++ (last_param param ++ codes ")")),
        )
        refl

  tuple_read : (fs : Members) → ReadMembers fs → Read (tuple fs)
  unfolding Read ReadMembers Readable calls db_type field_source
  tuple_read fs reads zero param rest h e m = absurd (omega arith)
  tuple_read fs reads (suc n) param rest h e m =
      let (out, outs, remain, p, q, r) = reads n rest h (omega arith) in
      tuple_step n (member_types use_tz fs) param rest out outs remain (members_source use_tz fs) p
        q r

  scalar_field_read : (null low : Bool) (s : Scalar) → Read (scalar null low s)
  unfolding Read Readable calls db_type field_source
  scalar_field_read null low s zero param rest h e m = absurd (omega arith)
  scalar_field_read null low s (suc zero) param rest h e m = absurd (omega arith)
  scalar_field_read null low s (suc (suc zero)) param rest h e m = absurd (omega arith)
  scalar_field_read null low s (suc (suc (suc n))) param rest h e m =
      nested_read (flagged s null) (flagged s low) s n param rest h e

  mutual
    unfolding Readable

    reads : (f : Field) → Readable use_tz f → Read f
    reads (scalar null low s) h = scalar_field_read null low s
    reads (array f) h = array_read f (reads f h)
    reads (map_of k f) (hk, hf) = map_read k f (reads k hk) (reads f hf)
    reads (tuple fs) h = tuple_read fs (reads_members fs h)
    reads (named_tuple fs) h = absurd h

    reads_members : (fs : Members) → ReadableMembers use_tz fs → ReadMembers fs
    reads_members (last f) h = last_read f (reads f h)
    reads_members (member f fs) (h, hs) = member_read f fs (reads f h) (reads_members fs hs)

  -- The type that a field writes, however deep it nests, is read by inspectdb, with as many nested calls
  -- as its parts need or more, as the source of that field, with nothing left of the type: the class
  -- with its arguments, where a precision is left out that is the default. The field has no named
  -- tuple, no enumeration, no GenericIPAddressField and, with time zones, no DateTime inside, and its
  -- lengths, precisions and places are digits.
  pub inspect_field_type-db_type :
      (f : Field) (n : ℕ)
      → Readable use_tz f
      → calls f ≤ n
      → inspect_field_type decoded n (db_type use_tz f) [] ≡ some (described use_tz f, [])
  unfolding Read
  inspect_field_type-db_type f n h m =
      subst (λ t. inspect_field_type decoded n t [] ≡ some (described use_tz f, []))
        (append-nil (db_type use_tz f))
        (subst (λ s. inspect_field_type decoded n (db_type use_tz f ++ []) [] ≡ some (s, []))
          (field_source-described use_tz f h) (reads f h n [] [] h tt m))
