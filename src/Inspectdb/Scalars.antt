-- ===== src/Inspectdb/Scalars.antt =====
-- Reading the types of fields with one value.
use django_clickhouse_backen.Prelude.{
  ℕ, suc, ◌≡◌, refl, subst, Bool, true, false, ◌&&◌, Bool-cases, inl, inr, some, [], ◌∷◌, ◌++◌,
  append_assoc, all, ◌==◌, Text, codes, starts_with, arith,
}
use django_clickhouse_backen.Models.Fields.{
  Scalar, int8, int16, int32, int64, int128, int256, uint8, uint16, uint32, uint64, uint128,
  uint256, float32, float64, string, uuid, bool, date, date32, date_time, ipv4, ipv6, generic_ip,
  json, fixed_string, date_time64, enum, enum8, enum16, decimal, data_types, zoned,
}
use django_clickhouse_backen.Backend.Introspection.Types.{scalar_class}
use django_clickhouse_backen.Inspectdb.{
  is_digit, is_alnum, digits, alnums, after_quote, inspect_field_type,
}
use django_clickhouse_backen.Inspectdb.Source.{ReadableScalar, scalar_source, Ends}

pub digits-append :
    (ds : Text) (c : ℕ) (r : Text)
    → all is_digit ds ≡ true
    → is_digit c ≡ false
    → digits (ds ++ (c ∷ r)) ≡ some (ds, c ∷ r)
unfolding digits
digits-append [] c r h e = rw e refl
digits-append (d ∷ ds) c r h e =
    let (p, q) = both (is_digit d) (all is_digit ds) h in rw (p, digits-append ds c r q e) refl
  where
    both : (a b : Bool) → (a && b) ≡ true → (a ≡ true) × (b ≡ true)
    both true b h = (refl, h)
    both false b h = ground arith

pub alnums_end : (rest : Text) → Ends rest → alnums rest ≡ ([], rest)
unfolding alnums
alnums_end [] e = refl
alnums_end (c ∷ r) (e, n) = rw e refl

not_six : (c : ℕ) → is_alnum c ≡ false → (c == b'6') ≡ false
unfolding is_alnum
not_six c e = ground arith

no_start :
    (rest p : Text) (d : ℕ) → Ends rest → is_alnum d ≡ true → starts_with rest (d ∷ p) ≡ false
unfolding starts_with
no_start [] p d e h = refl
no_start (c ∷ r) p d (e, n) h = elim (Bool-cases (c == d)) [
  | inl t ↦ let q : c ≡ d = ground arith in absurd (cc (subst (λ x. is_alnum x ≡ false) q e))
  | inr t ↦ rw t refl
]

module _ (decoded : Text → Text) where
  abbrev ScalarRead : Bool → Scalar → Type 0
  ScalarRead use_tz s =
      (n : ℕ) (param rest : Text)
      → ReadableScalar use_tz s
      → Ends rest
      → inspect_field_type decoded (suc n) (data_types use_tz s ++ rest) param
        ≡ some (scalar_source use_tz param s, rest)

  fixed_read : (use_tz : Bool) (ds : Text) → ScalarRead use_tz (fixed_string ds)
  unfolding inspect_field_type data_types starts_with codes ReadableScalar scalar_source
      scalar_class is_digit
  fixed_read use_tz ds n param rest h e =
      rw (append_assoc ds (codes ")") rest, digits-append ds b')' rest h refl) refl

  decimal_read : (use_tz : Bool) (ds es : Text) → ScalarRead use_tz (decimal ds es)
  unfolding inspect_field_type data_types starts_with codes ReadableScalar scalar_source
      scalar_class is_digit
  decimal_read use_tz ds es n param rest (h, k) e =
      rw
        (
          append_assoc ds (codes ", " ++ (es ++ codes ")")) rest,
          digits-append ds b',' (32 ∷ ((es ++ codes ")") ++ rest)) h refl,
          append_assoc es (codes ")") rest,
          digits-append es b')' rest k refl,
        )
        refl

  date_time64_read : (use_tz : Bool) (p : Text) → ScalarRead use_tz (date_time64 p)
  unfolding inspect_field_type data_types starts_with codes ReadableScalar scalar_source
      scalar_class zoned after_quote
  date_time64_read true p n param rest (c, q, h) e = rw (q, h) refl
  date_time64_read false p n param rest (c, q, h) e = rw (q, h) refl

  date_time_read : (use_tz : Bool) → ScalarRead use_tz date_time
  unfolding inspect_field_type data_types starts_with codes ReadableScalar scalar_source
      scalar_class
  date_time_read true n param rest h e = cc
  date_time_read false n param [] h e = refl
  date_time_read false n param (c ∷ r) h (e, q) =
      let no_six : (c == b'6') ≡ false = not_six c e in
      let no_bracket : (c == b'(') ≡ false = ground arith in rw (no_six, no_bracket) refl

  date_read : (use_tz : Bool) → ScalarRead use_tz date
  unfolding inspect_field_type data_types starts_with codes scalar_source scalar_class alnums
      is_alnum
  date_read use_tz n param rest h e =
      rw
        (
          no_start rest (codes "ime64") b'T' e refl,
          no_start rest (codes "ime") b'T' e refl,
          alnums_end rest e,
        )
        refl

  pub scalar_read : (use_tz : Bool) (s : Scalar) → ScalarRead use_tz s
  unfolding inspect_field_type data_types starts_with codes ReadableScalar scalar_source
      scalar_class alnums is_alnum
  scalar_read use_tz (fixed_string ds) n param rest h e = fixed_read use_tz ds n param rest h e
  scalar_read use_tz (decimal ds es) n param rest h e = decimal_read use_tz ds es n param rest h e
  scalar_read use_tz (date_time64 p) n param rest h e = date_time64_read use_tz p n param rest h e
  scalar_read use_tz date_time n param rest h e = date_time_read use_tz n param rest h e
  scalar_read use_tz (generic_ip v4) n param rest h e = absurd h
  scalar_read use_tz (enum m) n param rest h e = absurd h
  scalar_read use_tz (enum8 m) n param rest h e = absurd h
  scalar_read use_tz (enum16 m) n param rest h e = absurd h
  scalar_read use_tz json n param rest h e = refl
  scalar_read use_tz int8 n param rest h e = rw (alnums_end rest e) refl
  scalar_read use_tz int16 n param rest h e = rw (alnums_end rest e) refl
  scalar_read use_tz int32 n param rest h e = rw (alnums_end rest e) refl
  scalar_read use_tz int64 n param rest h e = rw (alnums_end rest e) refl
  scalar_read use_tz int128 n param rest h e = rw (alnums_end rest e) refl
  scalar_read use_tz int256 n param rest h e = rw (alnums_end rest e) refl
  scalar_read use_tz uint8 n param rest h e = rw (alnums_end rest e) refl
  scalar_read use_tz uint16 n param rest h e = rw (alnums_end rest e) refl
  scalar_read use_tz uint32 n param rest h e = rw (alnums_end rest e) refl
  scalar_read use_tz uint64 n param rest h e = rw (alnums_end rest e) refl
  scalar_read use_tz uint128 n param rest h e = rw (alnums_end rest e) refl
  scalar_read use_tz uint256 n param rest h e = rw (alnums_end rest e) refl
  scalar_read use_tz float32 n param rest h e = rw (alnums_end rest e) refl
  scalar_read use_tz float64 n param rest h e = rw (alnums_end rest e) refl
  scalar_read use_tz string n param rest h e = rw (alnums_end rest e) refl
  scalar_read use_tz uuid n param rest h e = rw (alnums_end rest e) refl
  scalar_read use_tz bool n param rest h e = rw (alnums_end rest e) refl
  scalar_read use_tz date n param rest h e = date_read use_tz n param rest h e
  scalar_read use_tz date32 n param rest h e = rw (alnums_end rest e) refl
  scalar_read use_tz ipv4 n param rest h e = rw (alnums_end rest e) refl
  scalar_read use_tz ipv6 n param rest h e = rw (alnums_end rest e) refl
