-- ===== src/Inspectdb/Described.antt =====
-- The source of a field as Python writes it: the class with its arguments.
use django_clickhouse_backen.Prelude.{
  ℕ, ◌≡◌, refl, ap, Bool, true, false, Bool-cases, inl, inr, List, [], ◌∷◌, ◌++◌, ◌==◌, Text, codes,
  join, if◌then◌else◌,
}
use django_clickhouse_backen.Models.Fields.{
  Scalar, int8, int16, int32, int64, int128, int256, uint8, uint16, uint32, uint64, uint128,
  uint256, float32, float64, string, uuid, bool, date, date32, date_time, ipv4, ipv6, generic_ip,
  json, fixed_string, date_time64, enum, enum8, enum16, decimal, Field, Members, scalar, array,
  map_of, tuple, named_tuple, last, member, flagged,
}
use django_clickhouse_backen.Backend.Introspection.Types.{scalar_class}
use django_clickhouse_backen.Inspectdb.{merge_params, last_param, precise}
use django_clickhouse_backen.Inspectdb.Source.{
  ReadableScalar, Readable, ReadableMembers, scalar_params, scalar_source, with_flags, field_source,
  members_source,
}

-- Arguments with commas between them
unfoldable pub arguments : List Text → Text
arguments [] = []
arguments (a ∷ []) = a
arguments (a ∷ b ∷ as') = a ++ (codes ", " ++ arguments (b ∷ as'))

unfoldable pub low_argument : Bool → List Text
low_argument true = codes "low_cardinality=True" ∷ []
low_argument false = []

unfoldable pub null_arguments : Bool → List Text
null_arguments true = codes "null=True" ∷ codes "blank=True" ∷ []
null_arguments false = []

-- DateTime64Field.DEFAULT_PRECISION, as a digit
abbrev pub default_precision : ℕ
default_precision = b'6'

unfoldable pub own_arguments : Scalar → List Text
own_arguments (fixed_string n) = (codes "max_bytes=" ++ n) ∷ []
own_arguments (date_time64 (p ∷ [])) =
    if p == default_precision then [] else (codes "precision=" ++ (p ∷ [])) ∷ []
own_arguments (decimal n m) = (codes "max_digits=" ++ n) ∷ (codes "decimal_places=" ++ m) ∷ []
own_arguments s = []

unfoldable mutual
  unfolding arguments low_argument null_arguments own_arguments

  pub described : Bool → Field → Text
  described use_tz (scalar null low s) =
      codes "models."
      ++ (scalar_class use_tz s
          ++ (codes "("
              ++ (arguments (low_argument low ++ (null_arguments null ++ own_arguments s))
                  ++ codes ")")))
  described use_tz (array f) = codes "models.ArrayField(" ++ (described use_tz f ++ codes ")")
  described use_tz (map_of k f) =
      codes "models.MapField("
      ++ (described use_tz k ++ (codes ", " ++ (described use_tz f ++ codes ")")))
  described use_tz (tuple fs) =
      codes "models.TupleField([" ++ (described_members use_tz fs ++ codes "])")
  described use_tz (named_tuple fs) = []

  pub described_members : Bool → Members → Text
  described_members use_tz (last f) = described use_tz f
  described_members use_tz (member f fs) =
      described use_tz f ++ (codes ", " ++ described_members use_tz fs)

flag_arguments :
    (null low : Bool)
    → with_flags null low [] ≡ arguments (low_argument low ++ (null_arguments null ++ []))
unfolding with_flags merge_params arguments low_argument null_arguments codes join
flag_arguments true true = refl
flag_arguments true false = refl
flag_arguments false true = refl
flag_arguments false false = refl

one_argument :
    (null low : Bool) (c : ℕ) (a : Text)
    → merge_params (with_flags null low [] ∷ (c ∷ a) ∷ [])
      ≡ arguments (low_argument low ++ (null_arguments null ++ ((c ∷ a) ∷ [])))
unfolding with_flags merge_params arguments low_argument null_arguments codes join
one_argument true true c a = refl
one_argument true false c a = refl
one_argument false true c a = refl
one_argument false false c a = refl

two_arguments :
    (null low : Bool) (c d : ℕ) (a b : Text)
    → merge_params (with_flags null low [] ∷ (c ∷ a) ∷ (d ∷ b) ∷ [])
      ≡ arguments (low_argument low ++ (null_arguments null ++ ((c ∷ a) ∷ (d ∷ b) ∷ [])))
unfolding with_flags merge_params arguments low_argument null_arguments codes join
two_arguments true true c d a b = refl
two_arguments true false c d a b = refl
two_arguments false true c d a b = refl
two_arguments false false c d a b = refl

abbrev Argued : Bool → Bool → Scalar → Type 0
Argued null low s =
    scalar_params (with_flags (flagged s null) (flagged s low) []) s
    ≡ arguments (low_argument low ++ (null_arguments null ++ own_arguments s))

precise_argument : (null low : Bool) (c : ℕ) → Argued null low (date_time64 (c ∷ []))
unfolding scalar_params precise own_arguments codes flagged
precise_argument null low c = elim (Bool-cases (c == default_precision)) [
  | inl e ↦ rw e (flag_arguments null low)
  | inr e ↦ rw e (one_argument null low b'p' (codes "recision=" ++ (c ∷ [])))
]

scalar-arguments :
    (use_tz null low : Bool) (s : Scalar) → ReadableScalar use_tz s → Argued null low s
unfolding scalar_params own_arguments ReadableScalar codes flagged
scalar-arguments use_tz null low (fixed_string n) h =
    one_argument null low b'm' (codes "ax_bytes=" ++ n)
scalar-arguments use_tz null low (decimal n m) h =
    two_arguments null low b'm' b'd' (codes "ax_digits=" ++ n) (codes "ecimal_places=" ++ m)
scalar-arguments use_tz null low (date_time64 p) (c, e, h) = rw e (precise_argument null low c)
scalar-arguments use_tz null low (generic_ip v4) h = absurd h
scalar-arguments use_tz null low (enum m) h = absurd h
scalar-arguments use_tz null low (enum8 m) h = absurd h
scalar-arguments use_tz null low (enum16 m) h = absurd h
scalar-arguments use_tz null low int8 h = flag_arguments null low
scalar-arguments use_tz null low int16 h = flag_arguments null low
scalar-arguments use_tz null low int32 h = flag_arguments null low
scalar-arguments use_tz null low int64 h = flag_arguments null low
scalar-arguments use_tz null low int128 h = flag_arguments null low
scalar-arguments use_tz null low int256 h = flag_arguments null low
scalar-arguments use_tz null low uint8 h = flag_arguments null low
scalar-arguments use_tz null low uint16 h = flag_arguments null low
scalar-arguments use_tz null low uint32 h = flag_arguments null low
scalar-arguments use_tz null low uint64 h = flag_arguments null low
scalar-arguments use_tz null low uint128 h = flag_arguments null low
scalar-arguments use_tz null low uint256 h = flag_arguments null low
scalar-arguments use_tz null low float32 h = flag_arguments null low
scalar-arguments use_tz null low float64 h = flag_arguments null low
scalar-arguments use_tz null low string h = flag_arguments null low
scalar-arguments use_tz null low uuid h = flag_arguments null low
scalar-arguments use_tz null low bool h = flag_arguments null low
scalar-arguments use_tz null low date h = flag_arguments null low
scalar-arguments use_tz null low date32 h = flag_arguments null low
scalar-arguments use_tz null low date_time h = flag_arguments null low
scalar-arguments use_tz null low ipv4 h = flag_arguments null low
scalar-arguments use_tz null low ipv6 h = flag_arguments null low
scalar-arguments use_tz null low json h = flag_arguments null low

module _ (use_tz : Bool) where
  mutual
    unfolding field_source members_source described Readable scalar_source last_param codes

    pub field_source-described :
        (f : Field) → Readable use_tz f → field_source use_tz [] f ≡ described use_tz f
    field_source-described (scalar null low s) h =
        ap (λ p. codes "models." ++ (scalar_class use_tz s ++ (codes "(" ++ (p ++ codes ")"))))
          (scalar-arguments use_tz null low s h)
    field_source-described (array f) h = rw (field_source-described f h) refl
    field_source-described (map_of k f) (hk, hf) =
        rw (field_source-described k hk, field_source-described f hf) refl
    field_source-described (tuple fs) h = rw (members_source-described fs h) refl
    field_source-described (named_tuple fs) h = absurd h

    members_source-described :
        (fs : Members)
        → ReadableMembers use_tz fs
        → members_source use_tz fs ≡ described_members use_tz fs
    members_source-described (last f) h = field_source-described f h
    members_source-described (member f fs) (h, hs) =
        rw (field_source-described f h, members_source-described fs hs) refl
