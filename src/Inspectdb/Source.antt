-- ===== src/Inspectdb/Source.antt =====
-- The source of a field, and the fields whose types inspectdb reads.
use django_clickhouse_backen.Prelude.{
  ℕ, suc, ◌+◌, ◌≡◌, ◌≢◌, Bool, true, false, [], ◌∷◌, ◌++◌, all, Text, codes, if◌then◌else◌,
}
use django_clickhouse_backen.Models.Fields.{
  Scalar, date_time, fixed_string, date_time64, enum, enum8, enum16, generic_ip, flagged, decimal,
  Field, Members, scalar, array, map_of, tuple, named_tuple, last, member,
}
use django_clickhouse_backen.Backend.Introspection.Types.{scalar_class}
use django_clickhouse_backen.Inspectdb.{is_digit, is_alnum, merge_params, last_param, precise}

-- The parameters of a field with one value, behind those of its wrappers
unfoldable pub scalar_params : Text → Scalar → Text
scalar_params param (fixed_string n) = merge_params (param ∷ (codes "max_bytes=" ++ n) ∷ [])
scalar_params param (date_time64 (p ∷ [])) = precise param p
scalar_params param (decimal n m) =
    merge_params (param ∷ (codes "max_digits=" ++ n) ∷ (codes "decimal_places=" ++ m) ∷ [])
scalar_params param s = param

unfoldable pub scalar_source : Bool → Text → Scalar → Text
unfolding scalar_params
scalar_source use_tz param s =
    codes "models."
    ++ (scalar_class use_tz s ++ (codes "(" ++ (scalar_params param s ++ codes ")")))

unfoldable pub with_flags : Bool → Bool → Text → Text
with_flags null low param =
    let param' = if low then merge_params (param ∷ codes "low_cardinality=True" ∷ []) else param in
    if null then merge_params (param' ∷ codes "null=True" ∷ codes "blank=True" ∷ []) else param'

unfoldable mutual
  unfolding scalar_source with_flags flagged

  pub field_source : Bool → Text → Field → Text
  field_source use_tz param (scalar null low s) =
      scalar_source use_tz (with_flags (flagged s null) (flagged s low) param) s
  field_source use_tz param (array f) =
      codes "models.ArrayField(" ++ (field_source use_tz [] f ++ (last_param param ++ codes ")"))
  field_source use_tz param (map_of k f) =
      codes "models.MapField("
      ++ (field_source use_tz [] k
          ++ (codes ", " ++ (field_source use_tz [] f ++ (last_param param ++ codes ")"))))
  field_source use_tz param (tuple fs) =
      codes "models.TupleField(["
      ++ (members_source use_tz fs ++ (codes "]" ++ (last_param param ++ codes ")")))
  field_source use_tz param (named_tuple fs) = []

  pub members_source : Bool → Members → Text
  members_source use_tz (last f) = field_source use_tz [] f
  members_source use_tz (member f fs) =
      field_source use_tz [] f ++ (codes ", " ++ members_source use_tz fs)

-- Lengths, precisions and places are digits, a precision one of them.
unfoldable pub ReadableScalar : Bool → Scalar → Type 0
ReadableScalar use_tz (fixed_string n) = all is_digit n ≡ true
ReadableScalar use_tz (date_time64 p) = (c : ℕ) × (p ≡ c ∷ []) × (is_digit c ≡ true)
ReadableScalar use_tz (decimal n m) = (all is_digit n ≡ true) × (all is_digit m ≡ true)
ReadableScalar use_tz date_time = use_tz ≡ false
ReadableScalar use_tz (generic_ip v4) = ⊥
ReadableScalar use_tz (enum m) = ⊥
ReadableScalar use_tz (enum8 m) = ⊥
ReadableScalar use_tz (enum16 m) = ⊥
ReadableScalar use_tz s = Unit

unfoldable mutual
  unfolding ReadableScalar

  pub Readable : Bool → Field → Type 0
  Readable use_tz (scalar null low s) = ReadableScalar use_tz s
  Readable use_tz (array f) = Readable use_tz f
  Readable use_tz (map_of k f) = Readable use_tz k × Readable use_tz f
  Readable use_tz (tuple fs) = ReadableMembers use_tz fs
  Readable use_tz (named_tuple fs) = ⊥

  pub ReadableMembers : Bool → Members → Type 0
  ReadableMembers use_tz (last f) = Readable use_tz f
  ReadableMembers use_tz (member f fs) = Readable use_tz f × ReadableMembers use_tz fs

-- What may follow a type: nothing, or a character that goes on with no type.
abbrev pub Ends : Text → Type 0
Ends [] = Unit
Ends (c ∷ r) = (is_alnum c ≡ false) × (c ≢ b'(')

-- The depth of the calls that read a type
unfoldable mutual
  pub calls : Field → ℕ
  calls (scalar null low s) = 3
  calls (array f) = suc (calls f)
  calls (map_of k f) = suc (calls k + calls f)
  calls (tuple fs) = suc (member_calls fs)
  calls (named_tuple fs) = 1

  pub member_calls : Members → ℕ
  member_calls (last f) = suc (calls f)
  member_calls (member f fs) = suc (calls f + member_calls fs)
