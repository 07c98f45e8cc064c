-- ===== src/Models/Fields/Validate/Blames.antt =====
-- An error that a loop over the parts of a value raises names a fault of a part.
use django_clickhouse_backen.Prelude.{
  ℕ, suc, ◌<◌, ◌≡◌, ◌⊎◌, inl, inr, refl, Bool, Bool-cases, Option, none, some, arith, ◌==◌,
  if◌then◌else◌,
}
use django_clickhouse_backen.Models.Fields.{
  Field, Members, NamedMembers, last, member, named_last, named,
}
use django_clickhouse_backen.Models.Fields.Values.{Value, Values, Pairs, nil, more, end, pair}
use django_clickhouse_backen.Models.Fields.Values.Read.{Python}
use django_clickhouse_backen.Models.Fields.Validate.{
  Fault, item_invalid, key_invalid, value_invalid, Outcome, valid, invalid, crash, prefixed,
  and_then, validate_each, validate_last, validate_member, validate_pairs, validate,
}
use django_clickhouse_backen.Models.Fields.Validate.Faults.{
  nth, HasKey, HasValue, nth_member, nth_named, Names,
}

pub nth_member_from :
    (fs : Members) (n m : ℕ) (g : Field) → nth_member n fs m ≡ some g → (n ≡ m) ⊎ (n < m)
unfolding nth_member
nth_member_from (last f) n m g h = elim (Bool-cases (n == m)) [
  | inl e ↦ inl (ground arith)
  | inr e ↦ absurd (ground arith)
]
nth_member_from (member f fs) n m g h = elim (Bool-cases (n == m)) [
  | inl e ↦ inl (ground arith)
  | inr e ↦ inr (ground (arith, nth_member_from fs (suc n) m g))
]

pub nth_named_from :
    (fs : NamedMembers) (n m : ℕ) (g : Field) → nth_named n fs m ≡ some g → (n ≡ m) ⊎ (n < m)
unfolding nth_named
nth_named_from (named_last t f) n m g h = elim (Bool-cases (n == m)) [
  | inl e ↦ inl (ground arith)
  | inr e ↦ absurd (ground arith)
]
nth_named_from (named t f fs) n m g h = elim (Bool-cases (n == m)) [
  | inl e ↦ inl (ground arith)
  | inr e ↦ inr (ground (arith, nth_named_from fs (suc n) m g))
]

module _ {V : Type 0} (py : Python V) (own : Field → Value V → Bool) where
  nth_from : (n m : ℕ) (vs : Values V) (w : Value V) → nth n vs m ≡ some w → (n ≡ m) ⊎ (n < m)
  unfolding nth
  nth_from n m nil w h = cc
  nth_from n m (more v vs) w h = elim (Bool-cases (n == m)) [
    | inl e ↦ inl (ground arith)
    | inr e ↦ inr (ground (arith, nth_from (suc n) m vs w))
  ]

  nth_later :
      (n m : ℕ) (v : Value V) (vs : Values V) (w : Value V)
      → nth (suc n) vs m ≡ some w
      → nth n (more v vs) m ≡ some w
  unfolding nth
  nth_later n m v vs w h = ground (arith, nth_from (suc n) m vs w h)

  -- An outcome that is invalid is so by its first part or by the rest.
  invalid_cases :
      (prefix : Fault V → Fault V) (a b : Outcome V) (e : Fault V)
      → and_then (prefixed prefix a) b ≡ invalid e
      → ((e' : Fault V) × (a ≡ invalid e') × (e ≡ prefix e')) ⊎ (b ≡ invalid e)
  unfolding and_then prefixed
  invalid_cases prefix valid b e h = inr h
  invalid_cases prefix (invalid e') b e h = inl (e', refl, cc)
  invalid_cases prefix crash b e h = cc

  nth_first : (n : ℕ) (v : Value V) (vs : Values V) → nth n (more v vs) n ≡ some v
  unfolding nth
  nth_first n v vs = ground arith

  unfoldable pub Sound : Field → Type 0
  Sound f = (v : Value V) (e : Fault V) → validate py own f v ≡ invalid e → Names py own e f v

  pub each-Names :
      (f : Field) (n : ℕ) (vs : Values V) (e : Fault V)
      → Sound f
      → validate_each (validate py own f) n vs ≡ invalid e
      → (m : ℕ) × (e' : Fault V) × (w : Value V) × (e ≡ item_invalid m e')
        × (nth n vs m ≡ some w)
        × Names py own e' f w
  unfolding validate_each Sound
  each-Names f n nil e sound h = cc
  each-Names f n (more v vs) e sound h =
      elim (invalid_cases (item_invalid n) (validate py own f v)
        (validate_each (validate py own f) (suc n) vs) e h) [
          | inl (e', p, q) ↦ (n, e', v, q, nth_first n v vs, sound v e' p)
          | inr r ↦
              let (m, e', w, p, q, names) = each-Names f (suc n) vs e sound r in
              (m, e', w, p, nth_later n m v vs w q, names)
        ]

  -- The part of an error that the loop over base fields raises
  unfoldable pub PartNames : (ℕ → ℕ → Option Field) → ℕ → Values V → Fault V → Type 0
  PartNames field_from n vs e =
      (m : ℕ) × (e' : Fault V) × (g : Field) × (w : Value V) × (e ≡ item_invalid m e')
      × (field_from n m ≡ some g)
      × (nth n vs m ≡ some w)
      × Names py own e' g w

  pub last-Names :
      (f : Field) (n : ℕ) (vs : Values V) (e : Fault V)
      → Sound f
      → validate_last (validate py own f) n vs ≡ invalid e
      → PartNames (λ k m. if k == m then some f else none) n vs e
  unfolding validate_last Sound PartNames and_then
  last-Names f n nil e sound h = cc
  last-Names f n (more v vs) e sound h =
      elim (invalid_cases (item_invalid n) (validate py own f v) valid e (alone _ h)) [
        | inl (e', p, q) ↦ (n, e', f, v, q, ground arith, nth_first n v vs, sound v e' p)
        | inr r ↦ cc
      ]
    where
      alone :
          (a : Outcome V) {e : Fault V}
          → prefixed (item_invalid n) a ≡ invalid e
          → and_then (prefixed (item_invalid n) a) valid ≡ invalid e
      alone valid h = h
      alone (invalid e') h = h
      alone crash h = h

  pub member-Names :
      (f : Field) (check_rest : ℕ → Values V → Outcome V) (rest : ℕ → ℕ → Option Field)
      → ((n m : ℕ) (g : Field) → rest n m ≡ some g → (n ≡ m) ⊎ (n < m))
      → (n : ℕ) (vs : Values V) (e : Fault V) → Sound f
      → ((k : ℕ) (ws : Values V) (i : Fault V)
          → check_rest k ws ≡ invalid i
          → PartNames rest k ws i)
      → validate_member (validate py own f) check_rest n vs ≡ invalid e
      → PartNames (λ k m. if k == m then some f else rest (suc k) m) n vs e
  unfolding validate_member Sound PartNames
  member-Names f check_rest rest later n nil e sound r h = cc
  member-Names f check_rest rest later n (more v vs) e sound r h =
      elim (invalid_cases (item_invalid n) (validate py own f v) (check_rest (suc n) vs) e h) [
        | inl (e', p, q) ↦ (n, e', f, v, q, ground arith, nth_first n v vs, sound v e' p)
        | inr b ↦
            let (m, e', g, w, p, q, at, names) = r (suc n) vs e b in
            (m, e', g, w, p, ground (arith, later (suc n) m g q), nth_later n m v vs w at, names)
      ]

  pub pairs-Names :
      (k f : Field) (d : Pairs V) (e : Fault V)
      → Sound k
      → Sound f
      → validate_pairs (validate py own k) (validate py own f) d ≡ invalid e
      → ((j : Value V) × (e' : Fault V) × (e ≡ key_invalid j e') × HasKey j d × Names py own e' k j)
        ⊎ ((w : Value V) × (e' : Fault V) × (e ≡ value_invalid w e')
            × HasValue w d
            × Names py own e' f w)
  unfolding validate_pairs Sound HasKey HasValue
  pairs-Names k f end e sk sf h = cc
  pairs-Names k f (pair j w d) e sk sf h =
      let rest = validate_pairs (validate py own k) (validate py own f) d in
      elim (invalid_cases (key_invalid j) (validate py own k j)
        (and_then (prefixed (value_invalid w) (validate py own f w)) rest) e h) [
          | inl (e', p, q) ↦ inl (j, e', q, inl refl, sk j e' p)
          | inr b ↦ elim (invalid_cases (value_invalid w) (validate py own f w) rest e b) [
            | inl (e', p, q) ↦ inr (w, e', q, inl refl, sf w e' p)
            | inr c ↦ elim (pairs-Names k f d e sk sf c) [
              | inl (j', e', p, q, r) ↦ inl (j', e', p, inr q, r)
              | inr (w', e', p, q, r) ↦ inr (w', e', p, inr q, r)
            ]
          ]
        ]
