-- ===== src/Models/Fields/Validate/Accepted.antt =====
-- A loop over the parts of a value that accepts them meets no part with a fault.
use django_clickhouse_backen.Prelude.{
  ℕ, suc, ◌≡◌, inl, inr, refl, Bool, Bool-cases, Option, none, some, arith, ◌==◌, if◌then◌else◌,
  subst, sym,
}
use django_clickhouse_backen.Models.Fields.{Field}
use django_clickhouse_backen.Models.Fields.Values.{Value, Values, Pairs, nil, more, end, pair}
use django_clickhouse_backen.Models.Fields.Values.Read.{Python}
use django_clickhouse_backen.Models.Fields.Validate.{
  Fault, item_invalid, key_invalid, value_invalid, Outcome, valid, invalid, crash, prefixed,
  and_then, validate_each, validate_last, validate_member, validate_pairs, validate,
}
use django_clickhouse_backen.Models.Fields.Validate.Faults.{nth, HasKey, HasValue, Names}

module _ {V : Type 0} (py : Python V) (own : Field → Value V → Bool) where
  both_valid :
      (prefix : Fault V → Fault V) (a b : Outcome V)
      → and_then (prefixed prefix a) b ≡ valid
      → (a ≡ valid) × (b ≡ valid)
  unfolding and_then prefixed
  both_valid prefix valid b h = (refl, h)
  both_valid prefix (invalid e) b h = cc
  both_valid prefix crash b h = cc

  unfoldable pub Complete : Field → Type 0
  Complete f = (v : Value V) (e : Fault V) → Names py own e f v → validate py own f v ≡ valid → ⊥

  pub each-Complete :
      (f : Field) (n m : ℕ) (vs : Values V) (w : Value V) (e : Fault V)
      → Complete f
      → nth n vs m ≡ some w
      → Names py own e f w
      → validate_each (validate py own f) n vs ≡ valid
      → ⊥
  unfolding Complete validate_each nth
  each-Complete f n m nil w e complete at names h = cc
  each-Complete f n m (more v vs) w e complete at names h =
      let (hv, hs) =
        both_valid (item_invalid n) (validate py own f v)
          (validate_each (validate py own f) (suc n) vs) h in
      elim (Bool-cases (n == m)) [
        | inl t ↦
            let p : v ≡ w = ground arith in
            complete w e names (subst (λ x. validate py own f x ≡ valid) p hv)
        | inr t ↦ each-Complete f (suc n) m vs w e complete (ground arith) names hs
      ]

  -- No part of a value that the loop over base fields accepts has a fault.
  unfoldable pub PartsComplete : (ℕ → ℕ → Option Field) → (ℕ → Values V → Outcome V) → Type 0
  PartsComplete field_from check =
      (n m : ℕ) (vs : Values V) (g : Field) (w : Value V) (e : Fault V)
      → field_from n m ≡ some g
      → nth n vs m ≡ some w
      → Names py own e g w
      → check n vs ≡ valid
      → ⊥

  prefixed_valid :
      (prefix : Fault V → Fault V) (a : Outcome V) → prefixed prefix a ≡ valid → a ≡ valid
  unfolding prefixed
  prefixed_valid prefix valid h = refl
  prefixed_valid prefix (invalid e) h = cc
  prefixed_valid prefix crash h = cc

  pub last-Complete :
      (f : Field)
      → Complete f
      → PartsComplete (λ k m. if k == m then some f else none) (validate_last (validate py own f))
  unfolding Complete PartsComplete validate_last nth
  last-Complete f complete n m nil g w e at item names h = cc
  last-Complete f complete n m (more v vs) g w e at item names h = elim (Bool-cases (n == m)) [
    | inl t ↦
        let p : v ≡ w = ground arith in
        let q : f ≡ g = ground arith in
        complete w e (subst (λ x. Names py own e x w) (sym q) names)
          (subst (λ x. validate py own f x ≡ valid) p (prefixed_valid (item_invalid n) _ h))
    | inr t ↦ absurd (ground arith)
  ]

  pub member-Complete :
      (f : Field) (check_rest : ℕ → Values V → Outcome V) (rest : ℕ → ℕ → Option Field)
      → Complete f
      → PartsComplete rest check_rest
      → PartsComplete
          (λ k m. if k == m then some f else rest (suc k) m)
          (validate_member (validate py own f) check_rest)
  unfolding Complete PartsComplete validate_member nth
  member-Complete f check_rest rest complete r n m nil g w e at item names h = cc
  member-Complete f check_rest rest complete r n m (more v vs) g w e at item names h =
      let (hv, hs) = both_valid (item_invalid n) (validate py own f v) (check_rest (suc n) vs) h in
      elim (Bool-cases (n == m)) [
        | inl t ↦
            let p : v ≡ w = ground arith in
            let q : f ≡ g = ground arith in
            complete w e (subst (λ x. Names py own e x w) (sym q) names)
              (subst (λ x. validate py own f x ≡ valid) p hv)
        | inr t ↦ r (suc n) m vs g w e (ground arith) (ground arith) names hs
      ]

  pub key-Complete :
      (k f : Field) (d : Pairs V) (j : Value V) (e : Fault V)
      → Complete k
      → HasKey j d
      → Names py own e k j
      → validate_pairs (validate py own k) (validate py own f) d ≡ valid
      → ⊥
  unfolding Complete HasKey validate_pairs
  key-Complete k f end j e complete at names h = absurd at
  key-Complete k f (pair i w d) j e complete at names h =
      let rest = validate_pairs (validate py own k) (validate py own f) d in
      let after = and_then (prefixed (value_invalid w) (validate py own f w)) rest in
      let (hk, hs) = both_valid (key_invalid i) (validate py own k i) after h in
      elim at [
        | inl p ↦ complete j e names (subst (λ x. validate py own k x ≡ valid) p hk)
        | inr q ↦
            key-Complete k f d j e complete q names
              (both_valid (value_invalid w) (validate py own f w) rest hs).1
      ]

  pub value-Complete :
      (k f : Field) (d : Pairs V) (j : Value V) (e : Fault V)
      → Complete f
      → HasValue j d
      → Names py own e f j
      → validate_pairs (validate py own k) (validate py own f) d ≡ valid
      → ⊥
  unfolding Complete HasValue validate_pairs
  value-Complete k f end j e complete at names h = absurd at
  value-Complete k f (pair i w d) j e complete at names h =
      let rest = validate_pairs (validate py own k) (validate py own f) d in
      let after = and_then (prefixed (value_invalid w) (validate py own f w)) rest in
      let (hk, hs) = both_valid (key_invalid i) (validate py own k i) after h in
      let (hv, hr) = both_valid (value_invalid w) (validate py own f w) rest hs in
      elim at [
        | inl p ↦ complete j e names (subst (λ x. validate py own f x ≡ valid) p hv)
        | inr q ↦ value-Complete k f d j e complete q names hr
      ]
