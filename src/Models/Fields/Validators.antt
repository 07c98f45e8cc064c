-- ===== src/Models/Fields/Validators.antt =====
-- IntegerFieldMixin.validators of clickhouse_backend/models/fields/integer.py.
mod Examples
use django_clickhouse_backen.Prelude.{
  ◌≡◌, ◌↔◌, refl, subst, Bool, true, false, not, ◌&&◌, ◌||◌, List, [], ◌∷◌, ◌++◌, any, all, arith,
  if◌then◌else◌, if_cases, Bool-cases, inl, inr,
}
use django_clickhouse_backen.Prelude.Int.{ℤ, ltb_ℤ, ◌≤ℤ◌, ltb_ℤ_refuses, ltb_ℤ_accepts, ≤ℤ_trans}
use django_clickhouse_backen.Backend.Operations.Ranges.{
  IntegerField, integer_field_ranges, width, Fits, integer_field_ranges-Fits,
}

-- MinValueValidator and MaxValueValidator with their limits, and any other validator by what it
-- accepts.
pub data Validator : Type 0 where
  min_value : ℤ → Validator
  max_value : ℤ → Validator
  other : (ℤ → Bool) → Validator

-- The documented answers of these validators
pub accepts : ℤ → Validator → Bool
accepts z (min_value limit) = not (ltb_ℤ z limit)
accepts z (max_value limit) = not (ltb_ℤ limit z)
accepts z (other test) = test z

pub min_at_least : ℤ → Validator → Bool
min_at_least low (min_value limit) = not (ltb_ℤ limit low)
min_at_least low (max_value limit) = false
min_at_least low (other test) = false

pub max_at_most : ℤ → Validator → Bool
max_at_most high (min_value limit) = false
max_at_most high (max_value limit) = not (ltb_ℤ high limit)
max_at_most high (other test) = false

pub with_limit : Bool → Validator → List Validator → List Validator
with_limit present v vs = if present then vs else vs ++ (v ∷ [])

pub validators : IntegerField → List Validator → List Validator
unfolding with_limit min_at_least max_at_most
validators f given =
    let (low, high) = integer_field_ranges f in
    let lower = with_limit (any (min_at_least low) given) (min_value low) given in
    with_limit (any (max_at_most high) lower) (max_value high) lower

not-true : (b : Bool) → not b ≡ true → b ≡ false
not-true b h = ground arith

min-accepts :
    (z low : ℤ) (v : Validator) → min_at_least low v ≡ true → accepts z v ≡ true → low ≤ℤ z
unfolding min_at_least accepts
min-accepts z low (min_value limit) h a =
    ≤ℤ_trans low limit z (ltb_ℤ_refuses limit low (not-true _ h))
      (ltb_ℤ_refuses z limit (not-true _ a))
min-accepts z low (max_value limit) h a = ground arith
min-accepts z low (other test) h a = ground arith

max-accepts :
    (z high : ℤ) (v : Validator) → max_at_most high v ≡ true → accepts z v ≡ true → z ≤ℤ high
unfolding max_at_most accepts
max-accepts z high (max_value limit) h a =
    ≤ℤ_trans z limit high (ltb_ℤ_refuses limit z (not-true _ a))
      (ltb_ℤ_refuses high limit (not-true _ h))
max-accepts z high (min_value limit) h a = ground arith
max-accepts z high (other test) h a = ground arith

-- What one of the validators ensures, all of them ensure.
from_any :
    (P : Type 0) (test : Validator → Bool) (z : ℤ) (vs : List Validator)
    → ((v : Validator) → test v ≡ true → accepts z v ≡ true → P)
    → any test vs ≡ true
    → all (accepts z) vs ≡ true
    → P
from_any P test z [] k h a = ground arith
from_any P test z (v ∷ vs) k h a =
    let (av, avs) = both (accepts z v) (all (accepts z) vs) a in
    elim (Bool-cases (test v)) [
      | inl e ↦ k v e av
      | inr e ↦ from_any P test z vs k (subst (λ b. (b || any test vs) ≡ true) e h) avs
    ]
  where
    both : (a b : Bool) → (a && b) ≡ true → (a ≡ true) × (b ≡ true)
    both true b h = (refl, h)
    both false b h = ground arith

all-append :
    (test : Validator → Bool) (vs ws : List Validator)
    → all test (vs ++ ws) ≡ (all test vs && all test ws)
all-append test [] ws = refl
all-append test (v ∷ vs) ws = ground (arith, all-append test vs ws)

-- The list with a limit accepts what the list accepts and the limit allows.
with_limit_iff :
    (P : Type 0) (test : Validator → Bool) (z : ℤ) (w : Validator) (vs : List Validator)
    → ((v : Validator) → test v ≡ true → accepts z v ≡ true → P)
    → (accepts z w ≡ true ↔ P)
    → (all (accepts z) (with_limit (any test vs) w vs) ≡ true) ↔ ((all (accepts z) vs ≡ true) × P)
unfolding with_limit
with_limit_iff P test z w vs k (to, from) = elim (Bool-cases (any test vs)) [
  | inl e ↦ rw e (λ a. (a, from_any P test z vs k e a), λ r. r.0)
  | inr e ↦
      rw (e, all-append (accepts z) vs (w ∷ []))
        (λ a. (ground arith, to (ground arith)), λ (a, p). both_true _ _ a (from p))
]
  where
    both_true : (a b : Bool) → a ≡ true → b ≡ true → (a && (b && true)) ≡ true
    both_true a b h k = ground arith

max_iff : (z high : ℤ) → (accepts z (max_value high) ≡ true) ↔ z ≤ℤ high
unfolding accepts
max_iff z high = (λ a. ltb_ℤ_refuses high z (not-true (ltb_ℤ high z) a), ltb_ℤ_accepts high z)

min_iff : (z low : ℤ) → (accepts z (min_value low) ≡ true) ↔ low ≤ℤ z
unfolding accepts
min_iff z low = (λ a. ltb_ℤ_refuses z low (not-true (ltb_ℤ z low) a), ltb_ℤ_accepts z low)

-- The validators of an integer field accept the numbers that the validators given to it accept and
-- that the bits of its type can hold.
pub validators-Fits :
    (f : IntegerField) (given : List Validator) (z : ℤ)
    → (all (accepts z) (validators f given) ≡ true)
      ↔ ((all (accepts z) given ≡ true) × Fits (width f) z)
unfolding validators
validators-Fits f given z =
    let (low, high) = integer_field_ranges f in
    let lower = with_limit (any (min_at_least low) given) (min_value low) given in
    let below =
      with_limit_iff (z ≤ℤ high) (max_at_most high) z (max_value high) lower (max-accepts z high)
        (max_iff z high) in
    let above =
      with_limit_iff (low ≤ℤ z) (min_at_least low) z (min_value low) given (min-accepts z low)
        (min_iff z low) in
    let fits = integer_field_ranges-Fits f z in
    (
      λ a. let (al, h) = below.0 a in let (ag, l) = above.0 al in (ag, fits.0 (l, h)),
      λ (ag, r). let (l, h) = fits.1 r in below.1 (above.1 (ag, l), h),
    )
