-- ===== src/Models/Settings/Checked.antt =====
-- Settings that were normalized once stay as they are, as an engine that is rebuilt from its own
-- arguments needs.
use django_clickhouse_backen.Prelude.{
  ◌≡◌, refl, ap, sym, subst, ◌⊎◌, true, false, Option, none, some, List, [], ◌∷◌, All, any, Text,
  same, arith, Bool-cases, inl, inr,
}
use django_clickhouse_backen.Prelude.Int.{ℤ}
use django_clickhouse_backen.Models.Settings.{
  Result, ok, raised, then_do, then_do-ok, Setting, int, bool, float, str, other, at_most_0,
  below_0, check_positive, check_not_negative, zero_or_one, check_bool, check_str, SettingTypes,
  merge_tree_settings, distributed_settings, find_check, normalize, accept,
}

-- A check that accepts what it made, unchanged.
pub Stable : (Setting → Result Setting) → Type 0
Stable check = (v w : Setting) → check v ≡ ok w → check w ≡ ok w

check_positive-Stable : Stable check_positive
unfolding Stable check_positive at_most_0
check_positive-Stable (int z) w h = ground arith
check_positive-Stable (bool b) w h = ground arith
check_positive-Stable (float z b) w h = ground arith
check_positive-Stable (str t) w h = ground arith
check_positive-Stable other w h = ground arith

check_not_negative-Stable : Stable check_not_negative
unfolding Stable check_not_negative below_0
check_not_negative-Stable (int z) w h = ground arith
check_not_negative-Stable (bool b) w h = ground arith
check_not_negative-Stable (float z b) w h = ground arith
check_not_negative-Stable (str t) w h = ground arith
check_not_negative-Stable other w h = ground arith

zero_or_one-check : (z : ℤ) (w : Setting) → zero_or_one z ≡ ok w → check_bool w ≡ ok w
unfolding check_bool
zero_or_one-check z w h = ground arith

check_bool-Stable : Stable check_bool
unfolding Stable check_bool
check_bool-Stable (int z) w h = zero_or_one-check z w h
check_bool-Stable (bool b) w h = ground arith
check_bool-Stable (float z true) w h = zero_or_one-check z w h
check_bool-Stable (float z false) w h = ground arith
check_bool-Stable (str t) w h = ground arith
check_bool-Stable other w h = ground arith

check_str-Stable : Stable check_str
unfolding Stable check_str
check_str-Stable (int z) w h = ground arith
check_str-Stable (bool b) w h = ground arith
check_str-Stable (float z b) w h = ground arith
check_str-Stable (str t) w h = ground arith
check_str-Stable other w h = ground arith

some-injective : (f g : Setting → Result Setting) → some f ≡ some g → f ≡ g
some-injective f g h = ap (λ o. elim o [ none ↦ f | some k ↦ k ]) h

find_check-Stable :
    (s : Text) (types : SettingTypes) (check : Setting → Result Setting)
    → All (λ entry. Stable entry.0) types
    → find_check s types ≡ some check
    → Stable check
unfolding find_check
find_check-Stable s [] check a h = ground arith
find_check-Stable s ((validate, keys) ∷ types) check (a, rest) h =
    elim (Bool-cases (any (same s) keys)) [
      | inl b ↦ subst Stable (some-injective validate check (ground (arith, h, b))) a
      | inr b ↦ find_check-Stable s types check rest (ground (arith, h, b))
    ]

-- The steps of a setting that is accepted.
accept-split :
    (o : Option (Setting → Result Setting)) (setting : Text) (v : Setting)
    (rest : Result (List (Text × Setting))) (out : List (Text × Setting))
    → accept o setting v rest ≡ ok out
    → (check : Setting → Result Setting) × (w : Setting) × (others : List (Text × Setting)) × (o
        ≡ some check)
      × (check v ≡ ok w)
      × (rest ≡ ok others)
      × ((setting, w) ∷ others ≡ out)
unfolding accept
accept-split none setting v rest out h =
    (check_str, v, [], ground arith, ground arith, ground arith, ground arith)
accept-split (some check) setting v rest out h =
    let (w, c, h1) =
      then_do-ok (check v) (λ w. then_do rest (λ others. ok ((setting, w) ∷ others))) out h in
    let (others, n, h2) = then_do-ok rest (λ others. ok ((setting, w) ∷ others)) out h1 in
    (check, w, others, refl, c, n, ap (λ r. elim r [ ok x ↦ x | raised x ↦ [] ]) h2)

accept-join :
    (check : Setting → Result Setting) (setting : Text) (w : Setting)
    (others : List (Text × Setting))
    → check w ≡ ok w
    → accept (some check) setting w (ok others) ≡ ok ((setting, w) ∷ others)
unfolding accept
accept-join check setting w others c = rw c refl

normalize-normalize :
    (types : SettingTypes) (settings out : List (Text × Setting))
    → All (λ entry. Stable entry.0) types
    → normalize types settings ≡ ok out
    → normalize types out ≡ ok out
unfolding normalize Stable
normalize-normalize types [] out a h =
    let e : [] ≡ out = ground arith in subst (λ o. normalize types o ≡ ok o) e refl
normalize-normalize types ((setting, v) ∷ settings) out a h =
    let (check, w, others, e, c, n, q) =
      accept-split (find_check setting types) setting v (normalize types settings) out h in
    subst (λ o. normalize types o ≡ ok o) q
      (rw (e, normalize-normalize types settings others a n)
        (accept-join check setting w others (find_check-Stable setting types check a e v w c)))

engines-Stable :
    (types : SettingTypes)
    → (types ≡ merge_tree_settings) ⊎ (types ≡ distributed_settings)
    → All (λ entry. Stable entry.0) types
engines-Stable types (inl e) =
    subst (λ (ts : SettingTypes). All (λ entry. Stable entry.0) ts) (sym e)
      (
        check_positive-Stable,
        (check_not_negative-Stable, (check_bool-Stable, (check_str-Stable, tt))),
      )
engines-Stable types (inr e) =
    subst (λ (ts : SettingTypes). All (λ entry. Stable entry.0) ts) (sym e)
      (check_positive-Stable, (check_not_negative-Stable, (check_bool-Stable, tt)))

-- The settings that a MergeTree engine or a Distributed one keeps are accepted once more by the
-- same class, unchanged and in the same order, as when it is built again from them.
pub normalize_again :
    (types : SettingTypes) (settings out : List (Text × Setting))
    → (types ≡ merge_tree_settings) ⊎ (types ≡ distributed_settings)
    → normalize types settings ≡ ok out
    → normalize types out ≡ ok out
normalize_again types settings out e =
    normalize-normalize types settings out (engines-Stable types e)
