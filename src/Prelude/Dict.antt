-- ===== src/Prelude/Dict.antt =====
-- Python's `dict` as an association list in insertion order, for key types with a decided equality.
use Prim.Native.Nat.{ℕ, suc}
use mathlib.Core.Path.{◌≡◌, refl}
use mathlib.Core.Logic.{◌↔◌}
use mathlib.Core.Bool.{Bool, true, false}
use mathlib.Core.Option.{Option, none, some}
use mathlib.Core.List.{List, [], ◌∷◌, ◌++◌}
use native.Mathlib.Omega.{arith}
use django_clickhouse_backen.Prelude.Tests.{◌==◌, ==_iff, if◌then◌else◌}
use django_clickhouse_backen.Prelude.Lists.{length}
use django_clickhouse_backen.Prelude.Texts.{Text, same, same_iff}

pub record Eq {ℓ} (A : Type ℓ) : Type ℓ where
  pub beq : A → A → Bool
  pub beq_iff : (a b : A) → (beq a b ≡ true) ↔ (a ≡ b)

instance abbrev pub nat_eq : Eq ℕ
nat_eq = record { beq = ◌==◌; beq_iff = ==_iff }

instance abbrev pub text_eq : Eq Text
text_eq = record { beq = same; beq_iff = same_iff }

abbrev pub Dict {ℓ κ} : Type ℓ → Type κ → Type (ℓ ⊔ κ)
Dict K V = List (K × V)

module _ {ℓ κ} {K : Type ℓ} {V : Type κ} ⦃e : Eq K⦄ where
  -- d.get(k), and d[k] where the caller handles the missing key
  unfoldable pub lookup : K → Dict K V → Option V
  lookup k [] = none
  lookup k ((j, v) ∷ d) = if e.beq j k then some v else lookup k d

  -- k in d
  unfoldable pub has_key : K → Dict K V → Bool
  has_key k [] = false
  has_key k ((j, v) ∷ d) = if e.beq j k then true else has_key k d

  -- d[k] = v: a known key keeps its place, a new one goes to the end.
  unfoldable pub insert : K → V → Dict K V → Dict K V
  insert k v [] = (k, v) ∷ []
  insert k v ((j, w) ∷ d) = if e.beq j k then (j, v) ∷ d else (j, w) ∷ insert k v d

  -- d.pop(k, None), or del d[k] where the key is there
  unfoldable pub delete : K → Dict K V → Dict K V
  delete k [] = []
  delete k ((j, v) ∷ d) = if e.beq j k then d else (j, v) ∷ delete k d

  pub has_key-lookup : (k : K) (d : Dict K V) → has_key k d ≡ false → lookup k d ≡ none
  unfolding has_key lookup
  has_key-lookup k [] h = refl
  has_key-lookup k ((j, v) ∷ d) h = ground (arith, has_key-lookup k d)

  pub insert_new :
      (k : K) (v : V) (d : Dict K V) → lookup k d ≡ none → insert k v d ≡ d ++ (k, v) ∷ []
  unfolding lookup insert
  insert_new k v [] h = refl
  insert_new k v ((j, w) ∷ d) h = ground (arith, insert_new k v d)

  pub lookup-insert_self : (k : K) (v : V) (d : Dict K V) → lookup k (insert k v d) ≡ some v
  unfolding lookup insert
  lookup-insert_self k v [] = rw ((e.beq_iff k k).1 refl)
  lookup-insert_self k v ((j, w) ∷ d) = ground (arith, lookup-insert_self k v d)

  pub lookup-insert :
      (k j : K) (v : V) (d : Dict K V)
      → lookup j (insert k v d) ≡ (if e.beq k j then some v else lookup j d)
  unfolding lookup insert
  lookup-insert k j v [] = refl
  lookup-insert k j v ((i, w) ∷ d) =
      ground (arith, e.beq_iff i k, e.beq_iff i j, e.beq_iff k j, lookup-insert k j v d)

  pub length-delete :
      (k : K) (v : V) (d : Dict K V) → lookup k d ≡ some v → suc (length (delete k d)) ≡ length d
  unfolding lookup delete
  length-delete k v [] h = cc
  length-delete k v ((j, w) ∷ d) h = ground (arith, length-delete k v d)

  pub has_key_of_lookup : (k : K) (v : V) (d : Dict K V) → lookup k d ≡ some v → has_key k d ≡ true
  unfolding lookup has_key
  has_key_of_lookup k v [] h = cc
  has_key_of_lookup k v ((j, w) ∷ d) h = ground (arith, has_key_of_lookup k v d)
