-- ===== src/Driver/Pool/Mirror.antt =====
-- The two dictionaries `_used` and `_rused` as mirror images of one another.
use django_clickhouse_backen.Prelude.{
  ℕ, ◌+◌, ◌≡◌, ◌≢◌, refl, ap, inl, inr, none, some, [], ◌∷◌, ◌++◌, map, arith, count, Bool-cases,
}
use django_clickhouse_backen.Prelude.Dict.{nat_eq, Dict, lookup, delete}
use django_clickhouse_backen.Driver.Pool.{Key, key_same, key_same_iff, key_eq, values}

abbrev pub swap : Key × ℕ → ℕ × Key
swap (k, c) = (c, k)

-- No key stands twice.
abbrev pub DistinctKeys : Dict Key ℕ → Type 0
DistinctKeys [] = Unit
DistinctKeys ((k, c) ∷ d) = (lookup k d ≡ none) × DistinctKeys d

pub lookup-mirror_none :
    (c : ℕ) (d : Dict Key ℕ) → count c (values d) ≡ 0 → lookup c (map swap d) ≡ none
unfolding lookup
lookup-mirror_none c [] h = refl
lookup-mirror_none c ((k, c') ∷ d) h = ground (arith, lookup-mirror_none c d)

pub lookup-add :
    (j k : Key) (c : ℕ) (d : Dict Key ℕ)
    → k ≢ j
    → lookup j d ≡ none
    → lookup j (d ++ (k, c) ∷ []) ≡ none
unfolding lookup
lookup-add j k c [] h e = ground (arith, key_same_iff k j)
lookup-add j k c ((i, c') ∷ d) h e = ground (arith, lookup-add j k c d h)

pub DistinctKeys-add :
    (k : Key) (c : ℕ) (d : Dict Key ℕ)
    → lookup k d ≡ none
    → DistinctKeys d
    → DistinctKeys (d ++ (k, c) ∷ [])
unfolding lookup
DistinctKeys-add k c [] h v = (refl, tt)
DistinctKeys-add k c ((i, c') ∷ d) h v = (
  lookup-add i k c d (ground (arith, key_same_iff i k)) v.0,
  DistinctKeys-add k c d (ground arith) v.1,
)

pub count-add :
    (i : ℕ) (k : Key) (c : ℕ) (d : Dict Key ℕ)
    → count i (values (d ++ (k, c) ∷ [])) ≡ count i (values d) + count i (c ∷ [])
count-add i k c [] = omega arith
count-add i k c ((j, c') ∷ d) = omega (arith, count-add i k c d)

pub map-swap-add :
    (k : Key) (c : ℕ) (d : Dict Key ℕ) → map swap (d ++ (k, c) ∷ []) ≡ map swap d ++ (c, k) ∷ []
map-swap-add k c [] = refl
map-swap-add k c ((j, c') ∷ d) = ap (◌∷◌ (c', j)) (map-swap-add k c d)

-- The key that `_rused` gives a client is the one under which `_used` has it.
pub lookup-mirror :
    (c : ℕ) (k : Key) (d : Dict Key ℕ)
    → DistinctKeys d
    → lookup c (map swap d) ≡ some k
    → lookup k d ≡ some c
unfolding lookup
lookup-mirror c k [] v h = cc
lookup-mirror c k ((j, c') ∷ d) v h = ground (arith, key_same_iff j k, lookup-mirror c k d)

pub lookup-delete_ne :
    (j k : Key) (d : Dict Key ℕ) → lookup j d ≡ none → lookup j (delete k d) ≡ none
unfolding lookup delete
lookup-delete_ne j k [] h = refl
lookup-delete_ne j k ((i, c) ∷ d) h = ground (arith, lookup-delete_ne j k d)

pub DistinctKeys-delete : (k : Key) (d : Dict Key ℕ) → DistinctKeys d → DistinctKeys (delete k d)
unfolding delete
DistinctKeys-delete k [] v = tt
DistinctKeys-delete k ((j, c) ∷ d) v = elim (Bool-cases (key_same j k)) [
  | inl h ↦ rw h v.1
  | inr h ↦ rw h (lookup-delete_ne j k d v.0, DistinctKeys-delete k d v.1)
]

-- The two deletions keep the mirror.
pub delete-mirror :
    (c : ℕ) (k : Key) (d : Dict Key ℕ)
    → DistinctKeys d
    → lookup c (map swap d) ≡ some k
    → delete c (map swap d) ≡ map swap (delete k d)
unfolding lookup delete
delete-mirror c k [] v h = refl
delete-mirror c k ((j, c') ∷ d) v h =
    ground (arith, key_same_iff j k, delete-mirror c k d, lookup-mirror c k d)

pub count-delete :
    (i : ℕ) (k : Key) (c : ℕ) (d : Dict Key ℕ)
    → lookup k d ≡ some c
    → count i (values (delete k d)) + count i (c ∷ []) ≡ count i (values d)
unfolding lookup delete
count-delete i k c [] h = cc
count-delete i k c ((j, c') ∷ d) h = ground (arith, count-delete i k c d)
