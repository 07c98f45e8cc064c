-- ===== src/Models/Indexes/Named.antt =====
-- The names of indexes fit.
use django_clickhouse_backen.Prelude.{
  ℕ, suc, ◌≡◌, ◌≤◌, refl, false, ◌||◌, ◌==◌, List, [], ◌∷◌, ◌++◌, length, length-append, take, Text,
  arith, if_cases, zero,
}
use django_clickhouse_backen.Models.Indexes.{
  Naming, named, max_name_length, underscore, parts, with_letter, set_name_with_model,
}

length-take : (n : ℕ) (t : Text) → length (take n t) ≤ n
length-take zero t = ground arith
length-take (suc n) [] = ground arith
length-take (suc n) (c ∷ t) = ground (arith, length-take n t)

length-parts :
    (table_name column digest suffix : Text)
    → length digest ≡ 6
    → length suffix ≤ 3
    → length (parts table_name column digest suffix) ≤ 30
unfolding parts
length-parts t c d s hd hs = ground (
  arith,
  length-append (take 11 t) (underscore ∷ (take 7 c ++ (underscore ∷ (d ++ (underscore ∷ s))))),
  length-append (take 7 c) (underscore ∷ (d ++ (underscore ∷ s))),
  length-append d (underscore ∷ s),
  length-take 11 t,
  length-take 7 c,
)

-- Whether a name begins with a character that may begin one.
pub Begins : Naming → Text → Type 0
Begins N [] = ⊥
Begins N (c ∷ t) = (c == underscore || Naming.is_digit N c) ≡ false

with_letter-length : (N : Naming) (t : Text) → length (with_letter N t) ≡ length t
unfolding with_letter
with_letter-length N [] = refl
with_letter-length N (c ∷ t) = ground arith

with_letter-Begins : (N : Naming) (c : ℕ) (t : Text) → Begins N (with_letter N (c ∷ t))
unfolding with_letter Begins
with_letter-Begins N c t =
    if_cases (Begins N) (c == underscore || Naming.is_digit N c) (λ h. Naming.letter_no_digit N)
      (λ h. h)

parts-Begins : (N : Naming) (t c d s : Text) → Begins N (with_letter N (parts t c d s))
unfolding parts
parts-Begins N [] c d s = with_letter-Begins N _ _
parts-Begins N (x ∷ t) c d s = with_letter-Begins N _ _

-- An index of at least one field, whose class has a suffix of three characters at most, always
-- gets a name, of 30 characters at most, that begins with neither an underscore nor a digit.
pub set_name_with_model-Begins :
    (N : Naming) (suffix table_name column : Text) (columns : List Text)
    → length suffix ≤ 3
    → (name : Text) × (set_name_with_model N suffix table_name (column ∷ columns) ≡ named name)
      × (length name ≤ max_name_length)
      × Begins N name
unfolding set_name_with_model
set_name_with_model-Begins N suffix table_name column columns h =
    let digest = Naming.names_digest N ((table_name ∷ column ∷ columns) ++ suffix ∷ []) 6 in
    let name = parts table_name column digest suffix in
    let fits : length name ≤ 30 =
      length-parts table_name column digest suffix (Naming.length-names_digest N _ 6) h in
    (
      with_letter N name,
      ground (arith, fits),
      ground (arith, fits, with_letter-length N name),
      parts-Begins N table_name column digest suffix,
    )
