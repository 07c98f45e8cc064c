-- ===== src/Models/Fields/Checks/Choices.antt =====
-- The choices of an enumeration that pass the check.
use mathlib.Core.List.{Perm}
use mathlib.Core.List.Perm
use django_clickhouse_backen.Prelude.{
  ◌≡◌, refl, ap, subst, ◌||◌, Bool-cases, Option-cases, ◌⊎◌, inl, inr, Option, none, some, List, [],
  ◌∷◌, map, All, arith, ℕ, Text,
}
use django_clickhouse_backen.Prelude.Int.{ℤ, ltb_ℤ, ◌≤ℤ◌, ltb_ℤ_refuses, ≤ℤ_trans, ltb_ℤ_lt}
use django_clickhouse_backen.Models.Fields.Checks.{
  Name, str, bytes, Choice, a_choice, no_pair, ChoicesChecked, choices, not_iterable, no_choices,
  bad_choice, out_of_range, decoded, add_choice, normal_choices, insert_choice, sort_choices,
  sorted_choices, check_choices,
}

abbrev pub as_choice : ℤ × Name → Choice
as_choice (value, name) = a_choice (some value) (some name)

abbrev pub InRange : ℤ → ℤ → ℤ × Name → Type 0
InRange low high c = (low ≤ℤ c.0) × (c.0 ≤ℤ high)

-- The values rise, or are equal.
abbrev pub IsSorted : List (ℤ × Name) → Type 0
IsSorted [] = Unit
IsSorted (c ∷ cs) = All (λ d. c.0 ≤ℤ d.0) cs × IsSorted cs

insert-perm : (c : ℤ × Name) (ds : List (ℤ × Name)) → Perm (insert_choice c ds) (c ∷ ds)
unfolding insert_choice
insert-perm c [] = Perm.refl (c ∷ [])
insert-perm c (d ∷ ds) = elim (Bool-cases (ltb_ℤ d.0 c.0)) [
  | inl e ↦ rw e (Perm.trans (Perm.cons d (insert-perm c ds)) (Perm.swap c d ds))
  | inr e ↦ rw e (Perm.refl (c ∷ d ∷ ds))
]

sort-perm : (cs : List (ℤ × Name)) → Perm (sort_choices cs) cs
unfolding sort_choices
sort-perm [] = Perm.refl []
sort-perm (c ∷ cs) = Perm.trans (insert-perm c (sort_choices cs)) (Perm.cons c (sort-perm cs))

All-insert :
    (P : ℤ × Name → Type 0) (c : ℤ × Name) (ds : List (ℤ × Name))
    → P c
    → All P ds
    → All P (insert_choice c ds)
unfolding insert_choice
All-insert P c [] p h = (p, tt)
All-insert P c (d ∷ ds) p (q, h) = elim (Bool-cases (ltb_ℤ d.0 c.0)) [
  | inl e ↦ rw e (q, All-insert P c ds p h)
  | inr e ↦ rw e (p, (q, h))
]

All-le : (a b : ℤ) (ds : List (ℤ × Name)) → a ≤ℤ b → All (λ d. b ≤ℤ d.0) ds → All (λ d. a ≤ℤ d.0) ds
All-le a b [] h k = tt
All-le a b (d ∷ ds) h (k, ks) = (≤ℤ_trans a b d.0 h k, All-le a b ds h ks)

insert-IsSorted :
    (c : ℤ × Name) (ds : List (ℤ × Name)) → IsSorted ds → IsSorted (insert_choice c ds)
unfolding insert_choice
insert-IsSorted c [] h = (tt, tt)
insert-IsSorted c (d ∷ ds) (k, h) = elim (Bool-cases (ltb_ℤ d.0 c.0)) [
  | inl e ↦ rw e (All-insert (λ x. d.0 ≤ℤ x.0) c ds (ltb_ℤ_lt d.0 c.0 e) k, insert-IsSorted c ds h)
  | inr e ↦ let le = ltb_ℤ_refuses d.0 c.0 e in rw e ((le, All-le c.0 d.0 ds le k), (k, h))
]

sort-IsSorted : (cs : List (ℤ × Name)) → IsSorted (sort_choices cs)
unfolding sort_choices
sort-IsSorted [] = tt
sort-IsSorted (c ∷ cs) = insert-IsSorted c (sort_choices cs) (sort-IsSorted cs)

add_choice_inv :
    (c : ℤ × Name) (rest : ChoicesChecked) (cs : List (ℤ × Name))
    → add_choice c rest ≡ choices cs
    → (es : List (ℤ × Name)) × (rest ≡ choices es) × (c ∷ es ≡ cs)
unfolding add_choice
add_choice_inv c (choices es) cs h = (es, refl, cc)
add_choice_inv c not_iterable cs h = cc
add_choice_inv c no_choices cs h = cc
add_choice_inv c bad_choice cs h = cc
add_choice_inv c out_of_range cs h = cc

sorted_choices_inv :
    (r : ChoicesChecked) (cs : List (ℤ × Name))
    → sorted_choices r ≡ choices cs
    → (ds : List (ℤ × Name)) × (r ≡ choices ds) × (sort_choices ds ≡ cs)
unfolding sorted_choices
sorted_choices_inv (choices ds) cs h = (ds, refl, cc)
sorted_choices_inv not_iterable cs h = cc
sorted_choices_inv no_choices cs h = cc
sorted_choices_inv bad_choice cs h = cc
sorted_choices_inv out_of_range cs h = cc

module _ (decode : List ℕ → Option Text) where
  -- The name that a choice gets: text stays, bytes become the text that they decode to, and stay where
  -- they decode to none.
  pub NameOf : Name → Name → Type 0
  NameOf (str s) n = n ≡ str s
  NameOf (bytes b) n =
      ((s : Text) × (decode b ≡ some s) × (n ≡ str s)) ⊎ ((decode b ≡ none) × (n ≡ bytes b))

  -- The same value, with the name that it gets
  abbrev pub Named : ℤ × Name → ℤ × Name → Type 0
  Named c d = (c.0 ≡ d.0) × NameOf c.1 d.1

  -- Choice by choice
  pub AllNamed : List (ℤ × Name) → List (ℤ × Name) → Type 0
  AllNamed [] [] = Unit
  AllNamed [] (d ∷ ds) = ⊥
  AllNamed (c ∷ cs) [] = ⊥
  AllNamed (c ∷ cs) (d ∷ ds) = Named c d × AllNamed cs ds

  decoded-NameOf : (n : Name) → NameOf n (decoded decode n)
  unfolding NameOf decoded
  decoded-NameOf (str s) = refl
  decoded-NameOf (bytes b) = elim (Option-cases (decode b)) [
    | inl e ↦ inr (e, ground arith)
    | inr (s, e) ↦ inl (s, e, ground arith)
  ]

  -- What the loop collects is what was given, decoded, and every value is in range.
  normal_choices_lem :
      (low high : ℤ) (given : List Choice) (cs : List (ℤ × Name))
      → normal_choices decode low high given ≡ choices cs
      → (ds : List (ℤ × Name)) × (given ≡ map as_choice ds)
        × All (InRange low high) ds
        × AllNamed ds cs
  unfolding normal_choices AllNamed
  normal_choices_lem low high [] cs h =
      ([], refl, tt, let p : [] ≡ cs = cc in subst (AllNamed []) p tt)
  normal_choices_lem low high (no_pair ∷ given) cs h = cc
  normal_choices_lem low high (a_choice none name ∷ given) cs h = cc
  normal_choices_lem low high (a_choice (some value) none ∷ given) cs h = cc
  normal_choices_lem low high (a_choice (some value) (some name) ∷ given) cs h =
      elim (Bool-cases (ltb_ℤ value low || ltb_ℤ high value)) [
        | inl e ↦ absurd (ground arith)
        | inr e ↦
            let rest = normal_choices decode low high given in
            let added : add_choice (value, decoded decode name) rest ≡ choices cs = ground arith in
            let (es, p, q) = add_choice_inv (value, decoded decode name) rest cs added in
            let (ds, r, a, d) = normal_choices_lem low high given es p in
            let above = ltb_ℤ_refuses value low (ground arith) in
            let below = ltb_ℤ_refuses high value (ground arith) in
            (
              (value, name) ∷ ds,
              ap (λ l. a_choice (some value) (some name) ∷ l) r,
              ((above, below), a),
              subst (AllNamed ((value, name) ∷ ds)) q ((refl, decoded-NameOf name), d),
            )
      ]

  -- Where choices pass the check, they are pairs of an int in the range of the field and a name; and
  -- what the field keeps is these pairs in the order of their values, where names that are bytes are
  -- decoded to text if they can be.
  pub check_choices-IsSorted :
      (low high : ℤ) (given : Option (List Choice)) (cs : List (ℤ × Name))
      → check_choices decode low high given ≡ choices cs
      → (ds es : List (ℤ × Name)) × (given ≡ some (map as_choice ds))
        × All (InRange low high) ds
        × AllNamed ds es
        × Perm cs es
        × IsSorted cs
  unfolding check_choices
  check_choices-IsSorted low high none cs h = cc
  check_choices-IsSorted low high (some []) cs h = cc
  check_choices-IsSorted low high (some (g ∷ given)) cs h =
      let (es, p, q) = sorted_choices_inv (normal_choices decode low high (g ∷ given)) cs h in
      let (ds, r, a, d) = normal_choices_lem low high (g ∷ given) es p in
      (
        ds,
        es,
        ap some r,
        a,
        d,
        subst (λ l. Perm l es) q (sort-perm es),
        subst IsSorted q (sort-IsSorted es),
      )
