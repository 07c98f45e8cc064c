-- ===== src/Models/Fields/Checks/Examples.antt =====
-- A named tuple of two fields, and an enumeration.
use mathlib.Core.List.{Perm}
use django_clickhouse_backen.Prelude.{
  ◌≡◌, ◌↔◌, ◌==◌, refl, true, Option, some, List, [], ◌∷◌, map, All, ℕ, Text, Bool, codes,
}
use django_clickhouse_backen.Prelude.Int.{ℤ, pos, negsuc}
use django_clickhouse_backen.Models.Fields.Checks.{
  a_field, named, checked, refused, invalid_error, classify, check_base_fields, Name, str, Choice,
  a_choice, choices, check_choices,
}
use django_clickhouse_backen.Models.Fields.Checks.Tuples.{
  named_item, items_of, Proper, check_base_fields-Proper,
}
use django_clickhouse_backen.Models.Fields.Checks.Choices.{
  as_choice, AllNamed, InRange, IsSorted, check_choices-IsSorted,
}

-- Fields are numbers, and 9 is a related field.
related : ℕ → Bool
related n = n == 9

identifier : Text → Bool
identifier t = true

abbrev pair : List (Text × ℕ)
pair = (codes "a", 1) ∷ (codes "b", 2) ∷ []

check_base_fields-Proper_example :
    (check_base_fields identifier related (some (map named_item pair)) ≡ checked (named pair))
    ↔ ((map named_item pair ≡ items_of (named pair)) × Proper identifier related (named pair))
check_base_fields-Proper_example =
    check_base_fields-Proper identifier related (map named_item pair) (named pair)

mixed :
    check_base_fields identifier related (some (a_field 1 ∷ named_item (codes "b", 2) ∷ []))
    ≡ refused invalid_error
unfolding check_base_fields classify identifier related
mixed = refl

abbrev given : List Choice
given =
    a_choice (some (pos 7)) (some (str (codes "b")))
    ∷ a_choice (some (negsuc 0)) (some (str (codes "a")))
    ∷ []

abbrev kept : List (ℤ × Name)
kept = (negsuc 0, str (codes "a")) ∷ (pos 7, str (codes "b")) ∷ []

decode : List ℕ → Option Text
decode b = some b

given-kept : check_choices decode (negsuc 127) (pos 127) (some given) ≡ choices kept
unfolding check_choices
given-kept = refl

check_choices-IsSorted_example :
    (ds es : List (ℤ × Name)) × (some given ≡ some (map as_choice ds))
    × All (InRange (negsuc 127) (pos 127)) ds
    × AllNamed decode ds es
    × Perm kept es
    × IsSorted kept
check_choices-IsSorted_example =
    check_choices-IsSorted decode (negsuc 127) (pos 127) (some given) kept given-kept
