-- ===== src/Models/Indexes.antt =====
-- The name that an index gets from its model, clickhouse_backend/models/indexes.py. The digest of
-- names is Django's names_digest, and which characters are digits is Python's str.isdigit; both are
-- parameters.
pub mod Named
use django_clickhouse_backen.Prelude.{
  ℕ, ◌≡◌, Bool, true, false, ◌||◌, ◌==◌, Option, none, some, List, [], ◌∷◌, ◌++◌, length, take,
  Text, ltb, if◌then◌else◌,
}

pub record Naming : Type 0 where
  pub names_digest : List Text → ℕ → Text
  pub is_digit : ℕ → Bool
  pub length-names_digest : (names : List Text) (n : ℕ) → length (names_digest names n) ≡ n
  pub letter_no_digit : is_digit b'D' ≡ false

abbrev pub max_name_length : ℕ
max_name_length = 30

pub data Result : Type 0 where
  named : Text → Result
  index_error assertion_error : Result

abbrev pub underscore : ℕ
underscore = b'_'

-- "%s_%s_%s" % (table_name[:11], column_names[0][:7], "%s_%s" % (digest, suffix))
pub parts : Text → Text → Text → Text → Text
parts table_name column digest suffix =
    take 11 table_name
    ++ (underscore ∷ (take 7 column ++ (underscore ∷ (digest ++ (underscore ∷ suffix)))))

-- A name may not begin with an underscore or a digit.
pub with_letter : Naming → Text → Text
with_letter N [] = []
with_letter N (c ∷ name) = if c == underscore || Naming.is_digit N c then b'D' ∷ name else c ∷ name

-- The table's name comes without its namespace; the columns are those of the index's fields.
pub set_name_with_model : Naming → Text → Text → List Text → Result
unfolding parts with_letter
set_name_with_model N suffix table_name [] = index_error
set_name_with_model N suffix table_name (column ∷ columns) =
    let hash_data = (table_name ∷ column ∷ columns) ++ suffix ∷ [] in
    let name = parts table_name column (Naming.names_digest N hash_data 6) suffix in
    if ltb max_name_length (length name) then assertion_error else named (with_letter N name)
