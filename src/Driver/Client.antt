-- ===== src/Driver/Client.antt =====
-- The client, clickhouse_backend/driver/client.py: which statements are sent with rows of data.
pub mod Insert
mod Examples
use django_clickhouse_backen.Prelude.{
  ℕ, ◌+◌, Bool, true, false, not, ◌&&◌, ◌||◌, List, [], ◌∷◌, ◌++◌, Option, none, some, Text, codes,
  is_space, leb, ◌==◌, if◌then◌else◌,
}
use django_clickhouse_backen.Driver.Escape.{Escaped, str_of}

-- A character as IGNORECASE compares it with the letters of ASCII.
abbrev pub folded : ℕ → ℕ
folded c =
    if leb b'A' c && leb c b'Z'
    then c + 32
    else if c == 383
    then b's'
    else if c == 8490
    then b'k'
    else if c == 304 || c == 305
    then b'i'
    else c

-- What is left after a word of small letters.
pub after_word : Text → Text → Option Text
after_word [] s = some s
after_word (d ∷ word) [] = none
after_word (d ∷ word) (c ∷ s) = let rest = after_word word s in if folded c == d then rest else none

pub skip_spaces : Text → Text
skip_spaces [] = []
skip_spaces (c ∷ s) = let rest = skip_spaces s in if is_space c then rest else c ∷ s

-- \s*;?$ where the text has come to
pub at_end : Text → Bool
at_end [] = true
at_end (c ∷ []) = c == b';' || is_space c
at_end (c ∷ d ∷ s) =
    let rest = at_end (d ∷ s) in if is_space c then rest else c == b';' && d == 10 && nothing s
  where
    nothing : Text → Bool
    nothing [] = true
    nothing (e ∷ t) = false

pub ends_values : Text → Bool
unfolding after_word at_end
ends_values s = elim (after_word (codes "values") s) [ none ↦ false | some rest ↦ at_end rest ]

-- .+?values\s*;?$
pub some_values : Text → Bool
unfolding ends_values
some_values [] = false
some_values (c ∷ s) = let rest = some_values s in not (c == 10) && (ends_values s || rest)

pub then_values : Option Text → Bool
unfolding some_values
then_values none = false
then_values (some s) = some_values s

-- \s+into and the rest, for any number of spaces
pub spaces_into : Text → Bool
unfolding after_word then_values
spaces_into [] = false
spaces_into (c ∷ s) =
    let rest = spaces_into s in is_space c && (rest || then_values (after_word (codes "into") s))

pub then_into : Option Text → Bool
unfolding spaces_into
then_into none = false
then_into (some s) = spaces_into s

-- insert_pattern.match(query)
pub is_insert : Text → Bool
unfolding skip_spaces after_word then_into
is_insert query = then_into (after_word (codes "insert") (skip_spaces query))

-- What Client.execute does with a statement: its values are data, or go into the text.
pub data Sent (P : Type 0) : Type 0 where
  insert_query : Text → P → Sent P
  ordinary_query : Text → P → Sent P

pub execute : {P : Type 0} → Text → P → Sent P
unfolding is_insert
execute query params =
    if is_insert query then insert_query query params else ordinary_query query params
