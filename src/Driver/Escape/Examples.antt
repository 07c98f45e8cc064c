-- ===== src/Driver/Escape/Examples.antt =====
-- The theorems about escaped parameters with a table that escapes what clickhouse_driver does.
use mathlib.Core.List.{flat_map}
use django_clickhouse_backen.Prelude.{
  ℕ, ◌<◌, ◌≡◌, refl, false, Option, none, some, List, [], ◌∷◌, ◌++◌, All, Text, codes, join, arith,
  ◌==◌, if◌then◌else◌,
}
use django_clickhouse_backen.Driver.Escape.{
  Value, null, str, list, dict, binary, json, end, item, done, pair, str_of, Escapes, quote,
  backslash, escape_item, escape_param, escape_binary, repr_mark, repr_inner, escape_quotes,
}
use django_clickhouse_backen.Driver.Escape.Literal.{
  Escaping, meaning, read_literal, read_literal-escape_str,
}
use django_clickhouse_backen.Driver.Escape.Binary.{read_literal-escape_binary}
use django_clickhouse_backen.Driver.Escape.Balance.{Balanced}
use django_clickhouse_backen.Driver.Escape.Nested.{Plain, Table, escape_param-Balanced}

abbrev letter : ℕ → Option ℕ
letter c =
    if c == 8
    then some b'b'
    else if c == 12
    then some b'f'
    else if c == 13
    then some b'r'
    else if c == 10
    then some b'n'
    else if c == 9
    then some b't'
    else if c == 0
    then some b'0'
    else if c == 7
    then some b'a'
    else if c == 11
    then some b'v'
    else if c == quote
    then some quote
    else if c == backslash
    then some backslash
    else none

abbrev spelt : Option ℕ → Option Text
spelt none = none
spelt (some d) = some (backslash ∷ d ∷ [])

abbrev table : Escapes
table = record {
  escape_chars_map = λ c. spelt (letter c);
  maybe_enquote_for_server = λ s e. e;
  client_unchanged = λ e. refl;
}

spelt-Escaping : (c : ℕ) (d : Option ℕ) → letter c ≡ d → Escaping c (spelt d)
unfolding meaning
spelt-Escaping c none e = ground arith
spelt-Escaping c (some d) e = (d, refl, ground arith, ground arith)

table-Escaping : Table table
table-Escaping c = spelt-Escaping c (letter c) refl

abbrev name : Text
name = codes "O'Re\\illy"

read_literal-escape_str_example :
    read_literal (str_of (escape_param table false (str name)) ++ codes " OR 1")
    ≡ some (name, codes " OR 1")
read_literal-escape_str_example = read_literal-escape_str table name (codes " OR 1") table-Escaping

abbrev bytes : List ℕ
bytes = 0 ∷ b'\'' ∷ b'F' ∷ 254 ∷ []

bytes_small : All (λ c. c < 256) bytes
bytes_small = omega arith

read_literal-escape_binary_example :
    read_literal (escape_binary bytes ++ codes ")") ≡ some (bytes, codes ")")
read_literal-escape_binary_example = read_literal-escape_binary bytes (codes ")") bytes_small

-- JSON([{"k": "'"}, b"'", None])
abbrev nested : Value
nested = json (
    list (
      item (dict (pair (str (codes "k")) (str (codes "'")) done))
        (item (binary bytes) (item null end))))

nested-Plain : Plain nested
unfolding Plain
nested-Plain = (((tt), tt, tt), (tt, (tt, tt)))

escape_param-Balanced_example : Balanced (str_of (escape_param table false nested))
escape_param-Balanced_example = escape_param-Balanced table nested table-Escaping nested-Plain

escape_nested :
    str_of (escape_param table false nested) ≡ codes "[tuple('\\''),'\\x00\\'F\\xfe',NULL]"
unfolding escape_param escape_item codes join flat_map repr_mark escape_quotes repr_inner
escape_nested = refl
