-- ===== src/Driver/Escape/Literal.antt =====
-- How ClickHouse reads a string literal, and that escaped strings read back as themselves.
use mathlib.Core.List.{flat_map}
use django_clickhouse_backen.Prelude.{
  ℕ, ◌+◌, ◌-◌, ◌*◌, ◌≡◌, ◌≢◌, refl, false, ◌&&◌, Option, none, some, [], ◌∷◌, ◌++◌, append_assoc,
  All, Text, arith, leb, ◌==◌, if◌then◌else◌,
}
use django_clickhouse_backen.Driver.Escape.{
  str, str_of, quote, backslash, enclose, Escapes, escape_chars, escape_str, escape_item,
  escape_param, get_or,
}

-- The character that a backslash and this one stand for.
unfoldable pub meaning : ℕ → Option ℕ
meaning d =
    if d == quote
    then some quote
    else if d == backslash
    then some backslash
    else if d == b'b'
    then some 8
    else if d == b'f'
    then some 12
    else if d == b'r'
    then some 13
    else if d == b'n'
    then some 10
    else if d == b't'
    then some 9
    else if d == b'0'
    then some 0
    else if d == b'a'
    then some 7
    else if d == b'v'
    then some 11
    else none

unfoldable pub hex_value : ℕ → Option ℕ
hex_value h =
    if leb b'0' h && leb h b'9'
    then some (h - b'0')
    else if leb b'a' h && leb h b'f'
    then some (h - b'a' + 10)
    else none

-- Where the reader is in the literal.
pub data Mode : Type 0 where
  plain after_backslash after_x : Mode
  after_digit : ℕ → Mode

pub data Move : Type 0 where
  goes : Mode → Move
  emits : ℕ → Move
  stops fails : Move

abbrev emit_or_fail : Option ℕ → Move
emit_or_fail none = fails
emit_or_fail (some c) = emits c

abbrev first_digit : Option ℕ → Move
first_digit none = fails
first_digit (some h) = goes (after_digit h)

abbrev second_digit : ℕ → Option ℕ → Move
second_digit h none = fails
second_digit h (some l) = emits (h * 16 + l)

unfoldable pub move : Mode → ℕ → Move
unfolding meaning hex_value
move plain c =
    if c == quote then stops else if c == backslash then goes after_backslash else emits c
move after_backslash c = if c == b'x' then goes after_x else emit_or_fail (meaning c)
move after_x c = first_digit (hex_value c)
move (after_digit h) c = second_digit h (hex_value c)

abbrev pub push : ℕ → Option (Text × Text) → Option (Text × Text)
push c none = none
push c (some (s, rest)) = some (c ∷ s, rest)

-- The characters of a literal behind its opening quote, and the text behind its closing one.
unfoldable pub read_body : Mode → Text → Option (Text × Text)
unfolding move
read_body m [] = none
read_body m (c ∷ s) = elim (move m c) [
  | goes m' ↦ read_body m' s
  | emits d ↦ push d (read_body plain s)
  | stops ↦ some ([], s)
  | fails ↦ none
]

unfoldable pub read_literal : Text → Option (Text × Text)
unfolding read_body
read_literal [] = none
read_literal (c ∷ s) = if c == quote then read_body plain s else none

-- A text that the reader takes for the character.
abbrev pub Spells : Text → ℕ → Type 0
Spells chunk c = (t : Text) → read_body plain (chunk ++ t) ≡ push c (read_body plain t)

-- Characters that are spelt one by one are read back, up to the closing quote.
pub read_body-flat_map :
    (spell : ℕ → Text) (s rest : Text)
    → All (λ c. Spells (spell c) c) s
    → read_body plain (flat_map spell s ++ quote ∷ rest) ≡ some (s, rest)
unfolding flat_map read_body
read_body-flat_map spell [] rest h = refl
read_body-flat_map spell (c ∷ s) rest h = rw (
  append_assoc (spell c) (flat_map spell s) (quote ∷ rest),
  h.0,
  read_body-flat_map spell s rest h.1,
)

-- What clickhouse_driver documents of its table: it escapes the quote and the backslash, and each
-- escape is a backslash and a character with that meaning.
abbrev pub Escaping : ℕ → Option Text → Type 0
Escaping c none = (c ≢ quote) × (c ≢ backslash)
Escaping c (some e) = (d : ℕ) × (e ≡ backslash ∷ d ∷ []) × (d ≢ b'x') × (meaning d ≡ some c)

escaped-Spells : (c : ℕ) (e : Option Text) → Escaping c e → Spells (get_or e (c ∷ [])) c
unfolding read_body
escaped-Spells c none h t = ground arith
escaped-Spells c (some e) (d, q, x, m) t = rw q (ground arith)

every {ℓ} : {P : ℕ → Type ℓ} (s : Text) → ((c : ℕ) → P c) → All P s
every [] h = tt
every (c ∷ s) h = (h c, every s h)

pub read_literal-enclose :
    (spell : ℕ → Text) (s rest : Text)
    → All (λ c. Spells (spell c) c) s
    → read_literal (enclose (flat_map spell s) ++ rest) ≡ some (s, rest)
unfolding read_literal
read_literal-enclose spell s rest h =
    rw (append_assoc (flat_map spell s) (quote ∷ []) rest) (read_body-flat_map spell s rest h)

-- A string parameter, escaped for a query, is one literal, which ClickHouse reads as the string
-- itself, whatever characters it has and whatever follows.
pub read_literal-escape_str :
    (E : Escapes) (s rest : Text)
    → ((c : ℕ) → Escaping c (E.escape_chars_map c))
    → read_literal (str_of (escape_param E false (str s)) ++ rest) ≡ some (s, rest)
unfolding escape_param escape_item escape_str escape_chars
read_literal-escape_str E s rest h = rw (E.client_unchanged (escape_str E false s)) (
    read_literal-enclose (λ c. get_or (E.escape_chars_map c) (c ∷ [])) s rest
      (every s λ c. escaped-Spells c (E.escape_chars_map c) (h c)))
