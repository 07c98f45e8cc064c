-- ===== src/Driver/Escape/Binary.antt =====
-- Binary parameters: both ways to enclose the `repr` come to the same literal, which reads back as the bytes.
use mathlib.Core.List.{flat_map}
use django_clickhouse_backen.Prelude.{
  ℕ, ◌/◌, ◌%◌, ◌<◌, ◌≡◌, ◌⊎◌, inl, inr, refl, sym, false, ◌&&◌, not, any, some, List, [], ◌∷◌, ◌++◌,
  append_assoc, All, Text, arith, ◌==◌, if◌then◌else◌, if_cases,
}
use django_clickhouse_backen.Driver.Escape.{
  quote, double_quote, backslash, enclose, repr_byte, repr_mark, repr_inner, escape_quotes,
  escape_binary, hex_digit,
}
use django_clickhouse_backen.Driver.Escape.Literal.{
  Spells, read_literal, read_body, hex_value, read_literal-enclose,
}

hex_value-hex_digit : (n : ℕ) → n < 16 → hex_value (hex_digit n) ≡ some n
unfolding hex_value
hex_value-hex_digit n h = ground arith

repr_byte-Spells : (c : ℕ) → c < 256 → Spells (repr_byte quote c) c
unfolding repr_byte read_body
repr_byte-Spells c h t = ground (arith, hex_value-hex_digit (c / 16), hex_value-hex_digit (c % 16))

escape_quotes-append : (s t : Text) → escape_quotes (s ++ t) ≡ escape_quotes s ++ escape_quotes t
unfolding escape_quotes flat_map
escape_quotes-append [] t = refl
escape_quotes-append (c ∷ s) t = rw (escape_quotes-append s t) (
    sym (
      append_assoc (if c == quote then backslash ∷ c ∷ [] else c ∷ []) (escape_quotes s)
        (escape_quotes t)))

-- Escaping the quote afterwards gives what `repr` gives where it encloses by quotes.
escape_quotes-repr_byte :
    (c : ℕ)
    → (c == double_quote) ≡ false
    → escape_quotes (repr_byte double_quote c) ≡ repr_byte quote c
unfolding escape_quotes repr_byte flat_map
escape_quotes-repr_byte c h = ground arith

escape_quotes-repr :
    (bytes : List ℕ)
    → any (λ c. c == double_quote) bytes ≡ false
    → escape_quotes (flat_map (repr_byte double_quote) bytes) ≡ flat_map (repr_byte quote) bytes
unfolding flat_map
escape_quotes-repr [] h = unfold escape_quotes in refl
escape_quotes-repr (c ∷ bytes) h = rw (
  escape_quotes-append (repr_byte double_quote c) (flat_map (repr_byte double_quote) bytes),
  escape_quotes-repr_byte c (ground arith),
  escape_quotes-repr bytes (ground arith),
)

repr_mark_cases :
    (bytes : List ℕ)
    → ((repr_mark bytes ≡ double_quote) × (any (λ c. c == double_quote) bytes ≡ false))
      ⊎ (repr_mark bytes ≡ quote)
unfolding repr_mark
repr_mark_cases bytes =
    if_cases
      (λ m. ((m ≡ double_quote) × (any (λ c. c == double_quote) bytes ≡ false)) ⊎ (m ≡ quote))
      (any (λ c. c == quote) bytes && not (any (λ c. c == double_quote) bytes))
      (λ h. inl (refl, ground arith)) (λ h. inr refl)

-- One description for both branches.
pub escape_binary-eq :
    (bytes : List ℕ) → escape_binary bytes ≡ enclose (flat_map (repr_byte quote) bytes)
unfolding escape_binary repr_inner
escape_binary-eq bytes = elim (repr_mark_cases bytes) [
  | inl (e, unseen) ↦ rw (e, escape_binary, escape_quotes-repr bytes unseen)
  | inr e ↦ rw (e, escape_binary)
]

bytes-Spells :
    (bytes : List ℕ) → All (λ c. c < 256) bytes → All (λ c. Spells (repr_byte quote c) c) bytes
bytes-Spells [] h = tt
bytes-Spells (c ∷ bytes) h = (repr_byte-Spells c h.0, bytes-Spells bytes h.1)

-- Bytes, escaped as a parameter, are one literal, which ClickHouse reads as those bytes, whatever
-- follows.
pub read_literal-escape_binary :
    (bytes rest : List ℕ)
    → All (λ c. c < 256) bytes
    → read_literal (escape_binary bytes ++ rest) ≡ some (bytes, rest)
read_literal-escape_binary bytes rest h =
    rw (escape_binary-eq bytes)
      (read_literal-enclose (repr_byte quote) bytes rest (bytes-Spells bytes h))
