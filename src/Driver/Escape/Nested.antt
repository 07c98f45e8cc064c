-- ===== src/Driver/Escape/Nested.antt =====
-- Every escaped parameter, however nested, opens and closes its string literals.
use django_clickhouse_backen.Prelude.{
  ℕ, refl, sym, subst, ◌∙◌, Bool, true, false, Option, none, some, List, [], ◌∷◌, ◌++◌, All, Text,
  codes, join, arith, ◌==◌, if_cases,
}
use django_clickhouse_backen.Driver.Escape.{
  Value, null, datetime, date, time, str, list, tuple, dict, enum, address, binary, json, other,
  Values, end, item, Pairs, done, pair, Datetime, naive, aware, Clock, format_day, format_clock,
  format_microsecond, escape_datetime, Escaped, str_of, quote, repr_byte, escape_binary, Escapes,
  escape_chars, escape_str, enquote, get_or, escape_item, escape_items, escape_pairs,
  escape_json_values, escape_param,
}
use django_clickhouse_backen.Driver.Escape.Literal.{Escaping}
use django_clickhouse_backen.Driver.Escape.Binary.{escape_binary-eq}
use django_clickhouse_backen.Driver.Escape.Balance.{
  Balanced, Inner, inside, scan, scan-append, enclose-Balanced, flat_map-Inner, join-Balanced,
  wrap-Balanced, Unquoted, Bare, Unquoted-Balanced, Bare-Inner, format_day-Inner,
}

format_clock-Inner : (c : Clock) → Inner (format_clock c)
unfolding format_clock scan
format_clock-Inner c = ground arith

format_microsecond-Inner : (n : ℕ) → Inner (format_microsecond n)
unfolding format_microsecond scan
format_microsecond-Inner n = ground arith

-- The objects of which only the `str` is known have no quote in it, and addresses no backslash.
abbrev PlainDatetime : Datetime → Type 0
PlainDatetime (naive t) = Unquoted t
PlainDatetime (aware d c n) = Unit

unfoldable mutual
  pub Plain : Value → Type 0
  Plain null = Unit
  Plain (datetime d) = PlainDatetime d
  Plain (date d) = Unit
  Plain (time c) = Unit
  Plain (str t) = Unit
  Plain (list xs) = PlainValues xs
  Plain (tuple xs) = PlainValues xs
  Plain (dict d) = PlainPairs d
  Plain (enum v) = Plain v
  Plain (address t) = Bare t
  Plain (binary bytes) = Unit
  Plain (json v) = Plain v
  Plain (other t) = Unquoted t

  pub PlainValues : Values → Type 0
  PlainValues end = Unit
  PlainValues (item v vs) = Plain v × PlainValues vs

  pub PlainPairs : Pairs → Type 0
  PlainPairs done = Unit
  PlainPairs (pair k v ps) = Plain k × Plain v × PlainPairs ps

Inner-append : (s t : Text) → Inner s → Inner t → Inner (s ++ t)
Inner-append s t hs ht = rw (scan-append inside s t, hs) ht

space-Inner : (t : Text) → Inner t → Inner (b' ' ∷ t)
unfolding scan
space-Inner t h = h

dot-Inner : (t : Text) → Inner t → Inner (b'.' ∷ t)
unfolding scan
dot-Inner t h = h

datetime-Balanced : (d : Datetime) → PlainDatetime d → Balanced (str_of (escape_datetime d))
unfolding escape_datetime
datetime-Balanced (naive t) h = Unquoted-Balanced t h
datetime-Balanced (aware d c n) h =
    let seconds : Inner (b' ' ∷ format_clock c) =
      space-Inner (format_clock c) (format_clock-Inner c) in
    let fraction : Inner (b'.' ∷ format_microsecond n) =
      dot-Inner (format_microsecond n) (format_microsecond-Inner n) in
    if_cases (λ e. Balanced (str_of e)) (n == 0)
      (λ _. enclose-Balanced _ (Inner-append (format_day d) _ (format_day-Inner d) seconds))
      (λ _. enclose-Balanced _ (
        Inner-append (format_day d) _ (format_day-Inner d)
          (Inner-append (b' ' ∷ format_clock c) _ seconds fraction)))

escaped-Inner : (c : ℕ) (e : Option Text) → Escaping c e → Inner (get_or e (c ∷ []))
unfolding scan
escaped-Inner c none h = ground arith
escaped-Inner c (some e) (d, q, x, m) = rw q

str-Balanced :
    (E : Escapes)
    → ((c : ℕ) → Escaping c (E.escape_chars_map c))
    → (t : Text) → Balanced (str_of (escape_str E false t))
unfolding escape_str escape_chars
str-Balanced E table t =
    enclose-Balanced _ (flat_map-Inner _ t λ c. escaped-Inner c (E.escape_chars_map c) (table c))

repr_byte-Inner : (c : ℕ) → Inner (repr_byte quote c)
unfolding repr_byte scan
repr_byte-Inner c = ground arith

binary-Balanced : (bytes : List ℕ) → Balanced (escape_binary bytes)
binary-Balanced bytes =
    rw (escape_binary-eq bytes)
      (enclose-Balanced _ (flat_map-Inner (repr_byte quote) bytes repr_byte-Inner))

enquote-Balanced :
    (E : Escapes) (j : Bool) (e : Escaped)
    → Balanced (str_of e)
    → Balanced (str_of (enquote E false j e))
enquote-Balanced E false e h = rw (E.client_unchanged e) h
enquote-Balanced E true e h =
    subst (λ x. Balanced (str_of x))
      (sym (E.client_unchanged (E.maybe_enquote_for_server false e) ∙ E.client_unchanged e)) h

null-Balanced : Balanced (codes "NULL")
unfolding scan codes
null-Balanced = refl

brackets-Balanced :
    (ts : List Text) → All Balanced ts → Balanced (codes "[" ++ (join (codes ",") ts ++ codes "]"))
brackets-Balanced ts h =
    wrap-Balanced (codes "[") (codes "]") _ (unfold scan codes in refl) (unfold scan codes in refl)
      (join-Balanced ts h)

tuple-Balanced :
    (ts : List Text)
    → All Balanced ts
    → Balanced (codes "tuple(" ++ (join (codes ",") ts ++ codes ")"))
tuple-Balanced ts h =
    wrap-Balanced (codes "tuple(") (codes ")") _ (unfold scan codes in refl)
      (unfold scan codes in refl) (join-Balanced ts h)

map-Balanced :
    (ts : List Text)
    → All Balanced ts
    → Balanced (codes "map(" ++ (join (codes ",") ts ++ codes ")"))
map-Balanced ts h =
    wrap-Balanced (codes "map(") (codes ")") _ (unfold scan codes in refl)
      (unfold scan codes in refl) (join-Balanced ts h)

-- The table of escapes is as documented.
abbrev pub Table : Escapes → Type 0
Table E = (c : ℕ) → Escaping c (E.escape_chars_map c)

mutual
  unfolding escape_item Plain

  item-Balanced :
      (E : Escapes)
      → Table E
      → (j : Bool) (v : Value) → Plain v
      → Balanced (str_of (escape_item E false j v))
  item-Balanced E t j null h = enquote-Balanced E j _ null-Balanced
  item-Balanced E t j (datetime d) h = enquote-Balanced E j _ (datetime-Balanced d h)
  item-Balanced E t j (date d) h = enquote-Balanced E j _ (enclose-Balanced _ (format_day-Inner d))
  item-Balanced E t j (time c) h =
      enquote-Balanced E j _ (enclose-Balanced _ (format_clock-Inner c))
  item-Balanced E t j (str s) h = enquote-Balanced E j _ (str-Balanced E t s)
  item-Balanced E t j (list xs) h =
      enquote-Balanced E j _ (brackets-Balanced _ (items-Balanced E t j xs h))
  item-Balanced E t j (tuple xs) h =
      enquote-Balanced E j _ (tuple-Balanced _ (items-Balanced E t false xs h))
  item-Balanced E t false (dict d) h =
      enquote-Balanced E false _ (map-Balanced _ (pairs-Balanced E t d h))
  item-Balanced E t true (dict d) h =
      enquote-Balanced E true _ (tuple-Balanced _ (json_values-Balanced E t d h))
  item-Balanced E t j (enum v) h = enquote-Balanced E j _ (item-Balanced E t false v h)
  item-Balanced E t j (address s) h = enquote-Balanced E j _ (enclose-Balanced s (Bare-Inner s h))
  item-Balanced E t j (binary bytes) h = enquote-Balanced E j _ (binary-Balanced bytes)
  item-Balanced E t false (json v) h = item-Balanced E t true v h
  item-Balanced E t true (json v) h = enquote-Balanced E false _ (item-Balanced E t true v h)
  item-Balanced E t j (other s) h = enquote-Balanced E j _ (Unquoted-Balanced s h)

  items-Balanced :
      (E : Escapes)
      → Table E
      → (j : Bool) (vs : Values) → PlainValues vs
      → All Balanced (escape_items E false j vs)
  items-Balanced E t j end h = tt
  items-Balanced E t j (item v vs) h = (item-Balanced E t j v h.0, items-Balanced E t j vs h.1)

  pairs-Balanced :
      (E : Escapes)
      → Table E
      → (ps : Pairs) → PlainPairs ps
      → All Balanced (escape_pairs E false ps)
  pairs-Balanced E t done h = tt
  pairs-Balanced E t (pair k v ps) h =
      (item-Balanced E t false k h.0, (item-Balanced E t false v h.1, pairs-Balanced E t ps h.2))

  json_values-Balanced :
      (E : Escapes)
      → Table E
      → (ps : Pairs) → PlainPairs ps
      → All Balanced (escape_json_values E false ps)
  json_values-Balanced E t done h = tt
  json_values-Balanced E t (pair k v ps) h =
      (item-Balanced E t true v h.1, json_values-Balanced E t ps h.2)

-- However deep lists, tuples, dicts, enumeration members and JSON values nest, an escaped parameter
-- that stands outside of literals ends outside of them: no character of a value can end a literal
-- early or leave one open. Of objects whose `str` alone is known it is assumed that this has no
-- quote, and in an address no backslash.
pub escape_param-Balanced :
    (E : Escapes) (v : Value) → Table E → Plain v → Balanced (str_of (escape_param E false v))
unfolding escape_param
escape_param-Balanced E v table h = item-Balanced E table false v h
