-- ===== src/Driver/Escape.antt =====
-- Parameters as SQL literals, clickhouse_backend/driver/escape.py. The table of escapes and the
-- decorator that quotes for the server belong to clickhouse_driver and are parameters.
pub mod Literal
pub mod Binary
pub mod Balance
pub mod Nested
mod Examples
use mathlib.Core.List.{flat_map}
use django_clickhouse_backen.Prelude.{
  ℕ, zero, suc, ◌+◌, ◌*◌, ◌/◌, ◌%◌, Bool, true, false, not, ◌&&◌, ◌||◌, Option, none, some, List,
  [], ◌∷◌, ◌++◌, ◌-◌, ◌≡◌, map, Text, codes, join, any, ltb, leb, ◌==◌, if◌then◌else◌,
}
use django_clickhouse_backen.Prelude.Dict.{Dict}

-- A moment in UTC, as `astimezone(timezone.utc)` gives it; a date and a time are parts of one.
pub record Day : Type 0 where
  pub year : ℕ
  pub month : ℕ
  pub day : ℕ

pub record Clock : Type 0 where
  pub hour : ℕ
  pub minute : ℕ
  pub second : ℕ

-- A naive datetime has the text of its `timestamp()`.
pub data Datetime : Type 0 where
  naive : Text → Datetime
  aware : Day → Clock → ℕ → Datetime

-- What a parameter may be. `address` is a UUID or an IP address with its `str`, `json` is
-- `types.JSON`, and `other` is any other object with its `str`, such as a number.
mutual
  pub data Value : Type 0 where
    null : Value
    datetime : Datetime → Value
    date : Day → Value
    time : Clock → Value
    str : Text → Value
    list : Values → Value
    tuple : Values → Value
    dict : Pairs → Value
    enum : Value → Value
    address : Text → Value
    binary : List ℕ → Value
    json : Value → Value
    other : Text → Value

  pub data Values : Type 0 where
    end : Values
    item : Value → Values → Values

  pub data Pairs : Type 0 where
    done : Pairs
    pair : Value → Value → Pairs → Pairs

-- The result is a string, or the item itself, of which only its `str` is seen.
pub data Escaped : Type 0 where
  quoted : Text → Escaped
  itself : Text → Escaped

-- str(e)
abbrev pub str_of : Escaped → Text
str_of (quoted t) = t
str_of (itself t) = t

abbrev pub quote : ℕ
quote = b'\''

abbrev pub double_quote : ℕ
double_quote = b'"'

abbrev pub backslash : ℕ
backslash = b'\\'

-- "'%s'" % t
abbrev pub enclose : Text → Text
enclose t = quote ∷ (t ++ quote ∷ [])

abbrev pub digit : ℕ → ℕ
digit n = b'0' + n % 10

abbrev pub two_digits : ℕ → Text
two_digits n = digit (n / 10) ∷ digit n ∷ []

-- strftime("%Y-%m-%d"), for years of four digits
pub format_day : Day → Text
format_day d =
    two_digits (d.year / 100)
    ++ (two_digits d.year ++ (b'-' ∷ (two_digits d.month ++ (b'-' ∷ two_digits d.day))))

-- strftime("%H:%M:%S")
pub format_clock : Clock → Text
format_clock c = two_digits c.hour ++ (b':' ∷ (two_digits c.minute ++ (b':' ∷ two_digits c.second)))

-- strftime("%f")
pub format_microsecond : ℕ → Text
format_microsecond n = two_digits (n / 10000) ++ (two_digits (n / 100) ++ two_digits n)

pub escape_datetime : Datetime → Escaped
unfolding format_day format_clock format_microsecond
escape_datetime (naive timestamp) = itself timestamp
escape_datetime (aware d c microsecond) =
    if microsecond == 0
    then quoted (enclose (format_day d ++ (b' ' ∷ format_clock c)))
    else quoted (
        enclose
          (format_day d ++ (b' ' ∷ (format_clock c ++ (b'.' ∷ format_microsecond microsecond)))))

abbrev pub hex_digit : ℕ → ℕ
hex_digit n = if ltb n 10 then b'0' + n else b'a' + (n - 10)

-- A byte in `repr` of bytes that are enclosed in the mark.
pub repr_byte : ℕ → ℕ → Text
repr_byte mark c =
    if c == mark || c == backslash
    then backslash ∷ c ∷ []
    else if c == 9
    then backslash ∷ b't' ∷ []
    else if c == 10
    then backslash ∷ b'n' ∷ []
    else if c == 13
    then backslash ∷ b'r' ∷ []
    else if ltb c 32 || leb 127 c
    then backslash ∷ b'x' ∷ hex_digit (c / 16) ∷ hex_digit (c % 16) ∷ []
    else c ∷ []

pub repr_mark : List ℕ → ℕ
repr_mark bytes =
    if any (λ c. c == quote) bytes && not (any (λ c. c == double_quote) bytes)
    then double_quote
    else quote

-- str(item) of bytes, without its first two characters and its last: b2s[2:-1]
pub repr_inner : ℕ → List ℕ → Text
unfolding repr_byte
repr_inner mark bytes = flat_map (repr_byte mark) bytes

-- s.replace("'", "\\'")
pub escape_quotes : Text → Text
escape_quotes s = flat_map (λ c. if c == quote then backslash ∷ c ∷ [] else c ∷ []) s

-- b2s[1] is the mark.
pub escape_binary : List ℕ → Text
escape_binary bytes =
    let mark = repr_mark bytes in
    if mark == double_quote
    then enclose (escape_quotes (repr_inner mark bytes))
    else enclose (repr_inner mark bytes)

-- clickhouse_driver.util.escape: `escape_chars_map`, and `maybe_enquote_for_server` with its flag.
pub record Escapes : Type 0 where
  pub escape_chars_map : ℕ → Option Text
  pub maybe_enquote_for_server : Bool → Escaped → Escaped
  pub client_unchanged : (e : Escaped) → maybe_enquote_for_server false e ≡ e

abbrev pub get_or {ℓ} : {A : Type ℓ} → Option A → A → A
get_or none d = d
get_or (some a) d = a

module _ (E : Escapes) where
  open E use {escape_chars_map, maybe_enquote_for_server}

  -- "".join(escape_chars_map.get(c, c) for c in s)
  pub escape_chars : Text → Text
  escape_chars s = flat_map (λ c. get_or (escape_chars_map c) (c ∷ [])) s

  pub escape_str : Bool → Text → Escaped
  unfolding escape_chars
  escape_str for_server s =
      quoted (enclose (escape_chars (if for_server then escape_chars s else s)))

  -- `escape_item s false v` is the decorated `escape_param(v, for_server=s)`, and `escape_item s true v`
  -- is `escape_param(types.JSON(v), for_server=s)`, which calls it once more.
  abbrev enquote : Bool → Bool → Escaped → Escaped
  enquote s false e = maybe_enquote_for_server s e
  enquote s true e = maybe_enquote_for_server s (maybe_enquote_for_server s e)

mutual
  unfolding escape_str escape_datetime escape_binary format_day format_clock

  pub escape_item : Escapes → Bool → Bool → Value → Escaped
  escape_item E s j null = enquote E s j (quoted (codes "NULL"))
  escape_item E s j (datetime d) = enquote E s j (escape_datetime d)
  escape_item E s j (date d) = enquote E s j (quoted (enclose (format_day d)))
  escape_item E s j (time c) = enquote E s j (quoted (enclose (format_clock c)))
  escape_item E s j (str t) = enquote E s j (escape_str E s t)
  escape_item E s j (list xs) =
      enquote E s j (quoted (codes "[" ++ (join (codes ",") (escape_items E s j xs) ++ codes "]")))
  escape_item E s j (tuple xs) =
      enquote E s j
        (quoted (codes "tuple(" ++ (join (codes ",") (escape_items E s false xs) ++ codes ")")))
  escape_item E s false (dict d) =
      enquote E s false
        (quoted (codes "map(" ++ (join (codes ",") (escape_pairs E s d) ++ codes ")")))
  escape_item E s true (dict d) =
      enquote E s true
        (quoted (codes "tuple(" ++ (join (codes ",") (escape_json_values E s d) ++ codes ")")))
  escape_item E s j (enum v) = enquote E s j (escape_item E s false v)
  escape_item E s j (address t) = enquote E s j (quoted (enclose t))
  escape_item E s j (binary bytes) = enquote E s j (quoted (escape_binary bytes))
  escape_item E s false (json v) = escape_item E s true v
  escape_item E s true (json v) = enquote E s false (escape_item E s true v)
  escape_item E s j (other t) = enquote E s j (itself t)

  pub escape_items : Escapes → Bool → Bool → Values → List Text
  escape_items E s j end = []
  escape_items E s j (item v vs) = str_of (escape_item E s j v) ∷ escape_items E s j vs

  -- chain.from_iterable(item.items())
  pub escape_pairs : Escapes → Bool → Pairs → List Text
  escape_pairs E s done = []
  escape_pairs E s (pair k v ps) =
      str_of (escape_item E s false k) ∷ str_of (escape_item E s false v) ∷ escape_pairs E s ps

  -- types.JSON(v) for v in value.values()
  pub escape_json_values : Escapes → Bool → Pairs → List Text
  escape_json_values E s done = []
  escape_json_values E s (pair k v ps) = str_of (escape_item E s true v) ∷ escape_json_values E s ps

unfoldable pub escape_param : Escapes → Bool → Value → Escaped
escape_param E for_server v = escape_item E for_server false v

-- The parameters of a query: in order, or by name.
pub data Params (A : Type 0) : Type 0 where
  sequence : List A → Params A
  named : Dict Text A → Params A

unfoldable pub escape_params : Escapes → Bool → Params Value → Params Escaped
escape_params E for_server (sequence vs) = sequence (map (escape_param E for_server) vs)
escape_params E for_server (named d) = named (map (λ kv. (kv.0, escape_param E for_server kv.1)) d)
