-- ===== src/Inspectdb.antt =====
-- inspect_field_type of clickhouse_backend/management/commands/inspectdb.py: the source of a field from
-- the type of its column. isdigit and isalnum are those of ASCII. The decoding of names with bytes,
-- which the source hands to Python's eval, is the parameter `decoded`.
mod Source
mod Described
mod Scalars
pub mod Read
mod Examples
use django_clickhouse_backen.Prelude.{
  ℕ, zero, suc, Bool, true, false, ◌&&◌, ◌||◌, Option, none, some, List, [], ◌∷◌, ◌++◌, drop,
  length, filter, join, leb, ◌==◌, Text, codes, starts_with, if◌then◌else◌,
}

infixl 5 ◌>>=◌
abbrev pub ◌>>=◌ : {A B : Type 0} → Option A → (A → Option B) → Option B
none >>= next = none
some a >>= next = next a

unfoldable pub is_digit : ℕ → Bool
is_digit c = leb b'0' c && leb c b'9'

unfoldable pub is_alnum : ℕ → Bool
unfolding is_digit
is_alnum c = is_digit c || (leb b'a' c && leb c b'z') || (leb b'A' c && leb c b'Z')

-- while t[i].isdigit(): i += 1, where the end of the text raises IndexError
unfoldable pub digits : Text → Option (Text × Text)
unfolding is_digit
digits [] = none
digits (c ∷ t) =
    let rest = digits t in
    if is_digit c then (rest >>= λ (ds, r). some (c ∷ ds, r)) else some ([], c ∷ t)

-- while i < length and t[i].isalnum(): i += 1
unfoldable pub alnums : Text → Text × Text
unfolding is_alnum
alnums [] = ([], [])
alnums (c ∷ t) = let (ds, r) = alnums t in if is_alnum c then (c ∷ ds, r) else ([], c ∷ t)

-- What is behind the next quote and the character after it: t[i + 2:]
unfoldable pub after_quote : Text → Option Text
after_quote [] = none
after_quote (c ∷ t) = let rest = after_quote t in if c == b'\'' then some (drop 1 t) else rest

abbrev given : Text → Bool
given [] = false
given (c ∷ t) = true

-- ", ".join(filter(None, params))
unfoldable pub merge_params : List Text → Text
merge_params params = join (codes ", ") (filter given params)

-- if param: yield f", {param}"
unfoldable pub last_param : Text → Text
last_param [] = []
last_param (c ∷ p) = codes ", " ++ (c ∷ p)

-- The source that a call yields, and the rest of the type that it returns
abbrev pub Inspected : Type 0
Inspected = Option (Text × Text)

unfoldable pub declared : Text → Text → Text
declared class_name param =
    codes "models." ++ (class_name ++ (codes "Field(" ++ (param ++ codes ")")))

unfoldable pub fixed_string : Text → Text → Inspected
unfolding declared
fixed_string param t = do
  (max_bytes, r) ← digits t
  let param' = merge_params (param ∷ (codes "max_bytes=" ++ max_bytes) ∷ [])
  some (declared (codes "FixedString") param', drop 1 r)

unfoldable pub precise : Text → ℕ → Text
precise param p =
    if p == b'6' then param else merge_params (param ∷ (codes "precision=" ++ (p ∷ [])) ∷ [])

-- The text is that from the precision on.
unfoldable pub date_time64 : Text → Text → Inspected
unfolding declared precise is_digit
date_time64 param [] = none
date_time64 param (p ∷ []) = none
date_time64 param (p ∷ c ∷ r) =
    let result = declared (codes "DateTime64") (precise param p) in
    if is_digit p
    then if c == b','
      then (after_quote (drop 2 r) >>= λ rest. some (result, rest))
      else some (result, r)
    else none

-- The loop over the time zone, which returns in its first round
unfoldable pub skip_zone : Text → Text → Option Text
skip_zone t [] = none
skip_zone t (c ∷ r) = if c == b'\'' then some t else some (drop 2 r)

-- The text is that behind DateTime.
unfoldable pub date_time : Text → Text → Inspected
unfolding declared skip_zone
date_time param [] = some (declared (codes "DateTime") param, [])
date_time param (c ∷ r) =
    let result = declared (codes "DateTime") param in
    if c == b'('
    then (skip_zone (c ∷ r) (drop 1 r) >>= λ rest. some (result, rest))
    else some (result, c ∷ r)

unfoldable pub decimal : Text → Text → Inspected
unfolding declared
decimal param t = do
  (max_digits, r) ← digits t
  (decimal_places, r') ← digits (drop 2 r)
  let param' = merge_params (
      param
      ∷ (codes "max_digits=" ++ max_digits)
      ∷ (codes "decimal_places=" ++ decimal_places)
      ∷ [])
  some (declared (codes "Decimal") param', drop 1 r')

-- The loop over a name: whether it has a byte in hexadecimal, the name up to the closing quote, and what
-- is behind that.
unfoldable pub scan_name : Text → Option (Bool × Text × Text)
scan_name [] = none
scan_name (c ∷ []) = if c == b'\'' then some (false, [], []) else none
scan_name (c ∷ d ∷ t) =
    let escaped = scan_name t in
    let plain = scan_name (d ∷ t) in
    if c == b'\\'
    then (escaped >>= λ (has_bytes, body, r). some (has_bytes || d == b'x', c ∷ d ∷ body, r))
    else if c == b'\''
    then some (false, [], d ∷ t)
    else plain >>= λ (has_bytes, body, r). some (has_bytes, c ∷ body, r)

module _ (decoded : Text → Text) where
  unfoldable pub consume_enum_choice : Text → Option (Text × Text × Text)
  consume_enum_choice [] = none
  consume_enum_choice (quote ∷ s) = do
    (has_bytes, body, r) ← scan_name s
    let name = quote ∷ (body ++ codes "'")
    (value, rest) ← digits (drop 3 r)
    some (if has_bytes then decoded name else name, value, rest)

  unfoldable pub choice : Text → Text → Text
  choice name value = codes "(" ++ (value ++ (codes ", " ++ (name ++ codes ")")))

  -- while remain[0] != ")", with fuel for the rounds
  unfoldable pub more_choices : ℕ → Text → Option (List Text × Text)
  unfolding consume_enum_choice choice
  more_choices n [] = none
  more_choices zero (c ∷ r) = if c == b')' then some ([], c ∷ r) else none
  more_choices (suc n) (c ∷ r) =
      let rest = consume_enum_choice (drop 1 r) >>= λ (name, value, r').
      more_choices n r' >>= λ (cs, r''). some (choice name value ∷ cs, r'') in
      if c == b')' then some ([], c ∷ r) else rest

  -- The text is that behind Enum. Each round takes a character at least.
  unfoldable pub enum : Text → Text → Inspected
  unfolding declared consume_enum_choice choice more_choices
  enum param t = do
    (bits, r) ← digits t
    (name, value, remain) ← consume_enum_choice (drop 1 r)
    (choices, remain') ← more_choices (length t) remain
    let all_choices = join (codes ", ") (choice name value ∷ choices)
    let param' = merge_params (param ∷ (codes "choices=[" ++ (all_choices ++ codes "]")) ∷ [])
    some (declared (codes "Enum" ++ bits) param', drop 1 remain')

  unfoldable pub plain : Text → Text → Inspected
  unfolding declared
  plain param t = let (name, r) = alnums t in some (declared name param, r)

  -- One call, with the calls inside, and the loop over the items of a tuple, as parameters
  unfoldable pub inspect_step :
      (Text → Text → Inspected) → (Text → Inspected) → Text → Text → Inspected
  unfolding fixed_string date_time64 date_time decimal enum plain
  inspect_step self items t param =
      if starts_with t (codes "LowCardinality")
      then (do
        (out, remain) ← self (drop 15 t) (merge_params (param ∷ codes "low_cardinality=True" ∷ []))
        some (out, drop 1 remain))
      else if starts_with t (codes "Nullable")
      then (do
        (out, remain) ←
            self (drop 9 t) (merge_params (param ∷ codes "null=True" ∷ codes "blank=True" ∷ []))
        some (out, drop 1 remain))
      else if starts_with t (codes "FixedString")
      then fixed_string param (drop 12 t)
      else if starts_with t (codes "DateTime64")
      then date_time64 param (drop 11 t)
      else if starts_with t (codes "DateTime")
      then date_time param (drop 8 t)
      else if starts_with t (codes "Decimal")
      then decimal param (drop 8 t)
      else if starts_with t (codes "Enum")
      then enum param (drop 4 t)
      else if starts_with t (codes "Array")
      then (do
        (out, remain) ← self (drop 6 t) []
        some
            (codes "models.ArrayField(" ++ (out ++ (last_param param ++ codes ")")), drop 1 remain))
      else if starts_with t (codes "Tuple")
      then (do
        (out, remain) ← self (drop 6 t) []
        (outs, remain') ← items remain
        some (
          codes "models.TupleField(["
              ++ (out ++ (outs ++ (codes "]" ++ (last_param param ++ codes ")")))),
          drop 1 remain',
        ))
      else if starts_with t (codes "Map")
      then (do
        (key, remain) ← self (drop 4 t) []
        (value, remain') ← self (drop 2 remain) []
        some (
          codes "models.MapField("
              ++ (key ++ (codes ", " ++ (value ++ (last_param param ++ codes ")")))),
          drop 1 remain',
        ))
      else if starts_with t (codes "Object('json')")
      then some (declared (codes "JSON") param, drop 14 t)
      else plain param t

  -- while remain[0] == ","
  unfoldable pub items_step : (Text → Text → Inspected) → (Text → Inspected) → Text → Inspected
  items_step self items [] = none
  items_step self items (c ∷ r) =
      if c == b','
      then (do
        (out, remain) ← self (drop 1 r) []
        (outs, remain') ← items remain
        some (codes ", " ++ (out ++ outs), remain'))
      else some ([], c ∷ r)

  unfoldable mutual
    unfolding inspect_step items_step

    pub inspect_field_type : ℕ → Text → Text → Inspected
    inspect_field_type zero t param = none
    inspect_field_type (suc n) t param =
        inspect_step (inspect_field_type n) (inspect_items n) t param

    pub inspect_items : ℕ → Text → Inspected
    inspect_items zero t = none
    inspect_items (suc n) t = items_step (inspect_field_type n) (inspect_items n) t
