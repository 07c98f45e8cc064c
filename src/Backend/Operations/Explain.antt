-- ===== src/Backend/Operations/Explain.antt =====
-- EXPLAIN and SETTINGS.
use django_clickhouse_backen.Prelude.{
  ℕ, ◌≡◌, refl, ap, sym, ◌∙◌, Bool, true, false, ◌&&◌, Option, some, List, [], ◌∷◌, ◌++◌, map, any,
  count, count-append, length, length-map, All, Text, codes, contains, same_iff, ◌⊎◌, join, leb,
  arith, Bool-cases, inl, inr,
}
use django_clickhouse_backen.Backend.Operations.{
  Result, ok, value_error, upper, unknown, given, explain_suffix, explain_type, explain_query,
  explain_options, explain_parts, explain_settings, settings_sql, supported_output_formats,
}

upper_again : (t : Text) → upper (upper t) ≡ upper t
unfolding upper
upper_again [] = refl
upper_again (c ∷ t) = ground (arith, upper_again t)

explain_suffix-upper : (t : Text) → explain_suffix (upper t) ≡ explain_suffix t
unfolding explain_suffix
explain_suffix-upper [] = refl
explain_suffix-upper (c ∷ t) = rw (upper_again (c ∷ t)) refl

explain_type-upper : (t : Text) → explain_type (upper t) ≡ explain_type t
unfolding explain_type
explain_type-upper [] = refl
explain_type-upper (c ∷ t) = rw (upper_again (c ∷ t)) refl

-- Whether the format and the type are written in small or capital letters makes no difference to
-- EXPLAIN, its errors included.
pub explain_query-upper :
    (format type_name : Text) (settings : List (Text × Bool))
    → explain_query (some (upper format)) (some (upper type_name)) settings
      ≡ explain_query (some format) (some type_name) settings
unfolding explain_query
explain_query-upper format type_name settings =
    let names = unknown explain_settings settings in
    let options = explain_options settings in
    ap (λ s. explain_parts s names (explain_type (upper type_name)) options)
      (explain_suffix-upper format)
    ∙ ap (λ p. explain_parts (explain_suffix format) names p options) (explain_type-upper type_name)

-- An ASCII small letter.
pub is_small : ℕ → Bool
is_small c = leb b'a' c && leb c b'z'

upper-capital : (t : Text) → any is_small (upper t) ≡ false
unfolding upper is_small
upper-capital [] = refl
upper-capital (c ∷ t) = ground (arith, upper-capital t)

explain_suffix-ok :
    (t suffix : Text)
    → explain_suffix t ≡ ok suffix
    → (suffix ≡ [])
      ⊎ ((contains (upper t) supported_output_formats ≡ true)
          × (suffix ≡ codes "FORMAT " ++ upper t))
unfolding explain_suffix
explain_suffix-ok [] suffix h = inl (ground arith)
explain_suffix-ok (c ∷ t) suffix h =
    elim (Bool-cases (contains (upper (c ∷ t)) supported_output_formats)) [
      | inl b ↦ inr (b, ground arith)
      | inr b ↦ inl (ground arith)
    ]

abbrev pub percent : ℕ
percent = b'%'

contains-count :
    (s : Text) (known : List Text)
    → All (λ k. count percent k ≡ 0) known
    → contains s known ≡ true
    → count percent s ≡ 0
unfolding contains
contains-count s [] a h = ground arith
contains-count s (k ∷ known) (e, a) h = ground (arith, same_iff s k, contains-count s known a)

unknown-split :
    {A : Type 0}
    → (known : List Text) (s : Text × A) (rest : List (Text × A)) → unknown known (s ∷ rest) ≡ []
    → (contains s.0 known ≡ true) × (unknown known rest ≡ [])
unfolding unknown
unknown-split known s rest h = (ground arith, ground arith)

abbrev pub placeholder : {A : Type 0} → Text × A → Text
placeholder s = s.0 ++ codes "=%s"

placeholder-count :
    {A : Type 0} → (s : Text × A) → count percent s.0 ≡ 0 → count percent (placeholder s) ≡ 1
unfolding codes
placeholder-count s h = ground (arith, count-append percent s.0 (codes "=%s"))

join-count :
    {A : Type 0}
    → (known : List Text) (settings : List (Text × A)) → All (λ s. count percent s ≡ 0) known
    → unknown known settings ≡ []
    → count percent (join (codes ", ") (map placeholder settings)) ≡ length settings
unfolding join codes
join-count known [] a h = refl
join-count known (s ∷ []) a h =
    let (c, _) = unknown-split known s [] h in placeholder-count s (contains-count s.0 known a c)
join-count known (s ∷ t ∷ rest) a h =
    let (c, r) = unknown-split known s (t ∷ rest) h in
    ground (
      arith,
      placeholder-count s (contains-count s.0 known a c),
      join-count known (t ∷ rest) a r,
      count-append percent (placeholder s)
          (codes ", " ++ join (codes ", ") (map placeholder (t ∷ rest))),
    )

explain_parts-suffix :
    (s : Result Text) (names : List Text) (part : Result Text) (options prefix suffix : Text)
    → explain_parts s names part options ≡ ok (prefix, suffix)
    → s ≡ ok suffix
unfolding explain_parts
explain_parts-suffix (value_error x) names part options prefix suffix h = ground arith
explain_parts-suffix (ok t) (n ∷ names) part options prefix suffix h = ground arith
explain_parts-suffix (ok t) [] (value_error x) options prefix suffix h = ground arith
explain_parts-suffix (ok t) [] (ok part) options prefix suffix h = ground arith

-- A format is only accepted by EXPLAIN if its name in capital letters is one of the supported
-- names, which is then the suffix, unless the format is empty; so a supported name that has a small
-- letter is refused however it is written.
pub explain_query-format :
    (format : Text) (type_name : Option Text) (settings : List (Text × Bool)) (prefix suffix : Text)
    → explain_query (some format) type_name settings ≡ ok (prefix, suffix)
    → (suffix ≡ [])
      ⊎ ((contains (upper format) supported_output_formats ≡ true)
          × (any is_small (upper format) ≡ false)
          × (suffix ≡ codes "FORMAT " ++ upper format))
unfolding explain_query
explain_query-format format type_name settings prefix suffix h =
    let e =
      explain_parts-suffix (explain_suffix format) (unknown explain_settings settings)
        (explain_type (given type_name)) (explain_options settings) prefix suffix h in
    elim (explain_suffix-ok format suffix e) [
      | inl empty ↦ inl empty
      | inr (c, q) ↦ inr (c, upper-capital format, q)
    ]

pub settings_sql-split :
    {A : Type 0}
    → (known : List Text) (settings : List (Text × A)) (sql : Text) (params : List A)
    → settings_sql known settings ≡ ok (sql, params)
    → (unknown known settings ≡ [])
      × (codes "SETTINGS " ++ join (codes ", ") (map placeholder settings) ≡ sql)
      × (map (λ s. s.1) settings ≡ params)
unfolding settings_sql
settings_sql-split known settings sql params h = (ground arith, ground arith, ground arith)

-- Where the names of the server's settings have no percent sign, the SETTINGS clause has as many
-- percent signs, each that of a placeholder, as there are parameters, and those are the values in
-- the order of the settings.
pub settings_sql-placeholders :
    {A : Type 0}
    → (known : List Text) (settings : List (Text × A)) (sql : Text) (params : List A)
    → All (λ k. count percent k ≡ 0) known
    → settings_sql known settings ≡ ok (sql, params)
    → (count percent sql ≡ length params) × (map (λ s. s.1) settings ≡ params)
unfolding codes
settings_sql-placeholders known settings sql params a h =
    let (u, e, p) = settings_sql-split known settings sql params h in
    let clause = join (codes ", ") (map placeholder settings) in
    let c : count percent (codes "SETTINGS " ++ clause) ≡ length settings =
      ground
        (arith, count-append percent (codes "SETTINGS ") clause, join-count known settings a u) in
    (ap (count percent) (sym e) ∙ c ∙ sym (length-map (λ s. s.1) settings) ∙ ap length p, p)
