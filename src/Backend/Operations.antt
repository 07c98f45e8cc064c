-- ===== src/Backend/Operations.antt =====
-- DatabaseOperations of clickhouse_backend/backend/operations.py: names, EXPLAIN, SETTINGS, lookups
-- and the statements that empty tables.
pub mod Ranges
pub mod Explain
pub mod Names
mod Examples
use django_clickhouse_backen.Prelude.{
  ℕ, ◌+◌, ◌-◌, Bool, true, false, not, ◌&&◌, ◌||◌, Option, none, some, List, [], ◌∷◌, ◌++◌, map,
  filter, Text, codes, same, contains, join, leb, ◌==◌, if◌then◌else◌,
}

abbrev pub explain_types : List Text
explain_types =
    codes "AST"
    ∷ codes "SYNTAX"
    ∷ codes "PLAN"
    ∷ codes "PIPELINE"
    ∷ codes "ESTIMATE"
    ∷ codes "TABLE OVERRIDE"
    ∷ []

abbrev pub explain_settings : List Text
explain_settings =
    codes "header" ∷ codes "description" ∷ codes "indexes" ∷ codes "actions" ∷ codes "json" ∷ []

abbrev pub supported_output_formats : List Text
supported_output_formats =
    codes "TSV"
    ∷ codes "TabSeparated"
    ∷ codes "TabSeparatedRaw"
    ∷ codes "TabSeparatedWithNames"
    ∷ codes "TabSeparatedWithNamesAndTypes"
    ∷ codes "TabSeparatedRawWithNames"
    ∷ codes "TabSeparatedRawWithNamesAndTypes"
    ∷ codes "Template"
    ∷ codes "CSV"
    ∷ codes "CSVWithNames"
    ∷ codes "CSVWithNamesAndTypes"
    ∷ codes "CustomSeparated"
    ∷ codes "CustomSeparatedWithNames"
    ∷ codes "CustomSeparatedWithNamesAndTypes"
    ∷ codes "SQLInsert"
    ∷ codes "Values"
    ∷ codes "Vertical"
    ∷ codes "JSON"
    ∷ codes "JSONStrings"
    ∷ codes "JSONColumns"
    ∷ codes "JSONColumnsWithMetadata"
    ∷ codes "JSONCompact"
    ∷ codes "JSONCompactStrings"
    ∷ codes "JSONCompactColumns"
    ∷ codes "JSONEachRow"
    ∷ codes "JSONEachRowWithProgress"
    ∷ codes "JSONStringsEachRow"
    ∷ codes "JSONStringsEachRowWithProgress"
    ∷ codes "JSONCompactEachRow"
    ∷ codes "JSONCompactEachRowWithNames"
    ∷ codes "JSONCompactEachRowWithNamesAndTypes"
    ∷ codes "JSONCompactStringsEachRow"
    ∷ codes "JSONCompactStringsEachRowWithNames"
    ∷ codes "JSONCompactStringsEachRowWithNamesAndTypes"
    ∷ codes "JSONObjectEachRow"
    ∷ codes "TSKV"
    ∷ codes "Pretty"
    ∷ codes "PrettyNoEscapes"
    ∷ codes "PrettyMonoBlock"
    ∷ codes "PrettyNoEscapesMonoBlock"
    ∷ codes "PrettyCompact"
    ∷ codes "PrettyCompactNoEscapes"
    ∷ codes "PrettyCompactMonoBlock"
    ∷ codes "PrettyCompactNoEscapesMonoBlock"
    ∷ codes "PrettySpace"
    ∷ codes "PrettySpaceNoEscapes"
    ∷ codes "PrettySpaceMonoBlock"
    ∷ codes "PrettySpaceNoEscapesMonoBlock"
    ∷ codes "Prometheus"
    ∷ codes "Protobuf"
    ∷ codes "ProtobufSingle"
    ∷ codes "Avro"
    ∷ codes "Parquet"
    ∷ codes "Arrow"
    ∷ codes "ArrowStream"
    ∷ codes "ORC"
    ∷ codes "RowBinary"
    ∷ codes "RowBinaryWithNames"
    ∷ codes "RowBinaryWithNamesAndTypes"
    ∷ codes "Native"
    ∷ codes "Null"
    ∷ codes "XML"
    ∷ codes "CapnProto"
    ∷ codes "RawBLOB"
    ∷ codes "MsgPack"
    ∷ []

-- str.upper, on ASCII; the names that it is compared with are ASCII.
pub upper : Text → Text
upper t = map (λ c. if leb b'a' c && leb c b'z' then c - 32 else c) t

pub data Error : Type 0 where
  unknown_format unknown_type : Text → Error
  unknown_settings : List Text → Error

pub data Result {ℓ} (A : Type ℓ) : Type ℓ where
  ok : A → Result A
  value_error : Error → Result A

-- The names that are not among those known.
unfoldable pub unknown {ℓ} : {A : Type ℓ} → List Text → List (Text × A) → List Text
unknown known [] = []
unknown known ((setting, value) ∷ settings) =
    let rest = unknown known settings in if contains setting known then rest else setting ∷ rest

pub explain_option : Text × Bool → Text
explain_option (setting, value) = setting ++ (if value then codes "=1" else codes "=0")

-- " %s" % ", ".join("%s=%s" % i for i in options.items()), if there are any
pub explain_options : List (Text × Bool) → Text
unfolding explain_option
explain_options [] = []
explain_options (o ∷ options) = codes " " ++ join (codes ", ") (map explain_option (o ∷ options))

-- An absent argument and an empty one are the same.
abbrev pub given : Option Text → Text
given none = []
given (some t) = t

-- FORMAT, once the format is known to be given.
pub explain_suffix : Text → Result Text
unfolding upper
explain_suffix [] = ok []
explain_suffix (c ∷ format) =
    if contains (upper (c ∷ format)) supported_output_formats
    then ok (codes "FORMAT " ++ upper (c ∷ format))
    else value_error (unknown_format (upper (c ∷ format)))

pub explain_type : Text → Result Text
unfolding upper
explain_type [] = ok []
explain_type (c ∷ type_name) =
    if contains (upper (c ∷ type_name)) explain_types
    then ok (codes " " ++ upper (c ∷ type_name))
    else value_error (unknown_type (upper (c ∷ type_name)))

-- The errors in the order in which they are raised: the format, the settings, the type.
pub explain_parts : Result Text → List Text → Result Text → Text → Result (Text × Text)
explain_parts (value_error x) names part options = value_error x
explain_parts (ok suffix) (s ∷ others) part options = value_error (unknown_settings (s ∷ others))
explain_parts (ok suffix) [] (value_error x) options = value_error x
explain_parts (ok suffix) [] (ok part) options = ok (codes "EXPLAIN" ++ (part ++ options), suffix)

-- The settings are taken by their truth value. The result is the prefix and the suffix.
unfoldable pub explain_query : Option Text → Option Text → List (Text × Bool) → Result (Text × Text)
unfolding explain_suffix explain_type unknown explain_options explain_parts
explain_query format type_name settings =
    explain_parts (explain_suffix (given format)) (unknown explain_settings settings)
      (explain_type (given type_name)) (explain_options settings)

-- settings_sql, for the names of the settings that the server has.
unfoldable pub settings_sql {ℓ} :
    {A : Type ℓ} → List Text → List (Text × A) → Result (Text × List A)
unfolding unknown
settings_sql known settings = elim (unknown known settings) [
  | s ∷ others ↦ value_error (unknown_settings (s ∷ others))
  | [] ↦ ok (
    codes "SETTINGS " ++ join (codes ", ") (map (λ s. s.0 ++ codes "=%s") settings),
    map (λ s. s.1) settings,
  )
]

abbrev pub double_quote : ℕ
double_quote = b'"'

-- name.endswith('"')
unfoldable pub ends_quoted : Text → Bool
ends_quoted [] = false
ends_quoted (c ∷ []) = c == double_quote
ends_quoted (c ∷ d ∷ t) = ends_quoted (d ∷ t)

unfoldable pub starts_quoted : Text → Bool
starts_quoted [] = false
starts_quoted (c ∷ t) = c == double_quote

unfoldable pub quote_name : Text → Text
unfolding ends_quoted starts_quoted
quote_name name =
    if starts_quoted name && ends_quoted name
    then name
    else double_quote ∷ (name ++ double_quote ∷ [])
