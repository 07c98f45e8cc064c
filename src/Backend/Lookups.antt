-- ===== src/Backend/Lookups.antt =====
-- The SQL of lookups and of functions on dates, clickhouse_backend/backend/operations.py. The
-- versions of Django from 4.1 on pass the parameters beside the SQL; only the SQL is modelled.
pub mod Shape
mod Examples
use django_clickhouse_backen.Prelude.{
  ℕ, Bool, true, false, not, ◌&&◌, ◌||◌, Option, none, some, List, [], ◌∷◌, ◌++◌, map, Text, codes,
  same, contains, leb, ◌-◌, ◌+◌, if◌then◌else◌,
}

-- The lookups whose left side is cast to text.
abbrev pub text_lookups : List Text
text_lookups =
    codes "iexact"
    ∷ codes "contains"
    ∷ codes "icontains"
    ∷ codes "startswith"
    ∷ codes "istartswith"
    ∷ codes "endswith"
    ∷ codes "iendswith"
    ∷ codes "regex"
    ∷ codes "iregex"
    ∷ []

-- The cast of a field to text, by its internal type.
pub text_cast : Text → Text
text_cast internal_type =
    if same internal_type (codes "IPAddressField") || same internal_type (codes "IPv4Field")
    then codes "IPv4NumToString(%s)"
    else if same internal_type (codes "IPv6Field")
    then codes "IPv6NumToString(%s)"
    else if same internal_type (codes "GenericIPAddressField")
    then codes "replaceRegexpOne(IPv6NumToString(%s), '^::ffff:', '')"
    else if contains internal_type
        (codes "EnumField" ∷ codes "Enum8Field" ∷ codes "Enum16Field" ∷ [])
    then codes "toString(%s)"
    else codes "CAST(%s, 'Nullable(String)')"

pub lookup_cast : Text → Text → Text
unfolding text_cast
lookup_cast lookup_type internal_type =
    let lookup =
      if contains lookup_type text_lookups then text_cast internal_type else codes "%s" in
    if same lookup_type (codes "iexact") then codes "UPPER(" ++ (lookup ++ codes ")") else lookup

pub regex_lookup : Text → Text
regex_lookup lookup_type =
    if same lookup_type (codes "regex")
    then codes "match(%s, %s)"
    else codes "match(%s, concat('(?i)', %s))"

-- str.capitalize, on ASCII
pub capitalize : Text → Text
capitalize [] = []
capitalize (c ∷ t) =
    (if leb b'a' c && leb c b'z' then c - 32 else c)
    ∷ map (λ d. if leb b'A' d && leb d b'Z' then d + 32 else d) t

-- f(sql)
abbrev pub call : Text → Text → Text
call f sql = f ++ (codes "(" ++ (sql ++ codes ")"))

pub date_extract_sql : Text → Text → Text
unfolding capitalize
date_extract_sql lookup_type sql =
    if same lookup_type (codes "iso_year")
    then call (codes "toISOYear") sql
    else if same lookup_type (codes "day")
    then call (codes "toDayOfMonth") sql
    else if same lookup_type (codes "week")
    then call (codes "toISOWeek") sql
    else if same lookup_type (codes "week_day")
    then codes "modulo(toDayOfWeek(" ++ (sql ++ codes "), 7) + 1")
    else if same lookup_type (codes "iso_week_day")
    then call (codes "toDayOfWeek") sql
    else call (codes "to" ++ capitalize lookup_type) sql

-- sql, 'tzname'
abbrev pub with_zone : Text → Text → Text
with_zone sql tzname = sql ++ (codes ", '" ++ (tzname ++ codes "'"))

-- `tzname or get_timezone()`, where the default is that of the settings.
abbrev pub zone : Text → Text → Text
zone default [] = default
zone default (c ∷ t) = c ∷ t

pub datetime_cast_date_sql : Text → Text → Text → Text
datetime_cast_date_sql default sql tzname =
    call (codes "toDate") (with_zone sql (zone default tzname))

pub date_trunc_sql : Text → Text → Text → Text → Text
unfolding datetime_cast_date_sql capitalize
date_trunc_sql default lookup_type sql tzname =
    let date = datetime_cast_date_sql default sql tzname in
    if same lookup_type (codes "day")
    then date
    else call (codes "toStartOf" ++ capitalize lookup_type) date

abbrev pub zone_or_none : Option Text → Text
zone_or_none none = codes "None"
zone_or_none (some t) = t

-- A zone that is not given is written by its str, None.
pub datetime_extract_sql : Text → Text → Option Text → Text
unfolding date_extract_sql
datetime_extract_sql lookup_type sql tzname =
    date_extract_sql lookup_type (call (codes "toTimeZone") (with_zone sql (zone_or_none tzname)))

pub datetime_trunc_sql : Text → Text → Text → Text
datetime_trunc_sql lookup_type sql [] =
    call (codes "date_trunc") (codes "'" ++ (lookup_type ++ (codes "', " ++ sql)))
datetime_trunc_sql lookup_type sql (c ∷ tzname) =
    call (codes "date_trunc")
      (codes "'" ++ (lookup_type ++ (codes "', " ++ with_zone sql (c ∷ tzname))))

-- The Nullable cast of the columns of a union, for a field that says whether it may be nullable
-- and whether it is, or a field of Django that does not say.
pub unification_cast_sql : Text → Option (Bool × Bool) → Text
unification_cast_sql db_type none = codes "%s::" ++ call (codes "Nullable") db_type
unification_cast_sql db_type (some (nullable_allowed, null)) =
    if nullable_allowed && not null
    then codes "%s::" ++ call (codes "Nullable") db_type
    else codes "%s::" ++ db_type
