-- ===== src/Models/Compiler/Select/Examples.antt =====
-- A query with PREWHERE and settings.
use django_clickhouse_backen.Prelude.{
  ℕ, ◌+◌, ◌≡◌, refl, true, false, none, some, [], ◌∷◌, Text, codes, same, contains, join,
}
use django_clickhouse_backen.Backend.Operations.{quote_name, settings_sql}
use django_clickhouse_backen.Models.Fragments.{
  Fragment, Plain, fill, text, Renders, Whole, all_params,
}
use django_clickhouse_backen.Models.Compiler.{done, add_settings_sql, add_explain_sql}
use django_clickhouse_backen.Models.Compiler.Select.{
  sql, absent, Column, Body, Query, as_sql, compile_result, compile_body, select_sql, wrap,
  add_limit, add_order_by, spaced, sub_select,
}
use django_clickhouse_backen.Models.Compiler.Select.Rendered.{BodyWhole}
use django_clickhouse_backen.Models.Compiler.Select.Shown.{
  QueryWhole, ClauseWhole, PlainLimit, DraftWhole, shown, show_query,
}
use django_clickhouse_backen.Models.Compiler.Select.Statement.{as_sql-show_query}

abbrev put_digit : ℕ → Text
put_digit n = (48 + n) ∷ []

abbrev id_column : Column ℕ
id_column = record {
  column = (codes "\"id\"", []);
  alias = codes "key";
  relabeled = (codes "\"id\"", []);
}

abbrev body : Body ℕ
body = record {
  distinct = false;
  distinct_on = [];
  select = id_column ∷ [];
  extra_select = [];
  from_clause = codes "\"t\"" ∷ [];
  from_params = [];
  prewhere = sql (codes "\"day\" = %s", 3 ∷ []);
  where_clause = sql (codes "\"size\" > %s", 4 ∷ []);
  having = absent;
  group_by = [];
  meta_ordering = false;
}

abbrev query : Query ℕ
query = record {
  dj3 = false;
  dj_ge42 = true;
  elide_empty = true;
  prewhere_has_window = false;
  prewhere_has_aggregate = false;
  combinator_sql = none;
  qualify_sql = none;
  body = body;
  order_by = (codes "\"id\" DESC", []) ∷ [];
  limit_offset = some (codes "LIMIT 5");
  subquery = false;
  known_settings = codes "max_threads" ∷ [];
  setting_info = (codes "max_threads", 2) ∷ [];
  explain_info = none;
}

abbrev answer : Fragment ℕ
answer = (
  codes
      "SELECT \"id\" AS \"key\" FROM \"t\" PREWHERE \"day\" = %s WHERE \"size\" > %s ORDER BY \"id\" DESC LIMIT 5 SETTINGS max_threads=%s",
  3 ∷ 4 ∷ 2 ∷ [],
)

compiled : as_sql query ≡ done answer
unfolding as_sql add_settings_sql add_explain_sql settings_sql codes same contains join all_params
    compile_result compile_body select_sql wrap add_limit add_order_by quote_name spaced
compiled = refl

query-QueryWhole : QueryWhole put_digit query
unfolding QueryWhole BodyWhole ClauseWhole PlainLimit DraftWhole shown Plain fill text Renders Whole
    codes spaced sub_select quote_name
query-QueryWhole = (
  tt,
  tt,
  (tt, ((λ t qs. refl, refl), tt), (λ t qs. refl), tt),
  (λ t qs. refl),
  (λ t qs. refl),
  (λ t qs. refl),
  ((λ t qs. refl), tt),
  refl,
  ((λ t qs. refl), tt),
  (refl, tt),
)

as_sql-show_query_example : text put_digit answer ≡ show_query put_digit query
as_sql-show_query_example = as_sql-show_query put_digit query answer query-QueryWhole refl compiled
