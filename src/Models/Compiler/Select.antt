-- ===== src/Models/Compiler/Select.antt =====
-- SQLCompiler.as_sql of clickhouse_backend/models/sql/compiler.py. What Django's compiler hands over
-- (compiled columns, conditions, the FROM clause) are the fields of a query. The counts of aliases,
-- which are put back at the end, are left out.
pub mod Rendered
pub mod Shown
pub mod Ending
pub mod Statement
mod Examples
use django_clickhouse_backen.Prelude.{
  Bool, true, false, not, ◌&&◌, ◌||◌, Option, none, some, List, [], ◌∷◌, ◌++◌, map, Text, codes,
  join, if◌then◌else◌,
}
use django_clickhouse_backen.Backend.Operations.{quote_name}
use django_clickhouse_backen.Models.Fragments.{Fragment, all_params}
use django_clickhouse_backen.Models.Compiler.{
  Exception, not_supported, not_implemented, empty_result_set, Outcome, done, raised, ◌>>=◌,
  is_empty, ExplainInfo, add_explain_sql, add_settings_sql,
}

-- What compiling a condition gives: SQL, nothing where there is no condition, or the exception for
-- a condition that no row meets or that every row meets.
pub data Clause (P : Type 0) : Type 0 where
  sql : Fragment P → Clause P
  absent empty_result full_result : Clause P

-- The flag says that an empty result is an exception here.
pub condition : {P : Type 0} → Bool → Clause P → Outcome (Fragment P)
condition elide (sql f) = done f
condition elide absent = done ([], [])
condition elide full_result = done ([], [])
condition elide empty_result = if elide then raised empty_result_set else done (codes "FALSE", [])

-- A selected column, with the SQL of its clone for a subquery.
pub record Column (P : Type 0) : Type 0 where
  pub column : Fragment P
  pub alias : Text
  pub relabeled : Fragment P

-- The lists `result`, which is never empty, and `params`.
pub record Draft (P : Type 0) : Type 0 where
  pub first : Text
  pub rest : List Text
  pub params : List P

pub record Body (P : Type 0) : Type 0 where
  pub distinct : Bool
  pub distinct_on : List (Fragment P)
  pub select : List (Column P)
  pub extra_select : List (Column P)
  pub from_clause : List Text
  pub from_params : List P
  pub prewhere : Clause P
  pub where_clause : Clause P
  pub having : Clause P
  pub group_by : List (Fragment P)
  pub meta_ordering : Bool

-- `dj3` and `dj_ge42` are the versions of Django. A combined query, or one that filters on windows,
-- has its SQL from Django. The text of limit_offset_sql is given where there is a limit.
pub record Query (P : Type 0) : Type 0 where
  pub dj3 : Bool
  pub dj_ge42 : Bool
  pub elide_empty : Bool
  pub prewhere_has_window : Bool
  pub prewhere_has_aggregate : Bool
  pub combinator_sql : Option (Draft P)
  pub qualify_sql : Option (Draft P)
  pub body : Body P
  pub order_by : List (Fragment P)
  pub limit_offset : Option Text
  pub subquery : Bool
  pub known_settings : List Text
  pub setting_info : List (Text × P)
  pub explain_info : Option ExplainInfo

-- The texts of a list, each after a space.
pub spaced : List Text → Text
spaced [] = []
spaced (t ∷ ts) = codes " " ++ (t ++ spaced ts)

module _ {P : Type 0} where
  -- " ".join(result)
  pub words : Draft P → Text
  unfolding spaced
  words d = d.first ++ spaced d.rest

  -- result += texts; params += values
  pub add : Draft P → List Text → List P → Draft P
  add d texts values = record d { rest = d.rest ++ texts; params = d.params ++ values }

  -- distinct_sql, with the fields of distinct() and their values.
  pub distinct_sql : List (Fragment P) → Fragment P
  unfolding all_params
  distinct_sql [] = (codes "DISTINCT", [])
  distinct_sql (f ∷ fs) = (
    codes "DISTINCT ON (" ++ (join (codes ", ") (map (λ g. g.0) (f ∷ fs)) ++ codes ")"),
    all_params (f ∷ fs),
  )

  pub add_distinct : Body P → Draft P → Draft P
  unfolding add distinct_sql
  add_distinct b d =
      let f = distinct_sql b.distinct_on in if b.distinct then add d (f.0 ∷ []) f.1 else d

  pub column_sql : Column P → Fragment P
  column_sql c =
      if is_empty c.alias
      then c.column
      else (c.column.0 ++ (codes " AS " ++ quote_name c.alias), c.column.1)

  pub add_columns : Body P → Draft P → Draft P
  unfolding add column_sql all_params
  add_columns b d =
      let columns = map column_sql (b.select ++ b.extra_select) in
      add d (join (codes ", ") (map (λ f. f.0) columns) ∷ []) (all_params columns)

  pub add_from : List Text → List P → Draft P → Draft P
  unfolding add
  add_from [] params d = add d [] params
  add_from (t ∷ ts) params d = add d (codes "FROM" ∷ t ∷ ts) params

  -- if f: result.append("WORD %s" % f); params.extend(...)
  pub add_clause : Text → Fragment P → Draft P → Draft P
  unfolding add
  add_clause word f d = if is_empty f.0 then d else add d ((word ++ f.0) ∷ []) f.1

  pub add_list : Text → List (Fragment P) → Draft P → Draft P
  unfolding add all_params
  add_list word [] d = d
  add_list word (f ∷ fs) d =
      add d ((word ++ join (codes ", ") (map (λ g. g.0) (f ∷ fs))) ∷ []) (all_params (f ∷ fs))

  -- A SELECT up to its ORDER BY, from the compiled conditions.
  pub select_sql : Body P → Fragment P → Fragment P → Fragment P → Draft P
  unfolding add_distinct add_columns add_from add_clause add_list
  select_sql b prewhere where_clause having =
      let d0 : Draft P = record { first = codes "SELECT"; rest = []; params = [] } in
      let d1 = add_from b.from_clause b.from_params (add_columns b (add_distinct b d0)) in
      let d2 =
        add_clause (codes "WHERE ") where_clause (add_clause (codes "PREWHERE ") prewhere d1) in
      add_clause (codes "HAVING ") having (add_list (codes "GROUP BY ") b.group_by d2)

  -- Grouped rows that are distinct on fields are refused. The flag says whether ORDER BY is kept.
  pub grouped : List (Fragment P) → List (Fragment P) → Bool → Draft P → Outcome (Draft P × Bool)
  grouped [] fields meta_ordering d = done (d, true)
  grouped (g ∷ gs) [] meta_ordering d = done (d, not meta_ordering)
  grouped (g ∷ gs) (f ∷ fs) meta_ordering d = raised not_implemented

  -- The result so far, and whether ORDER BY is kept.
  pub compile_body : Query P → Outcome (Draft P × Bool)
  unfolding select_sql condition grouped
  compile_body q =
      let b = q.body in
      condition (q.dj3 || q.elide_empty) b.where_clause >>= λ w. condition true b.having >>= λ h.
      condition (q.dj_ge42 && q.elide_empty) b.prewhere >>= λ p.
      grouped b.group_by b.distinct_on b.meta_ordering (select_sql b p w h)

  pub first_given :
      Option (Draft P) → Option (Draft P) → Outcome (Draft P × Bool) → Outcome (Draft P × Bool)
  first_given (some d) qualify body = done (d, true)
  first_given none (some d) body = done (d, false)
  first_given none none body = body

  pub compile_result : Query P → Outcome (Draft P × Bool)
  unfolding first_given compile_body
  compile_result q = first_given q.combinator_sql q.qualify_sql (compile_body q)

  -- pre_sql_setup: windows and aggregates are refused in PREWHERE.
  pub check_prewhere : Query P → Outcome (Unit {0})
  check_prewhere q =
      if (q.dj_ge42 && q.prewhere_has_window) || q.prewhere_has_aggregate
      then raised not_supported
      else done tt

  pub add_order_by : Bool → Query P → Draft P → Draft P
  unfolding add_list
  add_order_by keep q d = if keep then add_list (codes "ORDER BY ") q.order_by d else d

  pub add_limit : Option Text → Draft P → Draft P
  unfolding add
  add_limit none d = d
  add_limit (some t) d = add d (t ∷ []) []

  pub sub_select : Column P → Fragment P
  sub_select c =
      if is_empty c.alias
      then c.relabeled
      else (quote_name (codes "subquery") ++ (codes "." ++ quote_name c.alias), [])

  pub outer_select : List (Column P) → Draft P → Fragment P
  unfolding words sub_select all_params
  outer_select columns d =
      let subs = map sub_select columns in
      (
        codes "SELECT "
            ++ (join (codes ", ") (map (λ f. f.0) subs)
                ++ (codes " FROM (" ++ (words d ++ codes ") subquery"))),
        all_params subs ++ d.params,
      )

  -- A subquery with extra columns is wrapped into one that selects only its own.
  pub wrap : Bool → List (Column P) → List (Column P) → Draft P → Fragment P
  unfolding words outer_select
  wrap subquery columns [] d = (words d, d.params)
  wrap true columns (c ∷ cs) d = outer_select columns d
  wrap false columns (c ∷ cs) d = (words d, d.params)

  pub as_sql : Query P → Outcome (Fragment P)
  unfolding check_prewhere compile_result add_order_by add_limit wrap
  as_sql q = check_prewhere q >>= λ _. compile_result q >>= λ r.
      let d = add_limit q.limit_offset (add_order_by r.1 q r.0) in
      add_settings_sql q.known_settings q.setting_info
        (wrap q.subquery q.body.select q.body.extra_select d)
      >>= λ f. add_explain_sql q.explain_info f
