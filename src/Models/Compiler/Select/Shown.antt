-- ===== src/Models/Compiler/Select/Shown.antt =====
-- What a query says: a plain account of the statement of SQLCompiler.as_sql with its values in place.
use django_clickhouse_backen.Prelude.{
  Bool, true, false, not, Option, none, some, List, [], ◌∷◌, ◌++◌, map, Text, codes, join, All,
  if◌then◌else◌,
}
use django_clickhouse_backen.Models.Fragments.{Fragment, Plain, text, Whole}
use django_clickhouse_backen.Models.Compiler.Select.{
  Clause, sql, absent, empty_result, full_result, Column, Draft, Body, Query, words, sub_select,
}
use django_clickhouse_backen.Models.Compiler.Select.Rendered.{show_list, show_body, BodyWhole}

module _ {P : Type 0} (put : P → Text) where
  -- A condition that no row meets is FALSE, one that every row meets is left out.
  unfoldable pub shown : Clause P → Fragment P
  shown (sql f) = f
  shown absent = ([], [])
  shown full_result = ([], [])
  shown empty_result = (codes "FALSE", [])

  -- ORDER BY is dropped where Meta.ordering gave it and the rows are grouped.
  unfoldable pub keeps : List (Fragment P) → Bool → Bool
  keeps [] meta_ordering = true
  keeps (g ∷ gs) meta_ordering = not meta_ordering

  unfoldable pub show_order : Bool → List (Fragment P) → Text
  show_order keep fs = if keep then show_list put (codes "ORDER BY ") fs else []

  unfoldable pub show_limit : Option Text → Text
  show_limit none = []
  show_limit (some t) = codes " " ++ t

  unfoldable pub show_select : Body P → Text
  show_select b = show_body put b (shown b.prewhere) (shown b.where_clause) (shown b.having)

  unfoldable pub show_draft : Draft P → Text
  show_draft d = text put (words d, d.params)

  -- A combined query and one that filters on windows come first; the latter has no ORDER BY here.
  unfoldable pub show_main : Option (Draft P) → Option (Draft P) → Body P → Text × Bool
  show_main (some d) qualify b = (show_draft d, true)
  show_main none (some d) b = (show_draft d, false)
  show_main none none b = (show_select b, keeps b.group_by b.meta_ordering)

  unfoldable pub show_rows : Query P → Text
  show_rows q =
      let main = show_main q.combinator_sql q.qualify_sql q.body in
      (main.0 ++ show_order main.1 q.order_by) ++ show_limit q.limit_offset

  unfoldable pub show_outer : List (Column P) → Text → Text
  show_outer columns rows =
      codes "SELECT "
      ++ (join (codes ", ") (map (text put) (map sub_select columns))
          ++ (codes " FROM (" ++ (rows ++ codes ") subquery")))

  unfoldable pub show_wrapped : Bool → List (Column P) → List (Column P) → Text → Text
  show_wrapped subquery columns [] rows = rows
  show_wrapped true columns (c ∷ cs) rows = show_outer columns rows
  show_wrapped false columns (c ∷ cs) rows = rows

  unfoldable pub show_setting : Text × P → Text
  show_setting s = s.0 ++ (codes "=" ++ put s.1)

  unfoldable pub show_settings : List (Text × P) → Text
  show_settings [] = []
  show_settings (s ∷ settings) =
      codes " SETTINGS " ++ join (codes ", ") (map show_setting (s ∷ settings))

  unfoldable pub show_query : Query P → Text
  show_query q =
      show_wrapped q.subquery q.body.select q.body.extra_select (show_rows q)
      ++ show_settings q.setting_info

  unfoldable pub ClauseWhole : Clause P → Type 0
  ClauseWhole c = Whole put (shown c)

  unfoldable pub PlainLimit : Option Text → Type 0
  PlainLimit none = Unit
  PlainLimit (some t) = Plain t

  unfoldable pub DraftWhole : Option (Draft P) → Type 0
  DraftWhole none = Unit
  DraftWhole (some d) = Whole put (words d, d.params)

  -- Every text that Django gives has a placeholder for each of its values, in order, and no other
  -- percent sign.
  unfoldable pub QueryWhole : Query P → Type 0
  QueryWhole q =
      DraftWhole q.combinator_sql
      × DraftWhole q.qualify_sql
      × BodyWhole put q.body
      × ClauseWhole q.body.prewhere
      × ClauseWhole q.body.where_clause
      × ClauseWhole q.body.having
      × All (Whole put) q.order_by
      × PlainLimit q.limit_offset
      × All (Whole put) (map sub_select q.body.select)
      × All (λ s. Plain s.0) q.setting_info
