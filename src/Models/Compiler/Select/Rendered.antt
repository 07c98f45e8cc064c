-- ===== src/Models/Compiler/Select/Rendered.antt =====
-- The SQL of a SELECT with its values put in, against a plain account of the statement.
use django_clickhouse_backen.Prelude.{
  ◌≡◌, refl, sym, subst, List, [], ◌∷◌, ◌++◌, map, append-nil, append_assoc, Text, codes, join, All,
  if◌then◌else◌, Bool-cases, inl, inr,
}
use django_clickhouse_backen.Backend.Operations.{quote_name}
use django_clickhouse_backen.Models.Fragments.{
  Fragment, Plain, fill, text, Renders, Whole, Renders-append, Plain-Renders, Renders-between,
  Renders-before, Renders-after, join-Renders, Whole-Renders, all_params, Renders-text,
  Renders-Whole, quote_name-Plain,
}
use django_clickhouse_backen.Models.Compiler.{is_empty}
use django_clickhouse_backen.Models.Compiler.Select.{
  Column, Draft, Body, spaced, words, add, distinct_sql, add_distinct, column_sql, add_columns,
  add_from, add_clause, add_list, select_sql,
}

spaced-append : (xs ys : List Text) → spaced (xs ++ ys) ≡ spaced xs ++ spaced ys
unfolding spaced
spaced-append [] ys = refl
spaced-append (x ∷ xs) ys = simp (spaced-append xs ys, append_assoc)

as_alias-Plain : (a : Text) → Plain a → Plain (codes " AS " ++ quote_name a)
unfolding Plain codes
as_alias-Plain a p = quote_name-Plain a p

module _ {P : Type 0} (put : P → Text) where
  -- What a draft says so far.
  unfoldable pub Says : Draft P → Text → Type 0
  Says d out = Renders put (words d) d.params out

  add-Says :
      (d : Draft P) (ts : List Text) (ps : List P) (x y : Text)
      → Says d x
      → Renders put (spaced ts) ps y
      → Says (add d ts ps) (x ++ y)
  unfolding Says words add
  add-Says d ts ps x y h k =
      let e : (d.first ++ spaced d.rest) ++ spaced ts ≡ d.first ++ spaced (d.rest ++ ts) =
        simp (spaced-append d.rest ts, append_assoc) in
      subst (λ z. Renders put z (d.params ++ ps) (x ++ y)) e
        (Renders-append put (words d) (spaced ts) d.params ps x y h k)

  one-Renders :
      (t : Text) (ps : List P) (x : Text)
      → Renders put t ps x
      → Renders put (spaced (t ∷ [])) ps (codes " " ++ x)
  unfolding spaced Plain codes
  one-Renders t ps x h =
      subst (λ z. Renders put (codes " " ++ z) ps (codes " " ++ x)) (sym (append-nil t))
        (Renders-before put (codes " ") t ps x refl h)

  -- One more text, with its values, after a space.
  pub push-Says :
      (d : Draft P) (t : Text) (ps : List P) (x y : Text)
      → Says d x
      → Renders put t ps y
      → Says (add d (t ∷ []) ps) (x ++ (codes " " ++ y))
  push-Says d t ps x y h k = add-Says d (t ∷ []) ps x (codes " " ++ y) h (one-Renders t ps y k)

  -- What the parts say. A word comes with its space.
  pub show_list : Text → List (Fragment P) → Text
  show_list word [] = []
  show_list word (f ∷ fs) = codes " " ++ (word ++ join (codes ", ") (map (text put) (f ∷ fs)))

  pub show_clause : Text → Fragment P → Text
  show_clause word f = if is_empty f.0 then [] else codes " " ++ (word ++ text put f)

  pub show_distinct : List (Fragment P) → Text
  show_distinct [] = codes "DISTINCT"
  show_distinct (f ∷ fs) =
      codes "DISTINCT ON (" ++ (join (codes ", ") (map (text put) (f ∷ fs)) ++ codes ")")

  pub show_column : Column P → Text
  show_column c =
      if is_empty c.alias
      then text put c.column
      else text put c.column ++ (codes " AS " ++ quote_name c.alias)

  pub list-Says :
      (word : Text) (fs : List (Fragment P)) (d : Draft P) (x : Text)
      → Plain word
      → All (Whole put) fs
      → Says d x
      → Says (add_list word fs d) (x ++ show_list word fs)
  unfolding add_list show_list Plain codes
  list-Says word [] d x p w h = subst (Says d) (sym (append-nil x)) h
  list-Says word (f ∷ fs) d x p w h =
      push-Says d (word ++ join (codes ", ") (map (λ g. g.0) (f ∷ fs))) (all_params (f ∷ fs)) x
        (word ++ join (codes ", ") (map (text put) (f ∷ fs))) h
        (Renders-before put word _ _ _ p (join-Renders put (codes ", ") (f ∷ fs) refl w))

  clause-Says :
      (word : Text) (f : Fragment P) (d : Draft P) (x : Text)
      → Plain word
      → Whole put f
      → Says d x
      → Says (add_clause word f d) (x ++ show_clause word f)
  unfolding add_clause show_clause
  clause-Says word ([], ps) d x p w h = subst (Says d) (sym (append-nil x)) h
  clause-Says word (c ∷ s, ps) d x p w h =
      push-Says d (word ++ (c ∷ s)) ps x (word ++ text put (c ∷ s, ps)) h (
        Renders-before put word (c ∷ s) ps (text put (c ∷ s, ps)) p
          (Whole-Renders put (c ∷ s, ps) w))

  distinct-Renders :
      (fs : List (Fragment P))
      → All (Whole put) fs
      → Renders put (distinct_sql fs).0 (distinct_sql fs).1 (show_distinct fs)
  unfolding distinct_sql show_distinct Plain codes
  distinct-Renders [] w = Plain-Renders put (codes "DISTINCT") refl
  distinct-Renders (f ∷ fs) w =
      Renders-between put (codes "DISTINCT ON (") (codes ")")
        (join (codes ", ") (map (λ g. g.0) (f ∷ fs))) (all_params (f ∷ fs))
        (join (codes ", ") (map (text put) (f ∷ fs))) refl refl
        (join-Renders put (codes ", ") (f ∷ fs) refl w)

  column-Renders :
      (c : Column P)
      → Whole put c.column
      → Plain c.alias
      → Renders put (column_sql c).0 (column_sql c).1 (show_column c)
  unfolding column_sql show_column
  column-Renders c w p = elim (Bool-cases (is_empty c.alias)) [
    | inl e ↦ rw e (Whole-Renders put c.column w)
    | inr e ↦ rw e (
        Renders-after put c.column.0 (codes " AS " ++ quote_name c.alias) c.column.1
          (text put c.column) (as_alias-Plain c.alias p) (Whole-Renders put c.column w))
  ]

  columns-Whole :
      (cs : List (Column P))
      → All (λ c. Whole put c.column × Plain c.alias) cs
      → All (Whole put) (map column_sql cs)
        × (map (text put) (map column_sql cs) ≡ map show_column cs)
  columns-Whole [] w = (tt, refl)
  columns-Whole (c ∷ cs) ((w, p), ws) =
      let (v, e) = columns-Whole cs ws in
      let r = column-Renders c w p in
      (
        (Renders-Whole put (column_sql c) (show_column c) r, v),
        cc (Renders-text put (column_sql c).0 (column_sql c).1 (show_column c) r, e),
      )

  pub show_from : List Text → List P → Text
  show_from [] ps = []
  show_from (t ∷ ts) ps = codes " FROM" ++ text put (spaced (t ∷ ts), ps)

  pub show_body : Body P → Fragment P → Fragment P → Fragment P → Text
  show_body b prewhere where_clause having =
      ((((((codes "SELECT" ++ (if b.distinct then codes " " ++ show_distinct b.distinct_on else []))
                ++ (codes " " ++ join (codes ", ") (map show_column (b.select ++ b.extra_select))))
              ++ show_from b.from_clause b.from_params)
            ++ show_clause (codes "PREWHERE ") prewhere)
          ++ show_clause (codes "WHERE ") where_clause)
        ++ show_list (codes "GROUP BY ") b.group_by)
      ++ show_clause (codes "HAVING ") having

  -- The parts that Django gives are whole.
  unfoldable pub BodyWhole : Body P → Type 0
  BodyWhole b =
      All (Whole put) b.distinct_on
      × All (λ c. Whole put c.column × Plain c.alias) (b.select ++ b.extra_select)
      × Whole put (spaced b.from_clause, b.from_params)
      × All (Whole put) b.group_by

  from-Says :
      (ts : List Text) (ps : List P) (d : Draft P) (x : Text)
      → Whole put (spaced ts, ps)
      → Says d x
      → Says (add_from ts ps d) (x ++ show_from ts ps)
  unfolding add_from show_from spaced Plain codes text fill
  from-Says [] ps d x w h = add-Says d [] ps x [] h (Whole-Renders put ([], ps) w)
  from-Says (t ∷ ts) ps d x w h =
      add-Says d (codes "FROM" ∷ t ∷ ts) ps x (codes " FROM" ++ text put (spaced (t ∷ ts), ps)) h (
        Renders-before put (codes " FROM") (spaced (t ∷ ts)) ps _ refl
          (Whole-Renders put (spaced (t ∷ ts), ps) w))

  distinct-Says :
      (b : Body P) (d : Draft P) (x : Text)
      → All (Whole put) b.distinct_on
      → Says d x
      → Says
          (add_distinct b d)
          (x ++ (if b.distinct then codes " " ++ show_distinct b.distinct_on else []))
  unfolding add_distinct
  distinct-Says b d x w h = elim (Bool-cases b.distinct) [
    | inl e ↦
        rw e (push-Says d _ _ x (show_distinct b.distinct_on) h (distinct-Renders b.distinct_on w))
    | inr e ↦ rw e (subst (Says d) (sym (append-nil x)) h)
  ]

  columns-Says :
      (b : Body P) (d : Draft P) (x : Text)
      → All (λ c. Whole put c.column × Plain c.alias) (b.select ++ b.extra_select)
      → Says d x
      → Says
          (add_columns b d)
          (x ++ (codes " " ++ join (codes ", ") (map show_column (b.select ++ b.extra_select))))
  unfolding add_columns Plain codes
  columns-Says b d x w h =
      let (v, e) = columns-Whole (b.select ++ b.extra_select) w in
      push-Says d _ _ x _ h (
        subst
          (λ shown.
            Renders put
              (join (codes ", ") (map (λ f. f.0) (map column_sql (b.select ++ b.extra_select))))
              (all_params (map column_sql (b.select ++ b.extra_select))) (join (codes ", ") shown))
          e (join-Renders put (codes ", ") (map column_sql (b.select ++ b.extra_select)) refl v))

  pub select_sql-Says :
      (b : Body P) (p w h : Fragment P)
      → BodyWhole b
      → Whole put p
      → Whole put w
      → Whole put h
      → Says (select_sql b p w h) (show_body b p w h)
  unfolding select_sql show_body BodyWhole Says words spaced Plain codes
  select_sql-Says b p w h (on, cs, fr, g) wp ww wh =
      let d0 : Draft P = record { first = codes "SELECT"; rest = []; params = [] } in
      let s1 = distinct-Says b d0 (codes "SELECT") on (Plain-Renders put (codes "SELECT") refl) in
      let s2 = columns-Says b _ _ cs s1 in
      let s3 = from-Says b.from_clause b.from_params _ _ fr s2 in
      let s4 = clause-Says (codes "PREWHERE ") p _ _ refl wp s3 in
      let s5 = clause-Says (codes "WHERE ") w _ _ refl ww s4 in
      let s6 = list-Says (codes "GROUP BY ") b.group_by _ _ refl g s5 in
      clause-Says (codes "HAVING ") h _ _ refl wh s6
