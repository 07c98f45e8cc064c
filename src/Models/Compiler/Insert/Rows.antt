-- ===== src/Models/Compiler/Insert/Rows.antt =====
-- The text of an INSERT: what the client makes of it, and what it says with its values in place.
use django_clickhouse_backen.Prelude.{
  ◌≡◌, refl, sym, subst, ap, Bool, true, false, List, [], ◌∷◌, ◌++◌, map, length, ltb, any,
  any-append, All, Text, codes, join, arith, if_cases, ◌==◌,
}
use django_clickhouse_backen.Backend.Operations.{quote_name}
use django_clickhouse_backen.Backend.Operations.Names.{any-quote_name}
use django_clickhouse_backen.Driver.Client.{is_insert}
use django_clickhouse_backen.Driver.Client.Insert.{
  closed, closed-append, is_insert-closed, is_insert_at_end,
}
use django_clickhouse_backen.Models.Compiler.{Outcome, done, bind-done, done_inj}
use django_clickhouse_backen.Models.Compiler.Insert.{
  Field, Given, Insert, Params, rows, values, concat, has_expression, values_sql, insert_header,
  insert_settings, insert_fields, insert_values, value_rows, insert_sql,
  max_rows_insert_use_expression,
}

unfoldable pub OneLine : Text → Type 0
OneLine s = any (λ c. c == 10) s ≡ false

OneLine-append : (s t : Text) → OneLine s → OneLine t → OneLine (s ++ t)
unfolding OneLine
OneLine-append s t h k = ground (arith, any-append (λ c. c == 10) s t)

-- The names stand on one line.
columns-OneLine :
    (fields : List Field)
    → All (λ f. OneLine f.column) fields
    → OneLine (join (codes ", ") (map (λ f. quote_name f.column) fields))
unfolding OneLine join codes
columns-OneLine [] h = refl
columns-OneLine (f ∷ []) (h, _) = any-quote_name (λ c. c == 10) f.column refl h
columns-OneLine (f ∷ g ∷ fields) (h, hs) =
    OneLine-append (quote_name f.column)
      (codes ", " ++ join (codes ", ") (map (λ x. quote_name x.column) (g ∷ fields)))
      (any-quote_name (λ c. c == 10) f.column refl h)
      (OneLine-append (codes ", ") (join (codes ", ") (map (λ x. quote_name x.column) (g ∷ fields)))
        refl (columns-OneLine (g ∷ fields) hs))

bracketed : List Text → Text
bracketed row = codes "(" ++ (join (codes ", ") row ++ codes ")")

bracketed-closed : (row : List Text) → closed (bracketed row) ≡ true
unfolding bracketed codes closed
bracketed-closed row =
    closed-append (codes "(") (join (codes ", ") row ++ codes ")")
      (closed-append (join (codes ", ") row) (codes ")") refl)

brackets-closed :
    (row : List Text) (others : List (List Text))
    → closed (join (codes ", ") (map bracketed (row ∷ others))) ≡ true
unfolding join
brackets-closed row [] = bracketed-closed row
brackets-closed row (next ∷ others) =
    closed-append (bracketed row) _ (closed-append (codes ", ") _ (brackets-closed next others))

values_sql-closed :
    (placeholder_rows : List (List Text))
    → has_expression placeholder_rows ≡ true
    → closed (values_sql placeholder_rows) ≡ true
unfolding values_sql has_expression concat bracketed
values_sql-closed [] h = ground arith
values_sql-closed (row ∷ others) h = closed-append (codes "VALUES ") _ (brackets-closed row others)

-- The values are rows of data.
pub is_rows : {V : Type 0} → Params V → Bool
is_rows (rows rs) = true
is_rows (values vs) = false

no_settings :
    {V : Type 0}
    → (m : Text) (known : List Text) (settings : List (Text × V)) (set : List Text) → settings ≡ []
    → insert_settings m known settings ≡ done set
    → set ≡ []
unfolding insert_settings
no_settings m known [] set e h = done_inj set [] (sym h)
no_settings m known (s ∷ settings) set e h = ground arith

module _ {O V : Type 0} (given : Given O V) where
  after_statement : Text → List Field → Text
  after_statement table fields =
      quote_name table
      ++ (codes "(" ++ (join (codes ", ") (map (λ f. quote_name f.column) fields) ++ codes ")"))

  after_statement-OneLine :
      (table : Text) (fields : List Field)
      → OneLine table
      → All (λ f. OneLine f.column) fields
      → OneLine (after_statement table fields)
  unfolding after_statement OneLine codes
  after_statement-OneLine table fields ht hf =
      OneLine-append (quote_name table)
        (codes "(" ++ (join (codes ", ") (map (λ f. quote_name f.column) fields) ++ codes ")"))
        (any-quote_name (λ c. c == 10) table refl ht)
        (OneLine-append (codes "(")
          (join (codes ", ") (map (λ f. quote_name f.column) fields) ++ codes ")") refl
          (OneLine-append (join (codes ", ") (map (λ f. quote_name f.column) fields)) (codes ")")
            (columns-OneLine fields hf) refl))

  -- The client's view of a header with what follows it.
  header_at_end :
      (table : Text) (fields : List Field)
      → OneLine table
      → All (λ f. OneLine f.column) fields
      → is_insert (insert_header (codes "INSERT INTO") table fields ++ codes " VALUES") ≡ true
  unfolding insert_header OneLine after_statement codes
  header_at_end table fields ht hf =
      is_insert_at_end b' ' (after_statement table fields)
        (after_statement-OneLine table fields ht hf)

  header-closed :
      (header sql : Text) → closed sql ≡ true → is_insert (header ++ (codes " " ++ sql)) ≡ false
  header-closed header sql h =
      is_insert-closed (header ++ (codes " " ++ sql))
        (closed-append header (codes " " ++ sql) (closed-append (codes " ") sql h))

  insert_values-is_insert :
      (table : Text) (fields : List Field) (vs : List (List V)) (header : Text)
      → header ≡ insert_header (codes "INSERT INTO") table fields
      → OneLine table
      → All (λ f. OneLine f.column) fields
      → is_insert (header ++ (codes " " ++ (insert_values given fields vs).0))
        ≡ is_rows (insert_values given fields vs).1
  unfolding insert_values is_rows codes
  insert_values-is_insert table fields vs header e ht hf =
      let data_rows : is_insert (header ++ codes " VALUES") ≡ true =
        subst (λ z. is_insert (z ++ codes " VALUES") ≡ true) (sym e)
          (header_at_end table fields ht hf) in
      if_cases (λ (r : Text × Params V). is_insert (header ++ (codes " " ++ r.0)) ≡ is_rows r.1)
        (ltb max_rows_insert_use_expression (length vs)) (λ _. data_rows)
        (λ _.
          if_cases (λ (r : Text × Params V). is_insert (header ++ (codes " " ++ r.0)) ≡ is_rows r.1)
            (has_expression (given.assemble fields vs).0)
            (λ h.
              header-closed header (values_sql (given.assemble fields vs).0)
                (values_sql-closed (given.assemble fields vs).0 h))
            (λ _. data_rows))

  -- An INSERT without settings into a table whose names stand on one line is one that the client
  -- sends with data, if its values are rows of data, and else a statement that they are put into.
  pub insert_sql-is_insert :
      (q : Insert O V) (fields : List Field) (objs : List O) (sql : Text) (params : Params V)
      → q.statement ≡ codes "INSERT INTO"
      → q.setting_info ≡ []
      → OneLine q.table
      → All (λ f. OneLine f.column) (insert_fields given objs fields)
      → insert_sql given q fields objs ≡ done (sql, params)
      → is_insert sql ≡ is_rows params
  unfolding insert_sql join
  insert_sql-is_insert q fields objs sql params st none ht hf h =
      let kept = insert_fields given objs fields in
      let header = insert_header q.statement q.table kept in
      let vs = value_rows given kept objs in
      let (set, es, h1) =
        bind-done (insert_settings given.map_object q.known_settings q.setting_info) _ (sql, params)
          h in
      let e0 = no_settings given.map_object q.known_settings q.setting_info set none es in
      let sent = insert_values given kept vs in
      let made =
        done_inj (header ++ (codes " " ++ sent.0), sent.1) (sql, params)
          (subst
            (λ z.
              ◌≡◌ {A = Outcome (Text × Params V)}
                (done (join (codes " ") (header ∷ (z ++ (sent.0 ∷ []))), sent.1))
                (done (sql, params)))
            e0 h1) in
      subst (λ (r : Text × Params V). is_insert r.0 ≡ is_rows r.1) made
        (insert_values-is_insert q.table kept vs header (ap (λ z. insert_header z q.table kept) st)
          ht hf)
