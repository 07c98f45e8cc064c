-- ===== src/Models/Compiler/Update/Counted.antt =====
-- UPDATE and DELETE have a placeholder for each of their values, and which settings of values fail.
use django_clickhouse_backen.Prelude.{
  ℕ, zero, suc, ◌+◌, ◌≡◌, refl, subst, ◌∙◌, true, false, Option, none, some, [], ◌∷◌, ◌++◌, length,
  take, count, count-append, Text, codes, starts_with, arith,
}
use django_clickhouse_backen.Models.Fragments.{
  Fragment, percent, text, Plain, Renders-text, Renders-between, hole-Renders,
}
use django_clickhouse_backen.Models.Compiler.{done, done_inj}
use django_clickhouse_backen.Models.Compiler.Select.{Clause, sql, absent, empty_result, full_result}
use django_clickhouse_backen.Models.Compiler.Update.{
  replaced, without_table, Assigned, expression, instance_value, plain, or_true, compile_where,
  prepared_sql, assignment_sql,
}

starts_with-take :
    (s old : Text)
    → starts_with s old ≡ true
    → count percent old ≡ 0
    → count percent (take (length old) s) ≡ 0
unfolding starts_with
starts_with-take s [] h e = refl
starts_with-take [] (d ∷ old) h e = ground arith
starts_with-take (c ∷ s) (d ∷ old) h e = ground (arith, starts_with-take s old)

-- What is taken out has no percent sign.
replaced-count :
    (d : ℕ) (old : Text) (k : ℕ) (s : Text)
    → count percent (d ∷ old) ≡ 0
    → count percent (replaced (d ∷ old) k s) + count percent (take k s) ≡ count percent s
unfolding replaced starts_with
replaced-count d old zero [] e = refl
replaced-count d old (suc k) [] e = refl
replaced-count d old (suc k) (c ∷ s) e = ground (arith, replaced-count d old k s e)
replaced-count d old zero (c ∷ s) e = ground (
  arith,
  replaced-count d old (length old) s e,
  replaced-count d old zero s e,
  starts_with-take s old,
)

-- As many percent signs as values.
unfoldable pub Counted : {P : Type 0} → Fragment P → Type 0
Counted f = count percent f.0 ≡ length f.1

pub without_table-count :
    (table s : Text)
    → count percent table ≡ 0
    → count percent (without_table table s) ≡ count percent s
unfolding without_table codes
without_table-count [] s e = ground (arith, replaced-count b'.' [] zero s refl)
without_table-count (d ∷ table) s e =
    let e2 : count percent (d ∷ (table ++ codes ".")) ≡ 0 =
      ground (arith, count-append percent (d ∷ table) (codes "."), e) in
    ground (arith, replaced-count d (table ++ codes ".") zero s e2)

Plain-count : (s : Text) → Plain s → count percent s ≡ 0
unfolding Plain
Plain-count [] h = refl
Plain-count (c ∷ s) h = ground (arith, Plain-count s)

-- Text with one placeholder.
unfoldable pub OnePlace : Text → Type 0
OnePlace t = (a b : Text) × (t ≡ a ++ (codes "%s" ++ b)) × Plain a × Plain b

OnePlace-count : (t : Text) → OnePlace t → count percent t ≡ 1
unfolding OnePlace codes
OnePlace-count t (a, b, e, ha, hb) =
    rw e (
      count-append percent a (codes "%s" ++ b) ∙ ground (arith, Plain-count a ha, Plain-count b hb))

-- placeholder % sql has the percent signs of the SQL.
placed-count :
    (t s : Text) → OnePlace t → count percent (text (λ x. x) (t, s ∷ [])) ≡ count percent s
unfolding OnePlace
placed-count t s (a, b, e, ha, hb) =
    let shown =
      Renders-text (λ x. x) (a ++ (codes "%s" ++ b)) (s ∷ []) (a ++ (s ++ b))
        (Renders-between (λ x. x) a b (codes "%s") (s ∷ []) s ha hb (hole-Renders (λ x. x) s)) in
    rw (e, shown)
      (count-append percent a (s ++ b)
        ∙ ground (arith, count-append percent s b, Plain-count a ha, Plain-count b hb))

module _ {P : Type 0} where
  prepared-Counted :
      (name placeholder : Text) (v : Option P)
      → count percent name ≡ 0
      → OnePlace placeholder
      → Counted (prepared_sql name placeholder v)
  unfolding prepared_sql Counted codes
  prepared-Counted name placeholder none e p =
      count-append percent name (codes " = NULL") ∙ ground (arith, e)
  prepared-Counted name placeholder (some v) e p =
      count-append percent name (codes " = " ++ placeholder)
      ∙ ground (arith, e, OnePlace-count placeholder p)

  unfoldable pub AssignedCounted : Assigned P → Type 0
  AssignedCounted (expression aggregate window f) = Counted f
  AssignedCounted (instance_value relation v) = Unit
  AssignedCounted (plain v) = Unit

  pub assignment_sql-Counted :
      (name placeholder : Text) (v : Assigned P) (f : Fragment P)
      → count percent name ≡ 0
      → OnePlace placeholder
      → AssignedCounted v
      → assignment_sql name placeholder v ≡ done f
      → Counted f
  unfolding assignment_sql Counted AssignedCounted codes
  assignment_sql-Counted name placeholder (expression true window g) f e p c h = ground arith
  assignment_sql-Counted name placeholder (expression false true g) f e p c h = ground arith
  assignment_sql-Counted name placeholder (expression false false g) f e p c h =
      let formatted = text (λ (s : Text). s) (placeholder, g.0 ∷ []) in
      subst Counted (done_inj (name ++ (codes " = " ++ formatted), g.1) f h) (
        count-append percent name (codes " = " ++ formatted)
        ∙ ground (arith, e, c, placed-count placeholder g.0 p))
  assignment_sql-Counted name placeholder (instance_value true v) f e p c h =
      subst Counted (done_inj _ f h) (prepared-Counted name placeholder v e p)
  assignment_sql-Counted name placeholder (instance_value false v) f e p c h = ground arith
  assignment_sql-Counted name placeholder (plain v) f e p c h =
      subst Counted (done_inj _ f h) (prepared-Counted name placeholder v e p)

  pub or_true-Counted :
      (table : Text) (f : Fragment P)
      → count percent table ≡ 0
      → Counted f
      → Counted (or_true table f)
  unfolding or_true Counted codes
  or_true-Counted table ([], ps) e h = h
  or_true-Counted table (c ∷ s, ps) e h = without_table-count table (c ∷ s) e ∙ h

  unfoldable pub ClauseCounted : Clause P → Type 0
  ClauseCounted (sql f) = Counted f
  ClauseCounted absent = Unit
  ClauseCounted empty_result = Unit
  ClauseCounted full_result = Unit

  pub compile_where-Counted :
      (table : Text) (c : Clause P) (f : Fragment P)
      → count percent table ≡ 0
      → ClauseCounted c
      → compile_where table c ≡ done f
      → Counted f
  unfolding compile_where ClauseCounted Counted
  compile_where-Counted table (sql g) f e h k =
      subst Counted (done_inj (or_true table g) f k) (or_true-Counted table g e h)
  compile_where-Counted table absent f e h k =
      subst Counted (done_inj (or_true table ([], [])) f k) (or_true-Counted table ([], []) e refl)
  compile_where-Counted table full_result f e h k =
      subst Counted (done_inj (or_true table ([], [])) f k) (or_true-Counted table ([], []) e refl)
  compile_where-Counted table empty_result f e h k = ground arith
