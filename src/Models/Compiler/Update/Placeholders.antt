-- ===== src/Models/Compiler/Update/Placeholders.antt =====
-- The statements of UPDATE and DELETE have a placeholder for each of their values.
use django_clickhouse_backen.Prelude.{
  ℕ, ◌+◌, ◌≡◌, refl, subst, ◌∙◌, Option, none, some, List, [], ◌∷◌, ◌++◌, length, length-append,
  count, count-append, Text, codes, join, All, arith,
}
use django_clickhouse_backen.Backend.Operations.{settings_sql}
use django_clickhouse_backen.Backend.Operations.Explain.{settings_sql-placeholders}
use django_clickhouse_backen.Models.Fragments.{Fragment, percent}
use django_clickhouse_backen.Models.Compiler.{
  done, bind-done, done_inj, add_settings_sql, of_result, of_result-done,
}
use django_clickhouse_backen.Models.Compiler.Update.{
  without_table, Assignment, Target, Distributed, compile_where, assignment_sql, assignments_sql,
  alter_table, delete_as_sql, update_sql, update_as_sql,
}
use django_clickhouse_backen.Models.Compiler.Update.Counted.{
  Counted, OnePlace, AssignedCounted, ClauseCounted, assignment_sql-Counted, compile_where-Counted,
  without_table-count,
}

percents : List Text → ℕ
percents [] = 0
percents (t ∷ ts) = count percent t + percents ts

join-percents : (ts : List Text) → count percent (join (codes ", ") ts) ≡ percents ts
unfolding percents join codes
join-percents [] = refl
join-percents (t ∷ []) = ground arith
join-percents (t ∷ u ∷ ts) =
    count-append percent t (codes ", " ++ join (codes ", ") (u ∷ ts))
    ∙ ground (arith, join-percents (u ∷ ts))

module _ (qn : Text → Text) where
  unfoldable pub EngineCounted : Option Distributed → Type 0
  EngineCounted none = Unit
  EngineCounted (some d) = (count percent (qn d.table) ≡ 0) × (count percent (qn d.cluster) ≡ 0)

  alter_table-count :
      (base_table : Text) (engine : Option Distributed)
      → count percent (qn base_table) ≡ 0
      → EngineCounted engine
      → count percent (alter_table qn base_table engine) ≡ 0
  unfolding alter_table EngineCounted codes
  alter_table-count base_table none h e = ground (arith, h)
  alter_table-count base_table (some d) h (t, c) =
      ground (arith, count-append percent (qn d.table) (codes " ON CLUSTER " ++ qn d.cluster), t, c)

module _ {P : Type 0} (qn : Text → Text) where
  unfoldable pub AssignmentCounted : Assignment P → Type 0
  AssignmentCounted a =
      (count percent (qn a.column) ≡ 0) × OnePlace a.placeholder × AssignedCounted a.value

  assignments_sql-percents :
      (assignments : List (Assignment P)) (r : List Text × List P)
      → All AssignmentCounted assignments
      → assignments_sql qn assignments ≡ done r
      → percents r.0 ≡ length r.1
  unfolding assignments_sql percents AssignmentCounted Counted
  assignments_sql-percents [] r w h =
      subst (λ (z : List Text × List P). percents z.0 ≡ length z.1) (done_inj ([], []) r h) refl
  assignments_sql-percents (a ∷ others) r ((n, p, c), w) h =
      let (f, ef, h1) = bind-done (assignment_sql (qn a.column) a.placeholder a.value) _ r h in
      let (rest, er, h2) = bind-done (assignments_sql qn others) _ r h1 in
      subst (λ (z : List Text × List P). percents z.0 ≡ length z.1)
        (done_inj (f.0 ∷ rest.0, f.1 ++ rest.1) r h2)
        (ground (
          arith,
          length-append f.1 rest.1,
          assignments_sql-percents others rest w er,
          assignment_sql-Counted (qn a.column) a.placeholder a.value f n p c ef,
        ))

  -- The names of a target have no percent sign, and its condition has as many as values.
  unfoldable pub TargetCounted : Target P → Type 0
  TargetCounted q =
      (count percent (qn q.base_table) ≡ 0)
      × EngineCounted qn q.engine
      × ClauseCounted q.where_clause
      × All (λ k. count percent k ≡ 0) q.known_settings

  add_settings_sql-Counted :
      (known : List Text) (settings : List (Text × P)) (f g : Fragment P)
      → All (λ k. count percent k ≡ 0) known
      → Counted f
      → add_settings_sql known settings f ≡ done g
      → Counted g
  unfolding add_settings_sql Counted codes
  add_settings_sql-Counted known [] f g w c h = subst Counted (done_inj f g h) c
  add_settings_sql-Counted known (s ∷ settings) f g w c h =
      let (r, er, h1) = bind-done (of_result (settings_sql known (s ∷ settings))) _ g h in
      let (n, p) =
        settings_sql-placeholders known (s ∷ settings) r.0 r.1 w (of_result-done _ r er) in
      subst Counted (done_inj (f.0 ++ (codes " " ++ r.0), f.1 ++ r.1) g h1)
        (count-append percent f.0 (codes " " ++ r.0) ∙ ground (arith, length-append f.1 r.1, n, c))

  -- So has DELETE.
  pub delete_as_sql-Counted :
      (q : Target P) (f : Fragment P)
      → TargetCounted q
      → delete_as_sql qn q ≡ done f
      → count percent f.0 ≡ length f.1
  unfolding delete_as_sql Counted codes TargetCounted
  delete_as_sql-Counted q f (t, e, c, k) h =
      let start = alter_table qn q.base_table q.engine in
      let (w, ew, h1) = bind-done (compile_where (qn q.base_table) q.where_clause) _ f h in
      add_settings_sql-Counted q.known_settings q.setting_info
        (start ++ (codes " DELETE WHERE " ++ w.0), w.1) f k
        (count-append percent start (codes " DELETE WHERE " ++ w.0)
          ∙ ground (
            arith,
            alter_table-count qn q.base_table q.engine t e,
            compile_where-Counted (qn q.base_table) q.where_clause w t c ew,
          ))
        h1

  update_sql-Counted :
      (q : Target P) (values : List Text) (params : List P) (f : Fragment P)
      → TargetCounted q
      → percents values ≡ length params
      → update_sql qn q values params ≡ done f
      → Counted f
  unfolding update_sql Counted join codes TargetCounted
  update_sql-Counted q values params f (t, e, c, k) v h =
      let start = alter_table qn q.base_table q.engine in
      let set = without_table (qn q.base_table) (join (codes ", ") values) in
      let (w, ew, h1) = bind-done (compile_where (qn q.base_table) q.where_clause) _ f h in
      add_settings_sql-Counted q.known_settings q.setting_info _ f k
        (count-append percent (start ++ codes " UPDATE")
            (codes " " ++ (set ++ (codes " " ++ (codes "WHERE " ++ w.0))))
          ∙ ground (
            arith,
            count-append percent start (codes " UPDATE"),
            count-append percent set (codes " " ++ (codes "WHERE " ++ w.0)),
            alter_table-count qn q.base_table q.engine t e,
            join-percents values,
            without_table-count (qn q.base_table) (join (codes ", ") values) t,
            length-append params w.1,
            compile_where-Counted (qn q.base_table) q.where_clause w t c ew,
          ))
        h1

  -- UPDATE has one placeholder and no other percent sign for each of its values, which are those of
  -- the columns before those of the condition and of the settings.
  pub update_as_sql-Counted :
      (q : Target P) (assignments : List (Assignment P)) (f : Fragment P)
      → TargetCounted q
      → All AssignmentCounted assignments
      → update_as_sql qn q assignments ≡ done f
      → count percent f.0 ≡ length f.1
  unfolding update_as_sql Counted
  update_as_sql-Counted q [] f w v h = subst Counted (done_inj ([], []) f h) refl
  update_as_sql-Counted q (a ∷ assignments) f w v h =
      let (r, er, h1) = bind-done (assignments_sql qn (a ∷ assignments)) _ f h in
      update_sql-Counted q r.0 r.1 f w (assignments_sql-percents (a ∷ assignments) r v er) h1
