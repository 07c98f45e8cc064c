-- ===== src/Models/Compiler/Select/Statement.antt =====
-- SQLCompiler.as_sql writes the statement that show_query describes.
use django_clickhouse_backen.Prelude.{
  ◌≡◌, sym, subst, ap, Bool, true, false, ◌&&◌, ◌||◌, Option, none, some, List, [], ◌∷◌, ◌++◌, Text,
  arith,
}
use django_clickhouse_backen.Models.Fragments.{Fragment, text, Whole-Renders, Renders-text}
use django_clickhouse_backen.Models.Compiler.{
  done, Outcome, bind-done, done_inj, add_settings_sql, add_explain_sql, ExplainInfo,
}
use django_clickhouse_backen.Models.Compiler.Select.{
  Clause, sql, absent, empty_result, full_result, condition, Draft, Body, Query, words,
  add_order_by, grouped, compile_body, first_given, compile_result, check_prewhere, as_sql,
  select_sql,
}
use django_clickhouse_backen.Models.Compiler.Select.Rendered.{Says, select_sql-Says}
use django_clickhouse_backen.Models.Compiler.Select.Shown.{
  shown, keeps, show_order, show_select, show_draft, show_main, show_rows, show_query, ClauseWhole,
  DraftWhole, QueryWhole,
}
use django_clickhouse_backen.Models.Compiler.Select.Ending.{
  order-Says, limit-Says, wrap-Renders, settings-Renders,
}

pair_inj : {A B : Type 0} → (a c : A) (b d : B) → ◌≡◌ {A = A × B} (a, b) (c, d) → (a ≡ c) × (b ≡ d)
pair_inj a c b d h = (ap (λ p. p.0) h, ap (λ p. p.1) h)

module _ {P : Type 0} (put : P → Text) where
  condition-shown :
      (elide : Bool) (c : Clause P) (f : Fragment P) → condition elide c ≡ done f → f ≡ shown put c
  unfolding condition shown
  condition-shown elide (sql g) f h = ground arith
  condition-shown elide absent f h = ground arith
  condition-shown elide full_result f h = ground arith
  condition-shown true empty_result f h = ground arith
  condition-shown false empty_result f h = ground arith

  grouped-done :
      (gs fs : List (Fragment P)) (m : Bool) (d e : Draft P) (keep : Bool)
      → grouped gs fs m d ≡ done (e, keep)
      → (d ≡ e) × (keep ≡ keeps put gs m)
  unfolding grouped keeps
  grouped-done [] fs m d e keep h = (ground arith, ground arith)
  grouped-done (g ∷ gs) [] m d e keep h = (ground arith, ground arith)
  grouped-done (g ∷ gs) (f ∷ fs) m d e keep h = ground arith

  -- What compile_body answers is the SELECT of the shown put conditions.
  body-Says :
      (q : Query P) (d : Draft P) (keep : Bool)
      → QueryWhole put q
      → compile_body q ≡ done (d, keep)
      → Says put d (show_select put q.body)
        × (keep ≡ keeps put q.body.group_by q.body.meta_ordering)
  unfolding compile_body QueryWhole ClauseWhole show_select
  body-Says q d keep (_, _, bw, pw, ww, hw, _, _, _, _) h =
      let b = q.body in
      let (w, ew, h1) =
        bind-done (condition (q.dj3 || q.elide_empty) b.where_clause) _ (d, keep) h in
      let (hv, eh, h2) = bind-done (condition true b.having) _ (d, keep) h1 in
      let (p, ep, h3) =
        bind-done (condition (q.dj_ge42 && q.elide_empty) b.prewhere) _ (d, keep) h2 in
      let (e, k) =
        grouped-done b.group_by b.distinct_on b.meta_ordering (select_sql b p w hv) d keep h3 in
      let says =
        select_sql-Says put b (shown put b.prewhere) (shown put b.where_clause) (shown put b.having)
          bw pw ww hw in
      let same : select_sql b (shown put b.prewhere) (shown put b.where_clause) (shown put b.having)
          ≡ d =
        cc (
          e,
          condition-shown (q.dj3 || q.elide_empty) b.where_clause w ew,
          condition-shown true b.having hv eh,
          condition-shown (q.dj_ge42 && q.elide_empty) b.prewhere p ep,
        ) in
      (subst (λ z. Says put z (show_select put b)) same says, k)

  given-Says :
      (c u : Option (Draft P)) (b : Body P) (o : Outcome (Draft P × Bool)) (d : Draft P)
      (keep : Bool)
      → DraftWhole put c
      → DraftWhole put u
      → (o ≡ done (d, keep)
          → Says put d (show_select put b) × (keep ≡ keeps put b.group_by b.meta_ordering))
      → first_given c u o ≡ done (d, keep)
      → Says put d (show_main put c u b).0 × (keep ≡ (show_main put c u b).1)
  unfolding first_given show_main show_draft DraftWhole Says
  given-Says (some e) u b o d keep wc wu k h =
      let (p, q) = pair_inj e d true keep (done_inj _ _ h) in
      (subst (λ z. Says put z (text put (words e, e.params))) p (Whole-Renders put _ wc), sym q)
  given-Says none (some e) b o d keep wc wu k h =
      let (p, q) = pair_inj e d false keep (done_inj _ _ h) in
      (subst (λ z. Says put z (text put (words e, e.params))) p (Whole-Renders put _ wu), sym q)
  given-Says none none b o d keep wc wu k h = k h

  main-Says :
      (q : Query P) (d : Draft P) (keep : Bool)
      → QueryWhole put q
      → compile_result q ≡ done (d, keep)
      → Says put d (show_main put q.combinator_sql q.qualify_sql q.body).0
        × (keep ≡ (show_main put q.combinator_sql q.qualify_sql q.body).1)
  unfolding compile_result QueryWhole
  main-Says q d keep w h =
      given-Says q.combinator_sql q.qualify_sql q.body (compile_body q) d keep w.0 w.1
        (λ e. body-Says q d keep w e) h

  explain-none :
      (info : Option ExplainInfo) (g f : Fragment P)
      → info ≡ none
      → add_explain_sql info g ≡ done f
      → g ≡ f
  unfolding add_explain_sql
  explain-none none g f e h = done_inj g f h
  explain-none (some i) g f e h = ground arith

  -- With its values in place a query is the statement that show_query put writes.
  pub as_sql-show_query :
      (q : Query P) (f : Fragment P)
      → QueryWhole put q
      → q.explain_info ≡ none
      → as_sql q ≡ done f
      → text put f ≡ show_query put q
  unfolding as_sql show_query show_rows QueryWhole
  as_sql-show_query q f w x h =
      let (_, _, h1) = bind-done (check_prewhere q) _ f h in
      let (r, er, h2) = bind-done (compile_result q) _ f h1 in
      let (g, eg, h3) = bind-done (add_settings_sql q.known_settings q.setting_info _) _ f h2 in
      let main = main-Says q r.0 r.1 w er in
      let (_, _, _, _, _, _, ow, lw, sw, nw) = w in
      let kept = show_main put q.combinator_sql q.qualify_sql q.body in
      let ordered =
        subst (λ k. Says put (add_order_by k q r.0) (kept.0 ++ show_order put kept.1 q.order_by))
          (sym main.1) (order-Says put kept.1 q r.0 kept.0 ow main.0) in
      let rows = limit-Says put q.limit_offset (add_order_by r.1 q r.0) _ lw ordered in
      let wrapped = wrap-Renders put q.subquery q.body.select q.body.extra_select _ _ sw rows in
      let set = settings-Renders put q.known_settings q.setting_info _ g _ nw wrapped eg in
      subst (λ z. text put z ≡ show_query put q) (explain-none q.explain_info g f x h3)
        (Renders-text put g.0 g.1 _ set)
