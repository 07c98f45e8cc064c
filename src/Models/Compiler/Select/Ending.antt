-- ===== src/Models/Compiler/Select/Ending.antt =====
-- The parts of a statement that follow its SELECT: ORDER BY, the limit, the wrapping and SETTINGS.
use django_clickhouse_backen.Prelude.{
  ◌≡◌, refl, sym, subst, ap, Bool, true, false, Option, none, some, List, [], ◌∷◌, ◌++◌, map,
  append-nil, Text, codes, join, All,
}
use django_clickhouse_backen.Backend.Operations.{settings_sql}
use django_clickhouse_backen.Backend.Operations.Explain.{placeholder, settings_sql-split}
use django_clickhouse_backen.Models.Fragments.{
  Fragment, Plain, text, Renders, Whole, Renders-append, Plain-Renders, Renders-between,
  Renders-before, join-Renders, all_params, Renders-text, Renders-Whole, hole-Renders,
}
use django_clickhouse_backen.Models.Compiler.{
  done, bind-done, done_inj, of_result-done, add_settings_sql, of_result,
}
use django_clickhouse_backen.Models.Compiler.Select.{
  Column, Draft, Query, words, add_order_by, add_limit, sub_select, outer_select, wrap,
}
use django_clickhouse_backen.Models.Compiler.Select.Rendered.{Says, push-Says, list-Says}
use django_clickhouse_backen.Models.Compiler.Select.Shown.{
  show_order, show_limit, show_outer, show_wrapped, show_setting, show_settings, PlainLimit,
}

module _ {P : Type 0} (put : P → Text) where
  pub order-Says :
      (keep : Bool) (q : Query P) (d : Draft P) (x : Text)
      → All (Whole put) q.order_by
      → Says put d x
      → Says put (add_order_by keep q d) (x ++ show_order put keep q.order_by)
  unfolding add_order_by show_order Plain codes
  order-Says true q d x w h = list-Says put (codes "ORDER BY ") q.order_by d x refl w h
  order-Says false q d x w h = subst (Says put d) (sym (append-nil x)) h

  pub limit-Says :
      (limit : Option Text) (d : Draft P) (x : Text)
      → PlainLimit put limit
      → Says put d x
      → Says put (add_limit limit d) (x ++ show_limit put limit)
  unfolding add_limit PlainLimit show_limit
  limit-Says none d x w h = subst (Says put d) (sym (append-nil x)) h
  limit-Says (some t) d x w h = push-Says put d t [] x t h (Plain-Renders put t w)

  outer-Renders :
      (columns : List (Column P)) (d : Draft P) (x : Text)
      → All (Whole put) (map sub_select columns)
      → Says put d x
      → Renders put (outer_select columns d).0 (outer_select columns d).1 (show_outer put columns x)
  unfolding outer_select show_outer Says Plain codes
  outer-Renders columns d x w h = Renders-before put (codes "SELECT ") _ _ _ refl (
      Renders-append put _ _ _ _ _ _ (join-Renders put (codes ", ") (map sub_select columns) refl w)
        (Renders-between put (codes " FROM (") (codes ") subquery") (words d) d.params x refl refl
          h))

  pub wrap-Renders :
      (subquery : Bool) (columns extra : List (Column P)) (d : Draft P) (x : Text)
      → All (Whole put) (map sub_select columns)
      → Says put d x
      → Renders put
          (wrap subquery columns extra d).0
          (wrap subquery columns extra d).1
          (show_wrapped put subquery columns extra x)
  unfolding wrap show_wrapped Says
  wrap-Renders subquery columns [] d x w h = h
  wrap-Renders true columns (c ∷ cs) d x w h = outer-Renders columns d x w h
  wrap-Renders false columns (c ∷ cs) d x w h = h

  -- The settings, with a placeholder for each value.
  setting_fragment : Text × P → Fragment P
  setting_fragment s = (s.0 ++ codes "=%s", s.1 ∷ [])

  settings_fragments :
      (settings : List (Text × P))
      → All (λ s. Plain s.0) settings
      → All (Whole put) (map setting_fragment settings)
        × (map (text put) (map setting_fragment settings) ≡ map (show_setting put) settings)
  unfolding setting_fragment show_setting Plain codes
  settings_fragments [] p = (tt, refl)
  settings_fragments ((name, value) ∷ settings) (p, ps) =
      let (v, e) = settings_fragments settings ps in
      let r = Renders-before put name (codes "=%s") (value ∷ []) (codes "=" ++ put value) p (
        Renders-before put (codes "=") (codes "%s") (value ∷ []) (put value) refl
          (hole-Renders put value)) in
      (
        (Renders-Whole put (setting_fragment (name, value)) _ r, v),
        cc (Renders-text put _ _ _ r, e),
      )

  settings_params :
      (settings : List (Text × P))
      → all_params (map setting_fragment settings) ≡ map (λ s. s.1) settings
  unfolding setting_fragment all_params
  settings_params [] = refl
  settings_params (s ∷ settings) = ap (λ ps. s.1 ∷ ps) (settings_params settings)

  settings_texts :
      (settings : List (Text × P))
      → map (λ f. f.0) (map setting_fragment settings) ≡ map placeholder settings
  unfolding setting_fragment
  settings_texts [] = refl
  settings_texts (s ∷ settings) = ap (λ ts. placeholder s ∷ ts) (settings_texts settings)

  clause-Renders :
      (settings : List (Text × P))
      → All (λ s. Plain s.0) settings
      → Renders put
          (codes "SETTINGS " ++ join (codes ", ") (map placeholder settings))
          (map (λ s. s.1) settings)
          (codes "SETTINGS " ++ join (codes ", ") (map (show_setting put) settings))
  unfolding Plain codes
  clause-Renders settings p =
      let (w, e) = settings_fragments settings p in
      let r =
        Renders-before put (codes "SETTINGS ") _ _ _ refl
          (join-Renders put (codes ", ") (map setting_fragment settings) refl w) in
      rw (sym (settings_texts settings), sym (settings_params settings), sym e) r

  pub settings-Renders :
      (known : List Text) (settings : List (Text × P)) (f g : Fragment P) (x : Text)
      → All (λ s. Plain s.0) settings
      → Renders put f.0 f.1 x
      → add_settings_sql known settings f ≡ done g
      → Renders put g.0 g.1 (x ++ show_settings put settings)
  unfolding add_settings_sql show_settings Plain codes
  settings-Renders known [] f g x p h e =
      subst (λ z. Renders put z.0 z.1 (x ++ [])) (done_inj f g e)
        (subst (Renders put f.0 f.1) (sym (append-nil x)) h)
  settings-Renders known (s ∷ settings) f g x p h e =
      let (r, er, eg) = bind-done (of_result (settings_sql known (s ∷ settings))) _ g e in
      let (_, es, ep) = settings_sql-split known (s ∷ settings) r.0 r.1 (of_result-done _ r er) in
      let clause = clause-Renders (s ∷ settings) p in
      let shown_settings =
        codes "SETTINGS " ++ join (codes ", ") (map (show_setting put) (s ∷ settings)) in
      let same =
        subst (λ z. Renders put z r.1 shown_settings) es
          (subst
            (λ ps.
              Renders put (codes "SETTINGS " ++ join (codes ", ") (map placeholder (s ∷ settings)))
                ps shown_settings)
            ep clause) in
      let whole =
        Renders-append put f.0 (codes " " ++ r.0) f.1 r.1 x (codes " " ++ shown_settings) h
          (Renders-before put (codes " ") r.0 r.1 shown_settings refl same) in
      subst (λ z. Renders put z.0 z.1 (x ++ (codes " " ++ shown_settings))) (done_inj _ g eg) whole
