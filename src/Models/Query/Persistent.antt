-- ===== src/Models/Query/Persistent.antt =====
-- Query sets are values: what is made of a query never changes it.
use django_clickhouse_backen.Prelude.{
  ℕ, ◌<◌, ◌≡◌, refl, ap, subst, ◌∙◌, Bool, true, false, [], ◌∷◌, Option, none, some, List, Text,
  if◌then◌else◌, if_cases, arith,
}
use django_clickhouse_backen.Prelude.Dict.{Dict, lookup, insert, lookup-insert, text_eq}
use django_clickhouse_backen.Models.Query.{
  Store, Class, query, update_or_delete, Query, update_settings, Answer, copy_settings,
  clone_prewhere, clone_prewhere_of, clone, set_settings, settings, prewhere,
}
use django_clickhouse_backen.Models.Query.Kept.{
  Kept, Kept-refl, Kept-trans, clone-Kept, set-Kept, added-Kept,
}

-- Each setting is given once, as Python's keyword arguments are.
unfoldable pub OnceEach : {V : Type 0} → Dict Text V → Type 0
OnceEach [] = Unit
OnceEach ((k, v) ∷ given) = (lookup k given ≡ none) × OnceEach given

-- A given setting is as given, each other one as before.
abbrev pub over : {V : Type 0} → Option V → Option V → Option V
over (some v) old = some v
over none old = old

pub Updated : {V : Type 0} → Dict Text V → Option (Dict Text V) → Option (Dict Text V) → Type 0
Updated given none new = new ≡ none
Updated {V} given (some old) new =
    (d : Dict Text V) × (new ≡ some d)
    × ((k : Text) → lookup k d ≡ over (lookup k given) (lookup k old))

over_first :
    {V : Type 0} (b : Bool) (v : V) (o p : Option V)
    → (b ≡ true → o ≡ none)
    → over o (if b then some v else p) ≡ over (if b then some v else o) p
over_first true v none p h = refl
over_first true v (some w) p h = cc (h refl)
over_first false v o p h = refl

update_settings-over :
    {V : Type 0} (given old : Dict Text V) (k : Text)
    → OnceEach given
    → lookup k (update_settings given old) ≡ over (lookup k given) (lookup k old)
unfolding OnceEach update_settings lookup
update_settings-over [] old k h = refl
update_settings-over ((j, v) ∷ given) old k (new, h) =
    update_settings-over given (insert j v old) k h
    ∙ (ap (over (lookup k given)) (lookup-insert j k v old)
        ∙ over_first (text_eq.beq j k) v (lookup k given) (lookup k old)
            (λ e. subst (λ i. lookup i given ≡ none) ((text_eq.beq_iff j k).0 e) new))

update-Updated :
    {V : Type 0} (given old : Dict Text V)
    → OnceEach given
    → Updated given (some old) (some (update_settings given old))
unfolding Updated
update-Updated given old h =
    (update_settings given old, refl, λ k. update_settings-over given old k h)

module _ {V C : Type 0} where
  -- What programs do with queries, of which there may be any number: a copy, new settings, new
  -- conditions, a new query
  pub data Step (s : Store V C) : Store V C → Type 0 where
    clones : (q : Query) → Step s (clone q s).1
    sets : (given : Dict Text V) (q : Query) → Step s (settings given q s).1
    adds : (given : Bool) (clause : Option C) (q : Query) → Step s (prewhere given clause q s).1

  pub data Reach (s : Store V C) : Store V C → Type 0 where
    here : Reach s s
    then_step : {t u : Store V C} → Reach s t → Step t u → Reach s u

  Step-Kept : {s t : Store V C} → Step s t → Kept s t
  unfolding settings prewhere
  Step-Kept {s} (clones q) = (clone-Kept q s).0
  Step-Kept {s} (sets given q) =
      let (k, n, m) = clone-Kept q s in
      set-Kept (clone q s).0.class_of (clone q s).0.setting_info given s (clone q s).1 k n
  Step-Kept {s} (adds given clause q) =
      if_cases (λ (r : Answer × Store V C). Kept s r.1) q.is_combined (λ e. Kept-refl s)
        (λ e.
          if_cases (λ (r : Answer × Store V C). Kept s r.1) (if given then q.is_sliced else false)
            (λ d. Kept-refl s)
            (λ d.
              let (k, n, m) = clone-Kept q s in
              added-Kept (clone q s).0.class_of (clone q s).0 clause s (clone q s).1 k m))

  Reach-Kept : {s t : Store V C} → Reach s t → Kept s t
  Reach-Kept {s} here = Kept-refl s
  Reach-Kept {s} {t} (then_step {t = m} r st) = Kept-trans s m t (Reach-Kept r) (Step-Kept st)

  -- The settings and the conditions of a query, as it finds them in the store
  unfoldable pub seen_settings : Option ℕ → Store V C → Option (Dict Text V)
  seen_settings none s = none
  seen_settings (some r) s = some (s.settings_at r)

  unfoldable pub seen_conditions : Option ℕ → Store V C → Option (List C)
  seen_conditions none s = none
  seen_conditions (some r) s = some (s.conditions_at r)

  abbrev pub Within : Option ℕ → Store V C → Type 0
  Within none s = Unit
  Within (some r) s = r < s.next

  settings_same :
      (o : Option ℕ) (s t : Store V C)
      → Kept s t
      → Within o s
      → seen_settings o t ≡ seen_settings o s
  unfolding seen_settings
  settings_same none s t k w = refl
  settings_same (some r) s t k w = ap some (k.same_settings r w)

  conditions_same :
      (o : Option ℕ) (s t : Store V C)
      → Kept s t
      → Within o s
      → seen_conditions o t ≡ seen_conditions o s
  unfolding seen_conditions
  conditions_same none s t k w = refl
  conditions_same (some r) s t k w = ap some (k.same_conditions r w)

  -- Whatever copies are made of any queries, and whatever settings and conditions these get, a query whose
  -- objects are in the store has the same settings and the same conditions as before.
  pub Reach-same :
      (q : Query) {s t : Store V C}
      → Within q.setting_info s
      → Within q.prewhere s
      → Reach s t
      → (seen_settings q.setting_info t ≡ seen_settings q.setting_info s)
        × (seen_conditions q.prewhere t ≡ seen_conditions q.prewhere s)
  Reach-same q {s} {t} w v r =
      let k = Reach-Kept r in
      (settings_same q.setting_info s t k w, conditions_same q.prewhere s t k v)

  set_lem :
      (o p : Option ℕ) (given : Dict Text V) (s : Store V C)
      → OnceEach given
      → Updated given (seen_settings o s) (
          seen_settings (copy_settings o s).0 (
            set_settings query
              (copy_settings o s).0
              given
              (clone_prewhere p (copy_settings o s).1).1))
  unfolding copy_settings clone_prewhere set_settings seen_settings Updated
  set_lem none p given s once = refl
  set_lem (some r) none given s once =
      subst (Updated given (some (s.settings_at r))) (ground arith)
        (update-Updated given (s.settings_at r) once)
  set_lem (some r) (some m) given s once =
      subst (Updated given (some (s.settings_at r))) (ground arith)
        (update-Updated given (s.settings_at r) once)

  conditions_lem :
      (o p : Option ℕ) (given : Dict Text V) (s : Store V C)
      → Within p s
      → seen_conditions (clone_prewhere p (copy_settings o s).1).0 (
          set_settings query (copy_settings o s).0 given (clone_prewhere p (copy_settings o s).1).1)
        ≡ seen_conditions p s
  unfolding copy_settings clone_prewhere set_settings seen_conditions
  conditions_lem none none given s w = refl
  conditions_lem none (some m) given s w = ground arith
  conditions_lem (some r) none given s w = refl
  conditions_lem (some r) (some m) given s w = ground arith

  by_class :
      (c : Class) (o p : Option ℕ) (given : Dict Text V) (s : Store V C)
      → c ≡ query
      → OnceEach given
      → Within p s
      → let t = (copy_settings o s).1 in
        let u = set_settings c (copy_settings o s).0 given (clone_prewhere_of c p t).1 in
        Updated given (seen_settings o s) (seen_settings (copy_settings o s).0 u)
        × (seen_conditions (clone_prewhere_of c p t).0 u ≡ seen_conditions p s)
  unfolding clone_prewhere_of
  by_class query o p given s c once w = (set_lem o p given s once, conditions_lem o p given s w)
  by_class update_or_delete o p given s c once w = absurd (cc c)

  -- The query that settings returns, for a query of clickhouse_backend whose conditions are in the
  -- store, where each setting is given once: each setting of it is the given one, or where none is
  -- given that of the query; and its conditions are those of the query.
  pub settings-Updated :
      (q : Query) (given : Dict Text V) (s : Store V C)
      → q.class_of ≡ query
      → OnceEach given
      → Within q.prewhere s
      → Updated given
          (seen_settings q.setting_info s)
          (seen_settings (settings given q s).0.setting_info (settings given q s).1)
        × (seen_conditions (settings given q s).0.prewhere (settings given q s).1
            ≡ seen_conditions q.prewhere s)
  unfolding settings
  settings-Updated q given s c once w =
      by_class q.class_of q.setting_info q.prewhere given s c once w
