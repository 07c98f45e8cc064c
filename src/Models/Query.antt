-- ===== src/Models/Query.antt =====
-- Queries and query sets: Query.clone, clone_decorator and add_prewhere of
-- clickhouse_backend/models/sql/query.py, and QuerySet.settings, prewhere and explain of
-- clickhouse_backend/models/query.py. The dictionaries of settings and the nodes of conditions are
-- objects, which queries refer to. Django's clone copies these references.
mod Kept
pub mod Persistent
mod Examples
use django_clickhouse_backen.Prelude.{
  ℕ, suc, ◌+◌, Bool, true, false, Option, none, some, List, [], ◌∷◌, ◌++◌, ◌==◌, Text,
  if◌then◌else◌,
}
use django_clickhouse_backen.Prelude.Dict.{Dict, insert, text_eq}

-- What the objects hold: settings by their names, and conditions joined by AND.
pub record Store (V C : Type 0) : Type 0 where
  pub settings_at : ℕ → Dict Text V
  pub conditions_at : ℕ → List C
  pub next : ℕ

-- sql.Query has both attributes, the queries of UPDATE and DELETE get setting_info from the query that
-- they are made of, if it has one.
pub data Class : Type 0 where
  query update_or_delete : Class

pub record Query : Type 0 where
  pub class_of : Class
  pub setting_info : Option ℕ
  pub prewhere : Option ℕ
  pub is_sliced : Bool
  pub is_combined : Bool

abbrev pub update_at : {A : Type 0} → (ℕ → A) → ℕ → A → ℕ → A
update_at f n a m = if m == n then a else f m

-- d.update(kwargs)
unfoldable pub update_settings : {V : Type 0} → Dict Text V → Dict Text V → Dict Text V
update_settings [] d = d
update_settings ((k, v) ∷ given) d = update_settings given (insert k v d)

pub data Raised : Type 0 where
  not_supported type_error attribute_error : Raised

pub data Answer : Type 0 where
  returned : Query → Answer
  raises : Raised → Answer

module _ {V C : Type 0} where
  -- self.setting_info.copy() as the attribute of the clone
  unfoldable pub copy_settings : Option ℕ → Store V C → Option ℕ × Store V C
  copy_settings none s = (none, s)
  copy_settings (some r) s = (
    some s.next,
    record s { settings_at = update_at s.settings_at s.next (s.settings_at r); next = suc s.next },
  )

  -- self.prewhere.clone()
  unfoldable pub clone_prewhere : Option ℕ → Store V C → Option ℕ × Store V C
  clone_prewhere none s = (none, s)
  clone_prewhere (some r) s = (
    some s.next,
    record s {
      conditions_at = update_at s.conditions_at s.next (s.conditions_at r);
      next = suc s.next;
    },
  )

  unfoldable pub clone_prewhere_of : Class → Option ℕ → Store V C → Option ℕ × Store V C
  unfolding clone_prewhere
  clone_prewhere_of query r s = clone_prewhere r s
  clone_prewhere_of update_or_delete r s = (r, s)

  unfoldable pub clone : Query → Store V C → Query × Store V C
  unfolding copy_settings clone_prewhere_of
  clone q s =
      let (settings, s') = copy_settings q.setting_info s in
      let (conditions, s'') = clone_prewhere_of q.class_of q.prewhere s' in
      (record q { setting_info = settings; prewhere = conditions }, s'')

  -- clone.query.setting_info.update(kwargs), for a sql.Query
  unfoldable pub set_settings : Class → Option ℕ → Dict Text V → Store V C → Store V C
  unfolding update_settings
  set_settings query (some r) given s = record s {
    settings_at = update_at s.settings_at r (update_settings given (s.settings_at r));
  }
  set_settings query none given s = s
  set_settings update_or_delete r given s = s

  unfoldable pub settings : Dict Text V → Query → Store V C → Query × Store V C
  unfolding clone set_settings
  settings given q s =
      let (q', s') = clone q s in (q', set_settings q'.class_of q'.setting_info given s')

  -- add_prewhere: self.prewhere.add(clause, AND) if the clause is not empty
  unfoldable pub add_prewhere : Option ℕ → Option C → Store V C → Store V C
  add_prewhere none clause s = s
  add_prewhere (some r) none s = s
  add_prewhere (some r) (some c) s = record s {
    conditions_at = update_at s.conditions_at r (s.conditions_at r ++ (c ∷ []));
  }

  -- clone._query.add_prewhere, which the queries of Django do not have
  unfoldable pub added : Class → Query → Option C → Store V C → Answer × Store V C
  unfolding add_prewhere
  added query q clause s = (returned q, add_prewhere q.prewhere clause s)
  added update_or_delete q clause s = (raises attribute_error, s)

  -- `given` is whether there are arguments, and the clause what Django makes of them.
  unfoldable pub prewhere : Bool → Option C → Query → Store V C → Answer × Store V C
  unfolding clone added
  prewhere given clause q s =
      if q.is_combined
      then (raises not_supported, s)
      else if (if given then q.is_sliced else false)
      then (raises type_error, s)
      else (let (q', s') = clone q s in added q'.class_of q' clause s')
