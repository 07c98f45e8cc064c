-- ===== src/Models/Query/Kept.antt =====
-- Objects that stay as they are while queries are copied and changed.
use django_clickhouse_backen.Prelude.{
  ℕ, ◌<◌, ◌≤◌, ◌≡◌, refl, ◌∙◌, false, Option, none, some, ◌==◌, Text, arith,
}
use django_clickhouse_backen.Prelude.Dict.{Dict}
use django_clickhouse_backen.Models.Query.{
  Store, Class, query, update_or_delete, Query, copy_settings, clone_prewhere, clone_prewhere_of,
  clone, set_settings, add_prewhere, added,
}

-- A reference to an object made since
pub New : ℕ → Option ℕ → Type 0
New n none = Unit
New n (some r) = n ≤ r

New-weaker : (n m : ℕ) (o : Option ℕ) → n ≤ m → New m o → New n o
unfolding New
New-weaker n m none le h = tt
New-weaker n m (some r) le h = omega arith

module _ {V C : Type 0} where
  -- The objects that are there stay as they are.
  pub record Kept (s t : Store V C) : Type 0 where
    pub grows : s.next ≤ t.next
    pub same_settings : (r : ℕ) → r < s.next → t.settings_at r ≡ s.settings_at r
    pub same_conditions : (r : ℕ) → r < s.next → t.conditions_at r ≡ s.conditions_at r

  pub Kept-refl : (s : Store V C) → Kept s s
  Kept-refl s = record {
    grows = omega arith;
    same_settings = λ r h. refl;
    same_conditions = λ r h. refl;
  }

  pub Kept-trans : (s t u : Store V C) → Kept s t → Kept t u → Kept s u
  Kept-trans s t u h k = record {
    grows = omega arith;
    same_settings = λ r lt. k.same_settings r (omega arith) ∙ h.same_settings r lt;
    same_conditions = λ r lt. k.same_conditions r (omega arith) ∙ h.same_conditions r lt;
  }

  copy-Kept :
      (o : Option ℕ) (s : Store V C)
      → Kept s (copy_settings o s).1 × New s.next (copy_settings o s).0
  unfolding copy_settings New
  copy-Kept none s = (Kept-refl s, tt)
  copy-Kept (some r) s = (
    record {
      grows = omega arith;
      same_settings = λ m h. let other : (m == s.next) ≡ false = ground arith in rw other refl;
      same_conditions = λ m h. refl;
    },
    omega arith,
  )

  prewhere-Kept :
      (o : Option ℕ) (s : Store V C)
      → Kept s (clone_prewhere o s).1 × New s.next (clone_prewhere o s).0
  unfolding clone_prewhere New
  prewhere-Kept none s = (Kept-refl s, tt)
  prewhere-Kept (some r) s = (
    record {
      grows = omega arith;
      same_settings = λ m h. refl;
      same_conditions = λ m h. let other : (m == s.next) ≡ false = ground arith in rw other refl;
    },
    omega arith,
  )

  pub clone-Kept :
      (q : Query) (s : Store V C)
      → Kept s (clone q s).1
        × New s.next (clone q s).0.setting_info
        × (q.class_of ≡ query → New s.next (clone q s).0.prewhere)
  unfolding clone
  clone-Kept q s =
      let (k, n) = copy-Kept q.setting_info s in
      let s' = (copy_settings q.setting_info s).1 in
      let (k', n') = of_class q.class_of q.prewhere s' in
      (
        Kept-trans s s' (clone_prewhere_of q.class_of q.prewhere s').1 k k',
        n,
        λ c. New-weaker s.next s'.next _ k.grows (n' c),
      )
    where
      of_class :
          (c : Class) (o : Option ℕ) (t : Store V C)
          → Kept t (clone_prewhere_of c o t).1
            × (c ≡ query → New t.next (clone_prewhere_of c o t).0)
      of_class query o t = let (k, n) = prewhere-Kept o t in (k, λ e. n)
      of_class update_or_delete o t = (Kept-refl t, λ e. cc e)

  pub set-Kept :
      (c : Class) (o : Option ℕ) (given : Dict Text V) (s t : Store V C)
      → Kept s t
      → New s.next o
      → Kept s (set_settings c o given t)
  unfolding set_settings New
  set-Kept query (some r) given s t k n = record {
    grows = k.grows;
    same_settings =
        λ m h. let other : (m == r) ≡ false = ground arith in rw other (k.same_settings m h);
    same_conditions = k.same_conditions;
  }
  set-Kept query none given s t k n = k
  set-Kept update_or_delete o given s t k n = k

  add-Kept :
      (o : Option ℕ) (clause : Option C) (s t : Store V C)
      → Kept s t
      → New s.next o
      → Kept s (add_prewhere o clause t)
  unfolding add_prewhere New
  add-Kept none clause s t k n = k
  add-Kept (some r) none s t k n = k
  add-Kept (some r) (some c) s t k n = record {
    grows = k.grows;
    same_settings = k.same_settings;
    same_conditions =
        λ m h. let other : (m == r) ≡ false = ground arith in rw other (k.same_conditions m h);
  }

  pub added-Kept :
      (c : Class) (q : Query) (clause : Option C) (s t : Store V C)
      → Kept s t
      → (c ≡ query → New s.next q.prewhere)
      → Kept s (added c q clause t).1
  unfolding added
  added-Kept query q clause s t k n = add-Kept q.prewhere clause s t k (n refl)
  added-Kept update_or_delete q clause s t k n = k
