-- ===== src/Models/Compiler/Insert/Fields.antt =====
-- No value that an object gives is left out of an INSERT.
use mathlib.Core.List.{Memᴰ}
use mathlib.Core.List.Memᴰ
use django_clickhouse_backen.Prelude.{
  ◌≡◌, ◌≢◌, ◌≤◌, ◌⊎◌, inl, inr, refl, subst, Bool, true, not, List, [], ◌∷◌, ◌++◌, all, any, filter,
  length, ltb, arith, if_cases, Bool-cases,
}
use django_clickhouse_backen.Models.Compiler.Insert.{
  Field, Given, or_first, given_fields, insert_fields, max_rows_insert_use_expression,
}

module _ {A : Type 0} where
  mem-filter : (p : A → Bool) (x : A) (xs : List A) → Memᴰ x xs → p x ≡ true → Memᴰ x (filter p xs)
  mem-filter p x [] m h = elim m [ ]
  mem-filter p x (y ∷ ys) (Memᴰ.head e) h = rw (subst (λ z. p z ≡ true) e h) (Memᴰ.head e)
  mem-filter p x (y ∷ ys) (Memᴰ.tail m) h =
      if_cases (Memᴰ x) (p y) (λ _. Memᴰ.tail (mem-filter p x ys m h)) (λ _. mem-filter p x ys m h)

  any-filter : (p : A → Bool) (xs : List A) → any p xs ≡ true → filter p xs ≢ []
  any-filter p [] h e = ground arith
  any-filter p (x ∷ xs) h e = ground (arith, any-filter p xs)

  mem-some : (x : A) (xs : List A) → Memᴰ x xs → xs ≢ []
  mem-some x [] m e = elim m [ ]
  mem-some x (y ∷ ys) m e = ground arith

mem-or_first : (f : Field) (gs fs : List Field) → Memᴰ f gs → Memᴰ f (or_first gs fs)
unfolding or_first
mem-or_first f [] fs m = elim m [ ]
mem-or_first f (g ∷ gs) fs m = m

or_first-some : (gs fs : List Field) → fs ≢ [] → or_first gs fs ≢ []
unfolding or_first
or_first-some [] [] h e = h refl
or_first-some [] (f ∷ fs) h e = ground arith
or_first-some (g ∷ gs) fs h e = ground arith

module _ {O V : Type 0} (given : Given O V) where
  -- Every object leaves the field to the database.
  pub LeftOut : List O → Field → Type 0
  LeftOut objs f =
      (f.has_db_default ≡ true) × (all (λ o. given.is_default (given.prepared f o)) objs ≡ true)

  mem-chosen :
      (objs : List O) (f : Field) (fields : List Field)
      → Memᴰ f fields
      → Memᴰ f (
          filter (λ g. not g.has_db_default) fields
          ++ given_fields given objs (filter (λ g. g.has_db_default) fields))
        ⊎ LeftOut objs f
  unfolding given_fields LeftOut
  mem-chosen objs f fields m = elim (Bool-cases f.has_db_default) [
    | inr e ↦
        inl (Memᴰ.append_left _ (mem-filter (λ g. not g.has_db_default) f fields m (rw e refl)))
    | inl e ↦ elim (Bool-cases (all (λ o. given.is_default (given.prepared f o)) objs)) [
      | inl a ↦ inr (e, a)
      | inr a ↦ inl (
          Memᴰ.append_right (filter (λ g. not g.has_db_default) fields) (
            mem-filter (λ g. not (all (λ o. given.is_default (given.prepared g o)) objs)) f _
              (mem-filter (λ g. g.has_db_default) f fields m e) (rw a refl)))
    ]
  ]

  -- With at most 1000 objects an INSERT has a column, and each field that some object gives a value is
  -- one of its columns.
  pub insert_fields_complete :
      (objs : List O) (f : Field) (fields : List Field)
      → length objs ≤ max_rows_insert_use_expression
      → Memᴰ f fields
      → (Memᴰ f (insert_fields given objs fields) ⊎ LeftOut objs f)
        × (insert_fields given objs fields ≢ [])
  unfolding insert_fields
  insert_fields_complete objs f fields n m =
      let db_default_fields = filter (λ g. g.has_db_default) fields in
      let chosen =
        filter (λ g. not g.has_db_default) fields ++ given_fields given objs db_default_fields in
      if_cases (λ z. (Memᴰ f z ⊎ LeftOut objs f) × (z ≢ [])) (any (λ g. g.has_db_default) fields)
        (λ h.
          if_cases (λ z. (Memᴰ f z ⊎ LeftOut objs f) × (z ≢ []))
            (ltb max_rows_insert_use_expression (length objs)) (λ k. ground arith)
            (λ k. (
              elim (mem-chosen objs f fields m) [
                | inl c ↦ inl (mem-or_first f chosen db_default_fields c)
                | inr l ↦ inr l
              ],
              or_first-some chosen db_default_fields (any-filter (λ g. g.has_db_default) fields h),
            )))
        (λ h. (inl m, mem-some f fields m))
