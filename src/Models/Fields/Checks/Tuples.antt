-- ===== src/Models/Fields/Checks/Tuples.antt =====
-- The base fields that a tuple field accepts.
use django_clickhouse_backen.Prelude.{
  ℕ, suc, ◌≡◌, ◌≢◌, ◌↔◌, refl, sym, ap, ◌∙◌, subst, Bool, true, false, Bool-cases, inl, inr, Option,
  none, some, List, [], ◌∷◌, map, any, all, All, Text, arith,
}
use django_clickhouse_backen.Models.Fields.Checks.{
  Item, a_field, a_pair, other, BaseFields, plain, named, checked, Loop, collected, stopped,
  base_field, add_base_field, base_fields_loop, is_named, with_name, without_name, classify,
  after_loop, check_base_fields,
}

module _ {F : Type 0} where
  abbrev pub named_item : Text × F → Item F
  named_item (name, f) = a_pair (some name) (some f)

  -- The argument that gives these base fields
  unfoldable pub items_of : BaseFields F → List (Item F)
  items_of (plain fs) = map a_field fs
  items_of (named fs) = map named_item fs

module _ {F : Type 0} (is_identifier : Text → Bool) (is_related : F → Bool) where
  -- At least one field, none of them related, and every name an identifier
  unfoldable pub Proper : BaseFields F → Type 0
  Proper (plain fs) = (fs ≢ []) × All (λ f. is_related f ≡ false) fs
  Proper (named fs) =
      (fs ≢ []) × All (λ (p : Text × F). (is_identifier p.0 ≡ true) × (is_related p.1 ≡ false)) fs

  loop_plain :
      (n : ℕ) (fs : List F)
      → All (λ f. is_related f ≡ false) fs
      → base_fields_loop is_identifier is_related n (map a_field fs)
        ≡ collected (map (λ f. (none, f)) fs)
  unfolding base_fields_loop
  loop_plain n [] h = refl
  loop_plain n (f ∷ fs) (h, hs) = rw (loop_plain (suc n) fs hs, h) refl

  loop_named :
      (n : ℕ) (fs : List (Text × F))
      → All (λ (p : Text × F). (is_identifier p.0 ≡ true) × (is_related p.1 ≡ false)) fs
      → base_fields_loop is_identifier is_related n (map named_item fs)
        ≡ collected (map (λ (name, f). (some name, f)) fs)
  unfolding base_fields_loop
  loop_named n [] h = refl
  loop_named n ((name, f) ∷ fs) ((i, r), hs) = rw (i, loop_named (suc n) fs hs, r) refl

  abbrev entry_item : Option Text × F → Item F
  entry_item (none, f) = a_field f
  entry_item (some name, f) = a_pair (some name) (some f)

  abbrev Usable : Option Text × F → Type 0
  Usable (none, f) = is_related f ≡ false
  Usable (some name, f) = (is_identifier name ≡ true) × (is_related f ≡ false)

  add_inv :
      (n : ℕ) (p : Option Text × F) (rest : Loop F) (l : List (Option Text × F))
      → add_base_field is_identifier is_related n (some p) rest ≡ collected l
      → (m : List (Option Text × F)) × (rest ≡ collected m) × (is_related p.1 ≡ false) × (p ∷ m ≡ l)
  unfolding add_base_field
  add_inv n (name, f) (collected m) l h = elim (Bool-cases (is_related f)) [
    | inl e ↦ absurd (ground arith)
    | inr e ↦ (m, refl, e, ground arith)
  ]
  add_inv n (name, f) (stopped x) l h = absurd (ground arith)

  base_inv :
      (i : Item F) (p : Option Text × F)
      → base_field is_identifier is_related i ≡ some p
      → is_related p.1 ≡ false
      → (i ≡ entry_item p) × Usable p
  unfolding base_field
  base_inv (a_field f) (none, g) h r = (cc, r)
  base_inv (a_field f) (some name, g) h r = absurd (ground arith)
  base_inv (a_pair (some t) (some f)) (none, g) h r = absurd (ground arith)
  base_inv (a_pair (some t) (some f)) (some name, g) h r = elim (Bool-cases (is_identifier t)) [
    | inl e ↦
        let p : t ≡ name = ground arith in
        let q : f ≡ g = ground arith in (cc, (subst (λ x. is_identifier x ≡ true) p e, r))
    | inr e ↦ absurd (ground arith)
  ]
  base_inv (a_pair (some t) none) p h r = absurd (ground arith)
  base_inv (a_pair none f) p h r = absurd (ground arith)
  base_inv other p h r = absurd (ground arith)

  loop_inv :
      (n : ℕ) (items : List (Item F)) (l : List (Option Text × F))
      → base_fields_loop is_identifier is_related n items ≡ collected l
      → (items ≡ map entry_item l) × All Usable l
  unfolding base_fields_loop
  loop_inv n [] [] h = (refl, tt)
  loop_inv n [] (p ∷ l) h = absurd (ground arith)
  loop_inv n (i ∷ items) l h =
      over (λ m r. loop_inv (suc n) items m r) (base_field is_identifier is_related i) refl h
    where
      over :
          ((m : List (Option Text × F))
            → base_fields_loop is_identifier is_related (suc n) items ≡ collected m
            → (items ≡ map entry_item m) × All Usable m)
          → (b : Option (Option Text × F)) → base_field is_identifier is_related i ≡ b
          → add_base_field is_identifier is_related n b
              (base_fields_loop is_identifier is_related (suc n) items)
            ≡ collected l
          → (i ∷ items ≡ map entry_item l) × All Usable l
      over again none e k = absurd (cc k)
      over again (some p) e k =
          let (m, r, s, t) =
            add_inv n p (base_fields_loop is_identifier is_related (suc n) items) l k in
          let (a, u) = again m r in
          let (b, v) = base_inv i p e s in
          subst (λ x. (i ∷ items ≡ map entry_item x) × All Usable x) t (cc, (v, u))

  named_entries :
      (l : List (Option Text × F))
      → all (is_named is_identifier is_related) l ≡ true
      → All Usable l
      → (map entry_item l ≡ map named_item (map (with_name is_identifier is_related) l))
        × All
            (λ (p : Text × F). (is_identifier p.0 ≡ true) × (is_related p.1 ≡ false))
            (map (with_name is_identifier is_related) l)
  unfolding is_named with_name
  named_entries [] h u = (refl, tt)
  named_entries ((none, f) ∷ l) h u = absurd (ground arith)
  named_entries ((some name, f) ∷ l) h (u, us) =
      let (p, q) = named_entries l h us in (ap (λ m. a_pair (some name) (some f) ∷ m) p, (u, q))

  plain_entries :
      (l : List (Option Text × F))
      → any (is_named is_identifier is_related) l ≡ false
      → All Usable l
      → (map entry_item l ≡ map a_field (map (without_name is_identifier is_related) l))
        × All (λ f. is_related f ≡ false) (map (without_name is_identifier is_related) l)
  unfolding is_named without_name
  plain_entries [] h u = (refl, tt)
  plain_entries ((none, f) ∷ l) h (u, us) =
      let (p, q) = plain_entries l h us in (ap (λ m. a_field f ∷ m) p, (u, q))
  plain_entries ((some name, f) ∷ l) h u = absurd (ground arith)

  classify_inv :
      (l : List (Option Text × F)) (t : BaseFields F)
      → classify is_identifier is_related l ≡ checked t
      → All Usable l
      → (map entry_item l ≡ items_of t) × Proper t
  unfolding classify items_of Proper
  classify_inv [] t h u = cc
  classify_inv (p ∷ l) t h u = elim (Bool-cases (all (is_named is_identifier is_related) (p ∷ l))) [
    | inl e ↦
        let q : named (map (with_name is_identifier is_related) (p ∷ l)) ≡ t = ground arith in
        let (a, b) = named_entries (p ∷ l) e u in
        subst (λ x. (map entry_item (p ∷ l) ≡ items_of x) × Proper x) q (a, (λ n. cc, b))
    | inr e ↦ elim (Bool-cases (any (is_named is_identifier is_related) (p ∷ l))) [
      | inl d ↦ absurd (ground arith)
      | inr d ↦
          let q : plain (map (without_name is_identifier is_related) (p ∷ l)) ≡ t = ground arith in
          let (a, b) = plain_entries (p ∷ l) d u in
          subst (λ x. (map entry_item (p ∷ l) ≡ items_of x) × Proper x) q (a, (λ n. cc, b))
    ]
  ]

  classify_named :
      (fs : List (Text × F))
      → (all (is_named is_identifier is_related) (map (λ (name, f). (some name, f)) fs) ≡ true)
        × (map (with_name is_identifier is_related) (map (λ (name, f). (some name, f)) fs) ≡ fs)
  unfolding is_named with_name
  classify_named [] = (refl, refl)
  classify_named ((name, f) ∷ fs) = let (p, q) = classify_named fs in (p, ap (λ l. (name, f) ∷ l) q)

  classify_plain :
      (fs : List F)
      → (any (is_named is_identifier is_related) (map (λ f. (none, f)) fs) ≡ false)
        × (map (without_name is_identifier is_related) (map (λ f. (none, f)) fs) ≡ fs)
  unfolding is_named without_name
  classify_plain [] = (refl, refl)
  classify_plain (f ∷ fs) = let (p, q) = classify_plain fs in (p, ap (λ l. f ∷ l) q)

  accepted :
      (t : BaseFields F)
      → Proper t
      → check_base_fields is_identifier is_related (some (items_of t)) ≡ checked t
  unfolding check_base_fields after_loop classify items_of Proper is_named
  accepted (plain []) (n, h) = absurd (n refl)
  accepted (plain (f ∷ fs)) (n, h) =
      let (p, q) = classify_plain (f ∷ fs) in
      rw (loop_plain 1 (f ∷ fs) h, p) (ap (λ l. checked (plain l)) q)
  accepted (named []) (n, h) = absurd (n refl)
  accepted (named (f ∷ fs)) (n, h) =
      let (p, q) = classify_named (f ∷ fs) in
      rw (loop_named 1 (f ∷ fs) h, p) (ap (λ l. checked (named l)) q)

  loop_cases :
      (items : List (Item F)) (t : BaseFields F) (loop : Loop F)
      → base_fields_loop is_identifier is_related 1 items ≡ loop
      → after_loop is_identifier is_related loop ≡ checked t
      → (items ≡ items_of t) × Proper t
  unfolding after_loop
  loop_cases items t (collected l) e h =
      let (p, u) = loop_inv 1 items l e in let (q, r) = classify_inv l t h u in (p ∙ q, r)
  loop_cases items t (stopped x) e h = absurd (ground arith)

  -- What base_fields are accepted, and what is made of them: exactly the fields of an iterable that gives
  -- them all without names or all with names, which are identifiers; there is at least one field, and none
  -- is a related field.
  pub check_base_fields-Proper :
      (items : List (Item F)) (t : BaseFields F)
      → (check_base_fields is_identifier is_related (some items) ≡ checked t)
        ↔ ((items ≡ items_of t) × Proper t)
  unfolding check_base_fields
  check_base_fields-Proper items t = (
    loop_cases items t (base_fields_loop is_identifier is_related 1 items) refl,
    λ (e, p).
        subst (λ l. check_base_fields is_identifier is_related (some l) ≡ checked t) (sym e)
          (accepted t p),
  )
