-- ===== src/Backend/Wrapper/Sharing.antt =====
-- Who shares a connection.
use django_clickhouse_backen.Prelude.{
  ℕ, suc, ◌<◌, ◌≤◌, ◌≡◌, ◌⊎◌, inl, inr, refl, sym, ap, ◌∙◌, Bool, true, false, Bool-cases, Option,
  none, some, List, [], ◌∷◌, All, ◌==◌, Text, if◌then◌else◌, arith,
}
use django_clickhouse_backen.Prelude.Dict.{Eq, lookup, insert, text_eq, lookup-insert}
use django_clickhouse_backen.Backend.Wrapper.{
  Connections, no_connections, Call, connect, use_known, get_new_connection, answers,
}

found_cases :
    {A : Type 0} (b : Bool) (x : A) (o : Option A) (y : A)
    → (if b then some x else o) ≡ some y
    → ((b ≡ true) × (x ≡ y)) ⊎ ((b ≡ false) × (o ≡ some y))
found_cases true x o y h = inl (refl, cc)
found_cases false x o y h = inr (refl, h)

abbrev Below : Option ℕ → ℕ → Type 0
Below none n = Unit
Below (some c) n = c < n

module _ {P : Type 0} ⦃e : Eq P⦄ where
  -- Each known connection has its owner's alias and parameters.
  Owned : (ℕ → Text × P) → Connections P → Type 0
  Owned owner s =
      (a : Text) (p : P) (c : ℕ)
      → lookup a s.connections ≡ some (p, c)
      → (c < s.next) × (owner c ≡ (a, p))

  abbrev pub AnsweredTo : (ℕ → Text × P) → Call P × Option ℕ → Type 0
  AnsweredTo owner (call, none) = Unit
  AnsweredTo owner (call, some c) = owner c ≡ (call.alias, call.params)

  abbrev with_owner : (ℕ → Text × P) → ℕ → Text × P → ℕ → Text × P
  with_owner owner n o m = if m == n then o else owner m

  Owned-insert :
      (owner : ℕ → Text × P) (s : Connections P) (a : Text) (p : P)
      → Owned owner s
      → Owned
          (with_owner owner s.next (a, p))
          (record { connections = insert a (p, s.next) s.connections; next = suc s.next })
  unfolding Owned
  Owned-insert owner s a p h b q c found =
      elim (found_cases (text_eq.beq a b) (p, s.next) (lookup b s.connections) (q, c)
        (sym (lookup-insert a b (p, s.next) s.connections) ∙ found)) [
          | inl (t, pq) ↦
              let k : a ≡ b = (text_eq.beq_iff a b).0 t in
              let n : s.next ≡ c = ap (λ x. x.1) pq in
              let r : p ≡ q = ap (λ x. x.0) pq in
              let same_number : (c == s.next) ≡ true = ground arith in
              (omega arith, rw (same_number, k, r) refl)
          | inr (t, f) ↦
              let (lt, o) = h b q c f in
              let other_number : (c == s.next) ≡ false = ground arith in
              (omega arith, rw other_number o)
        ]

  -- An owner for each number, that of the known ones kept
  Extends : (ℕ → Text × P) → ℕ → (ℕ → Text × P) → Type 0
  Extends owner n owner' = (m : ℕ) → m < n → owner' m ≡ owner m

  kept :
      (call : Call P) (answer : Option ℕ) (n : ℕ) (owner owner' : ℕ → Text × P)
      → AnsweredTo owner (call, answer)
      → Below answer n
      → Extends owner n owner'
      → AnsweredTo owner' (call, answer)
  unfolding Extends
  kept call none n owner owner' a b x = tt
  kept call (some c) n owner owner' a b x = x c b ∙ a

  -- What one call leaves and answers
  Next : (ℕ → Text × P) → Call P → Connections P → Option ℕ × Connections P → Type 0
  Next owner call s (answer, s') =
      (owner' : ℕ → Text × P) × Extends owner s.next owner'
      × Owned owner' s'
      × (s.next ≤ s'.next)
      × AnsweredTo owner' (call, answer)
      × Below answer s'.next

  connect-Owned :
      (call : Call P) (connects : Bool) (s : Connections P) (owner : ℕ → Text × P)
      → Owned owner s
      → Next owner call s (connect call.alias call.params connects s)
  unfolding connect Next Extends
  connect-Owned call true s owner h = (
    with_owner owner s.next (call.alias, call.params),
    λ m lt. let other : (m == s.next) ≡ false = ground arith in rw other refl,
    Owned-insert owner s call.alias call.params h,
    omega arith,
    let same_number : (s.next == s.next) ≡ true = ground arith in rw same_number refl,
    omega arith,
  )
  connect-Owned call false s owner h = (owner, λ m lt. refl, h, omega arith, tt, tt)

  known-Owned :
      (call : Call P) (s : Connections P) (owner : ℕ → Text × P) (known : Option (P × ℕ))
      → lookup call.alias s.connections ≡ known
      → Owned owner s
      → Next owner call s (use_known known call.alias call.params call.connects s)
  unfolding use_known Next Extends Owned
  known-Owned call s owner none l h = connect-Owned call call.connects s owner h
  known-Owned call s owner (some (p, c)) l h = elim (Bool-cases (e.beq call.params p)) [
    | inl t ↦
        let (lt, o) = h call.alias p c l in
        let q : p ≡ call.params = sym ((e.beq_iff call.params p).0 t) in
        rw t (owner, λ m k. refl, h, omega arith, o ∙ ap (λ x. (call.alias, x)) q, lt)
    | inr t ↦ rw t (connect-Owned call call.connects s owner h)
  ]

  run-Owned :
      (calls : List (Call P)) (s : Connections P) (owner : ℕ → Text × P)
      → Owned owner s
      → (owner' : ℕ → Text × P) × Extends owner s.next owner'
        × All (AnsweredTo owner') (answers calls s)
  unfolding answers Extends get_new_connection Next
  run-Owned [] s owner h = (owner, λ m lt. refl, tt)
  run-Owned (call ∷ calls) s owner h =
      let (first, x, o, le, a, b) =
        known-Owned call s owner (lookup call.alias s.connections) refl h in
      let (later, y, all) = run-Owned calls (get_new_connection call s).1 first o in
      (
        later,
        λ m lt. y m (omega arith) ∙ x m lt,
        (
          kept call (get_new_connection call s).0 (get_new_connection call s).1.next first later a b
              y,
          all,
        ),
      )

  -- Whoever calls, and whether or not connections can be made: each connection that the calls answer with
  -- has one alias and one dictionary of parameters, and only calls with these get it.
  pub answers-AnsweredTo :
      (first : Call P) (calls : List (Call P))
      → (owner : ℕ → Text × P) × All (AnsweredTo owner) (answers (first ∷ calls) no_connections)
  unfolding Owned lookup
  answers-AnsweredTo first calls =
      let (owner, x, h) =
        run-Owned (first ∷ calls) no_connections (λ n. (first.alias, first.params))
          (λ a p c l. absurd (cc l)) in
      (owner, h)
