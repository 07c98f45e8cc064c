-- ===== src/Backend/Wrapper/Again.antt =====
-- Which connection a wrapper gets again.
use django_clickhouse_backen.Prelude.{
  ℕ, ◌≡◌, ◌≢◌, ◌⊎◌, inl, inr, refl, sym, ap, ◌∙◌, subst, Bool, true, false, Bool-cases, Option,
  none, some, List, [], ◌∷◌, All, Text, if◌then◌else◌, if_cases,
}
use django_clickhouse_backen.Prelude.Dict.{Eq, lookup, text_eq, lookup-insert}
use django_clickhouse_backen.Backend.Wrapper.{
  Connections, Call, connect, use_known, get_new_connection, after,
}

different : (a b : Text) → a ≢ b → text_eq.beq a b ≡ false
different a b n = elim (Bool-cases (text_eq.beq a b)) [
  | inl t ↦ absurd (n ((text_eq.beq_iff a b).0 t))
  | inr t ↦ t
]

module _ {P : Type 0} ⦃e : Eq P⦄ where
  Known : Call P → ℕ → Connections P → Type 0
  Known call c s = lookup call.alias s.connections ≡ some (call.params, c)

  -- The call is of another wrapper, or with the same parameters.
  abbrev pub Apart : Call P → Call P → Type 0
  Apart mine call = (call.alias ≢ mine.alias) ⊎ (call.params ≡ mine.params)

  connect_keeps :
      (mine : Call P) (c : ℕ) (alias : Text) (params : P) (connects : Bool) (s : Connections P)
      → alias ≢ mine.alias
      → Known mine c s
      → Known mine c (connect alias params connects s).1
  unfolding Known connect
  connect_keeps mine c alias params true s n k =
      let other : text_eq.beq alias mine.alias ≡ false = different alias mine.alias n in
      lookup-insert alias mine.alias (params, s.next) s.connections ∙ rw other k
  connect_keeps mine c alias params false s n k = k

  Known-keeps :
      (mine : Call P) (c : ℕ) (known : Option (P × ℕ)) (alias : Text) (params : P) (connects : Bool)
      (s : Connections P)
      → alias ≢ mine.alias
      → Known mine c s
      → Known mine c (use_known known alias params connects s).1
  unfolding use_known
  Known-keeps mine c none alias params connects s n k =
      connect_keeps mine c alias params connects s n k
  Known-keeps mine c (some (p, d)) alias params connects s n k =
      if_cases (λ (r : Option ℕ × Connections P). Known mine c r.1) (e.beq params p) (λ h. k)
        (λ h. connect_keeps mine c alias params connects s n k)

  -- A call with the alias and the parameters of a known connection gets it and changes nothing.
  Known-again :
      (mine : Call P) (c : ℕ) (alias : Text) (params : P) (connects : Bool) (s : Connections P)
      → alias ≡ mine.alias
      → params ≡ mine.params
      → Known mine c s
      → use_known (lookup alias s.connections) alias params connects s ≡ (some c, s)
  unfolding use_known Known
  Known-again mine c alias params connects s a p k =
      rw (a, k, p, (e.beq_iff mine.params mine.params).1 refl) refl

  step_keeps :
      (mine call : Call P) (c : ℕ) (s : Connections P)
      → Apart mine call
      → Known mine c s
      → Known mine c (get_new_connection call s).1
  unfolding get_new_connection
  step_keeps mine call c s (inl n) k =
      Known-keeps mine c (lookup call.alias s.connections) call.alias call.params call.connects s n
        k
  step_keeps mine call c s (inr p) k = elim (Bool-cases (text_eq.beq call.alias mine.alias)) [
    | inl t ↦
        let a : call.alias ≡ mine.alias = (text_eq.beq_iff call.alias mine.alias).0 t in
        subst (λ r. Known mine c r.1)
          (sym (Known-again mine c call.alias call.params call.connects s a p k)) k
    | inr t ↦
        Known-keeps mine c (lookup call.alias s.connections) call.alias call.params call.connects s
          (λ a. cc (t, (text_eq.beq_iff call.alias mine.alias).1 a)) k
  ]

  after_keeps :
      (mine : Call P) (c : ℕ) (calls : List (Call P)) (s : Connections P)
      → All (Apart mine) calls
      → Known mine c s
      → Known mine c (after calls s)
  unfolding after
  after_keeps mine c [] s h k = k
  after_keeps mine c (call ∷ calls) s (h, hs) k =
      after_keeps mine c calls (get_new_connection call s).1 hs (step_keeps mine call c s h k)

  connect_knows :
      (mine : Call P) (c : ℕ) (connects : Bool) (s : Connections P)
      → (connect mine.alias mine.params connects s).0 ≡ some c
      → Known mine c (connect mine.alias mine.params connects s).1
  unfolding connect Known
  connect_knows mine c true s h =
      let n : s.next ≡ c = cc h in
      lookup-insert mine.alias mine.alias (mine.params, s.next) s.connections
      ∙ rw ((text_eq.beq_iff mine.alias mine.alias).1 refl, n) refl
  connect_knows mine c false s h = cc h

  pick_knows :
      (b : Bool) (mine : Call P) (c d : ℕ) (p : P) (s : Connections P)
      → (b ≡ true → mine.params ≡ p)
      → lookup mine.alias s.connections ≡ some (p, d)
      → (if b then (some d, s) else connect mine.alias mine.params mine.connects s).0 ≡ some c
      → Known mine c (if b then (some d, s) else connect mine.alias mine.params mine.connects s).1
  unfolding Known
  pick_knows true mine c d p s same l h =
      let q : mine.params ≡ p = same refl in
      let n : d ≡ c = cc h in l ∙ ap (λ (x : P × ℕ). some x) (cc (q, n))
  pick_knows false mine c d p s same l h = connect_knows mine c mine.connects s h

  use_knows :
      (mine : Call P) (c : ℕ) (known : Option (P × ℕ)) (s : Connections P)
      → lookup mine.alias s.connections ≡ known
      → (use_known known mine.alias mine.params mine.connects s).0 ≡ some c
      → Known mine c (use_known known mine.alias mine.params mine.connects s).1
  unfolding use_known Known
  use_knows mine c none s l h = connect_knows mine c mine.connects s h
  use_knows mine c (some (p, d)) s l h =
      pick_knows (e.beq mine.params p) mine c d p s (e.beq_iff mine.params p).0 l h

  -- A wrapper that got a connection gets the same one again, also where no new one can be made, as long
  -- as every call in between is of another wrapper or with the same parameters.
  pub get_new_connection-after :
      (mine : Call P) (c : ℕ) (s : Connections P) (calls : List (Call P)) (connects : Bool)
      → (get_new_connection mine s).0 ≡ some c
      → All (Apart mine) calls
      → (get_new_connection
          (record mine { connects = connects })
          (after calls (get_new_connection mine s).1)).0
        ≡ some c
  unfolding get_new_connection
  get_new_connection-after mine c s calls connects h apart =
      let k = use_knows mine c (lookup mine.alias s.connections) s refl h in
      let kept_known = after_keeps mine c calls (get_new_connection mine s).1 apart k in
      ap (λ r. r.0)
        (Known-again mine c mine.alias mine.params connects
          (after calls (get_new_connection mine s).1) refl refl kept_known)
