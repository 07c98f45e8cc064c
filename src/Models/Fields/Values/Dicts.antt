-- ===== src/Models/Fields/Values/Dicts.antt =====
-- A dict comprehension over conversions that undo one another.
use django_clickhouse_backen.Prelude.{
  ◌≡◌, ◌↔◌, refl, sym, ap, ◌∙◌, Bool, true, false, Bool-cases, inl, inr,
}
use django_clickhouse_backen.Models.Fields.Values.{
  Value, Pairs, Converted, end, pair, ok, put, convert_pairs,
}

unfoldable pub append : {V : Type 0} → Pairs V → Pairs V → Pairs V
append end e = e
append (pair k v d) e = pair k v (append d e)

-- The value that a conversion makes, from which another one makes the value.
abbrev pub Back : {V : Type 0} → (f g : Value V → Converted (Value V)) → Value V → Value V → Type 0
Back f g v w = (f v ≡ ok w) × (g w ≡ ok v)

module _ {V : Type 0} (same : Value V → Value V → Bool) where
  -- The key is not in the dict.
  unfoldable pub Absent : Value V → Pairs V → Type 0
  Absent k end = Unit
  Absent k (pair j v d) = (same j k ≡ false) × Absent k d

  -- No key is in the dict made so far, nor twice.
  unfoldable pub Fresh : Pairs V → Pairs V → Type 0
  Fresh end made = Unit
  Fresh (pair k v d) made = Absent k made × Fresh d (append made (pair k v end))

  put_new : (k v : Value V) (d : Pairs V) → Absent k d → put same k v d ≡ append d (pair k v end)
  unfolding put append Absent
  put_new k v end h = refl
  put_new k v (pair j w d) (h, hs) = rw h (ap (pair j w) (put_new k v d hs))

  append_one :
      (k v : Value V) (d e : Pairs V) → append (append d (pair k v end)) e ≡ append d (pair k v e)
  unfolding append
  append_one k v end e = refl
  append_one k v (pair j w d) e = ap (pair j w) (append_one k v d e)

  append_end : (d : Pairs V) → append d end ≡ d
  unfolding append
  append_end end = refl
  append_end (pair k v d) = ap (pair k v) (append_end d)

  module _ (f g f' g' : Value V → Converted (Value V)) where
    -- The dicts correspond, entry by entry.
    unfoldable Backs : Pairs V → Pairs V → Type 0
    Backs end end = Unit
    Backs end (pair k v d) = ⊥
    Backs (pair k v d) end = ⊥
    Backs (pair k v d) (pair j w e) = Back f g k j × Back f' g' v w × Backs d e

    unfoldable pub AllBack : Pairs V → Type 0
    AllBack end = Unit
    AllBack (pair k v d) =
        ((j : Value V) × Back f g k j) × ((w : Value V) × Back f' g' v w) × AllBack d

    converted : (d : Pairs V) → AllBack d → (e : Pairs V) × Backs d e
    unfolding AllBack Backs
    converted end h = (end, tt)
    converted (pair k v d) ((j, kj), (w, vw), h) =
        let (e, de) = converted d h in (pair j w e, (kj, vw, de))

    Backs-append :
        (d e : Pairs V) (k v j w : Value V)
        → Backs d e
        → Back f g k j
        → Back f' g' v w
        → Backs (append d (pair k v end)) (append e (pair j w end))
    unfolding Backs append
    Backs-append end end k v j w h kj vw = (kj, vw, tt)
    Backs-append end (pair a b e) k v j w h kj vw = absurd h
    Backs-append (pair a b d) end k v j w h kj vw = absurd h
    Backs-append (pair a b d) (pair c x e) k v j w (ac, bx, h) kj vw =
        (ac, bx, Backs-append d e k v j w h kj vw)

    forwards :
        (d e made : Pairs V)
        → Backs d e
        → Fresh e made
        → convert_pairs same f f' d made ≡ ok (append made e)
    unfolding convert_pairs Backs Fresh
    forwards end end made h r = ap ok (sym (append_end made))
    forwards end (pair j w e) made h r = absurd h
    forwards (pair k v d) end made h r = absurd h
    forwards (pair k v d) (pair j w e) made ((fk, gj), (fv, gw), h) (a, r) =
        rw (fk, fv, put_new j w made a)
          (forwards d e (append made (pair j w end)) h r ∙ ap ok (append_one j w made e))

    backwards :
        (d e made : Pairs V)
        → Backs d e
        → Fresh d made
        → convert_pairs same g g' e made ≡ ok (append made d)
    unfolding convert_pairs Backs Fresh
    backwards end end made h r = ap ok (sym (append_end made))
    backwards end (pair j w e) made h r = absurd h
    backwards (pair k v d) end made h r = absurd h
    backwards (pair k v d) (pair j w e) made ((fk, gj), (fv, gw), h) (a, r) =
        rw (gj, gw, put_new k v made a)
          (backwards d e (append made (pair k v end)) h r ∙ ap ok (append_one k v made d))

    Backs-same :
        (d e : Pairs V)
        → ((v : Value V) → g v ≡ ok v)
        → ((v : Value V) → g' v ≡ ok v)
        → Backs d e
        → e ≡ d
    unfolding Backs
    Backs-same end end k k' h = refl
    Backs-same end (pair j w e) k k' h = absurd h
    Backs-same (pair k v d) end i i' h = absurd h
    Backs-same (pair k v d) (pair j w e) i i' ((fk, gj), (fv, gw), h) =
        cc (i j, i' w, Backs-same d e i i' h)

    module _ (same_iff : (a b : Value V) → (same a b ≡ true) ↔ (a ≡ b)) where
      different :
          (k k' j j' : Value V)
          → Back f g k k'
          → Back f g j j'
          → same j k ≡ false
          → same j' k' ≡ false
      different k k' j j' (fk, gk) (fj, gj) h = elim (Bool-cases (same j' k')) [
        | inl e ↦
            let e' : j' ≡ k' = (same_iff j' k').0 e in
            let c : j ≡ k = cc in let t : same j k ≡ true = (same_iff j k).1 c in cc
        | inr e ↦ e
      ]

      Absent-converted :
          (d e : Pairs V) (k j : Value V) → Backs d e → Back f g k j → Absent k d → Absent j e
      unfolding Backs Absent
      Absent-converted end end k j h kj a = tt
      Absent-converted end (pair b w e) k j h kj a = absurd h
      Absent-converted (pair c v d) end k j h kj a = absurd h
      Absent-converted (pair c v d) (pair b w e) k j (cb, vw, h) kj (a, as') =
          (different k j c b kj cb a, Absent-converted d e k j h kj as')

      Fresh-converted :
          (d e made made' : Pairs V) → Backs d e → Backs made made' → Fresh d made → Fresh e made'
      unfolding Backs Fresh
      Fresh-converted end end made made' h m r = tt
      Fresh-converted end (pair b w e) made made' h m r = absurd h
      Fresh-converted (pair c v d) end made made' h m r = absurd h
      Fresh-converted (pair k v d) (pair j w e) made made' (kj, vw, h) m (a, r) = (
        Absent-converted made made' k j m kj a,
        Fresh-converted d e (append made (pair k v end)) (append made' (pair j w end)) h
            (Backs-append made made' k v j w m kj vw) r,
      )

      -- Converted there and back, a dict is what it was.
      pub pairs_returned :
          (d : Pairs V)
          → AllBack d
          → Fresh d end
          → (e : Pairs V) × (convert_pairs same f f' d end ≡ ok e)
            × (convert_pairs same g g' e end ≡ ok d)
            × (((v : Value V) → g v ≡ ok v) → ((v : Value V) → g' v ≡ ok v) → e ≡ d)
      unfolding append Backs
      pairs_returned d h r =
          let (e, de) = converted d h in
          (
            e,
            forwards d e end de (Fresh-converted d e end end de tt r),
            backwards d e end de r,
            λ i i'. Backs-same d e i i' de,
          )
