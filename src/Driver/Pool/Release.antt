-- ===== src/Driver/Pool/Release.antt =====
-- What `push` and `cleanup` do to the pool, and that every sequence of calls keeps the invariant.
use django_clickhouse_backen.Prelude.{
  ℕ, ◌<◌, ◌≡◌, refl, sym, subst, inl, inr, Bool, Bool-cases, true, false, Option, none, some, List,
  [], ◌∷◌, ◌⊎◌, ◌&&◌, not, arith, length, ltb, if_cases, Text,
}
use django_clickhouse_backen.Prelude.Dict.{nat_eq, lookup, delete, length-delete, has_key_of_lookup}
use django_clickhouse_backen.Driver.Pool.{
  Driver, Key, made, given, key_eq, Pool, Result, ok, err, disconnect_failed, try_disconnect,
  then_do, set_at, disconnect_all, disconnect_client, stop_query, free_connected, keep_or_close,
  forget, push_keyed, push_found, key_of, push,
}
use django_clickhouse_backen.Driver.Pool.Mirror.{
  lookup-mirror, lookup-delete_ne, DistinctKeys-delete, delete-mirror, count-delete,
}
use django_clickhouse_backen.Driver.Pool.Invariant.{Inv, KeepsInv}

module _ {D : Driver} where
  -- What `push` does to a pool that holds the client under the key: the client is let go, and
  -- stands in the free list or not.
  abbrev pub dropped : Pool D → ℕ → Key → (ℕ → D.Conn) → Pool D
  dropped p c k h = record p { heap = h; used = delete k p.used; rused = delete c p.rused }

  abbrev pub kept : Pool D → ℕ → Key → (ℕ → D.Conn) → Pool D
  kept p c k h = record (dropped p c k h) { free = c ∷ p.free }

  module _ (p : Pool D) (c : ℕ) (k : Key) (v : Inv p) (known : lookup c p.rused ≡ some k) where
    pub key-used : lookup k p.used ≡ some c
    key-used = lookup-mirror c k p.used v.distinct (subst (λ d. lookup c d ≡ some k) v.mirror known)

    dropped-Inv : (h : ℕ → D.Conn) → Inv (dropped p c k h)
    dropped-Inv h = record {
      mirror =
          rw v.mirror
            (delete-mirror c k p.used v.distinct (subst (λ d. lookup c d ≡ some k) v.mirror known));
      distinct = DistinctKeys-delete k p.used v.distinct;
      once = λ i. omega (arith, count-delete i k c p.used key-used, v.once i);
      fresh = λ i g. omega (arith, count-delete i k c p.used key-used, v.fresh i g);
      unmade = λ n g. lookup-delete_ne (made n) k p.used (v.unmade n g);
      bounded = omega (arith, length-delete k c p.used key-used, v.bounded);
    }

    kept-Inv : (h : ℕ → D.Conn) → Inv (kept p c k h)
    kept-Inv h =
        let w = dropped-Inv h in
        record {
          mirror = w.mirror;
          distinct = w.distinct;
          once = λ i. omega (arith, count-delete i k c p.used key-used, v.once i);
          fresh = λ i g. omega (arith, count-delete i k c p.used key-used, v.fresh i g);
          unmade = w.unmade;
          bounded = omega (arith, length-delete k c p.used key-used, v.bounded);
        }

  -- Only the heap differs.
  abbrev pub Rewired : Pool D → Pool D → Type 0
  Rewired p q = (h : ℕ → D.Conn) × (q ≡ record p { heap = h })

  -- client.disconnect() raised: only the heap differs.
  abbrev pub Failed : Pool D → ℕ → Result (Unit {0}) × Pool D → Type 0
  Failed p c r =
      (D.disconnect_raises (p.heap c) ≡ true)
      × ((h : ℕ → D.Conn) × (r ≡ (err disconnect_failed, record p { heap = h })))

  -- An exception, or a return with what is left
  abbrev Outcome : Pool D → ℕ → (Pool D → Type 0) → Result (Unit {0}) × Pool D → Type 0
  Outcome p c P r = Failed p c r ⊎ ((q : Pool D) × (r ≡ (ok tt, q)) × P q)

  try_disconnect-Outcome : (c : ℕ) (p : Pool D) → Outcome p c (Rewired p) (try_disconnect c p)
  unfolding try_disconnect disconnect_client
  try_disconnect-Outcome c p =
      let h = set_at p.heap c (D.disconnect (p.heap c)) in
      elim (Bool-cases (D.disconnect_raises (p.heap c))) [
        | inl e ↦ inl (e, (h, rw e refl))
        | inr e ↦ inr (record p { heap = h }, rw e refl, (h, refl))
      ]

  stop_query-Outcome : (c : ℕ) (p : Pool D) → Outcome p c (Rewired p) (stop_query c p)
  unfolding stop_query
  stop_query-Outcome c p =
      if_cases (Outcome p c (Rewired p)) (D.is_query_executing (p.heap c))
        (λ _. try_disconnect-Outcome c p) (λ _. inr (p, refl, (p.heap, refl)))

  -- The client back in the free list, which takes room, or not.
  abbrev Shape : Pool D → ℕ → Pool D → Type 0
  Shape p c q =
      Rewired p q
      ⊎ ((length p.free < p.connections_min)
          × ((h : ℕ → D.Conn) × (q ≡ record p { heap = h; free = c ∷ p.free })))

  free_connected-Shape :
      (c : ℕ) (p q : Pool D)
      → length p.free < p.connections_min
      → Rewired p q
      → Shape p c (free_connected c q)
  unfolding free_connected
  free_connected-Shape c p q room (h, e) =
      rw (e, free_connected)
        (if_cases (Shape p c) (D.connected (h c)) (λ _. inr (room, (h, refl))) (λ _. inl (h, refl)))

  stopped-Outcome :
      (c : ℕ) (p : Pool D) (r : Result (Unit {0}) × Pool D)
      → length p.free < p.connections_min
      → Outcome p c (Rewired p) r
      → Outcome p c (Shape p c) (then_do r (λ q. (ok tt, free_connected c q)))
  unfolding then_do
  stopped-Outcome c p r room (inl (e, (h, f))) = inl (e, (h, rw (f, then_do) refl))
  stopped-Outcome c p r room (inr (q, f, w)) =
      inr (free_connected c q, rw (f, then_do) refl, free_connected-Shape c p q room w)

  closed-Outcome :
      (c : ℕ) (p : Pool D) (r : Result (Unit {0}) × Pool D)
      → Outcome p c (Rewired p) r
      → Outcome p c (Shape p c) r
  closed-Outcome c p r (inl f) = inl f
  closed-Outcome c p r (inr (q, f, w)) = inr (q, f, inl w)

  keep_or_close-Outcome :
      (c : ℕ) (close : Bool) (p : Pool D) → Outcome p c (Shape p c) (keep_or_close c close p)
  unfolding keep_or_close
  keep_or_close-Outcome c close p =
      if_cases (Outcome p c (Shape p c)) (ltb (length p.free) p.connections_min && not close)
        (λ room. stopped-Outcome c p (stop_query c p) (ground arith) (stop_query-Outcome c p))
        (λ _. closed-Outcome c p (try_disconnect c p) (try_disconnect-Outcome c p))

  abbrev pub Pushed : Pool D → ℕ → Key → Result (Unit {0}) × Pool D → Type 0
  Pushed p c k r =
      (h : ℕ → D.Conn) × ((r ≡ (ok tt, dropped p c k h))
        ⊎ ((length p.free < p.connections_min) × (r ≡ (ok tt, kept p c k h))))

  pub push_keyed-Pushed :
      (c : ℕ) (k : Key) (close : Bool) (p : Pool D)
      → Inv p
      → p.closed ≡ false
      → lookup c p.rused ≡ some k
      → Failed p c (push_keyed c k close p) ⊎ Pushed p c k (push_keyed c k close p)
  unfolding push_keyed forget then_do
  push_keyed-Pushed c k close p v o known = elim (keep_or_close-Outcome c close p) [
    | inl (e, (h, f)) ↦ inl (e, (h, rw (f, then_do) refl))
    | inr (q, f, inl (h, e)) ↦ inr (
      h,
      inl (
          rw (
            f,
            then_do,
            e,
            o,
            has_key_of_lookup k c p.used (key-used p c k v known),
            has_key_of_lookup c k p.rused known,
          )),
    )
    | inr (q, f, inr (room, (h, e))) ↦ inr (
      h,
      inr (
        room,
        rw (
          f,
          then_do,
          e,
          o,
          has_key_of_lookup k c p.used (key-used p c k v known),
          has_key_of_lookup c k p.rused known,
        ),
      ),
    )
  ]

  -- The caller gives no key, or the key under which the pool has the client.
  abbrev pub OwnKey : Option Text → ℕ → Pool D → Type 0
  OwnKey none c p = Unit
  OwnKey (some t) c p = lookup c p.rused ≡ some (given t)

  rewired-Inv : (p : Pool D) (h : ℕ → D.Conn) → Inv p → Inv (record p { heap = h })
  rewired-Inv p h v = record {
    mirror = v.mirror;
    distinct = v.distinct;
    once = v.once;
    fresh = v.fresh;
    unmade = v.unmade;
    bounded = v.bounded;
  }

  Pushed-Inv :
      (p : Pool D) (c : ℕ) (k : Key) (r : Result (Unit {0}) × Pool D)
      → Inv p
      → lookup c p.rused ≡ some k
      → Pushed p c k r
      → KeepsInv r
  Pushed-Inv p c k r v known (h, inl e) = subst KeepsInv (sym e) (dropped-Inv p c k v known h)
  Pushed-Inv p c k r v known (h, inr (_, e)) = subst KeepsInv (sym e) (kept-Inv p c k v known h)

  push_found-Inv :
      (p : Pool D) (c : ℕ) (found : Option Key) (close : Bool)
      → Inv p
      → p.closed ≡ false
      → lookup c p.rused ≡ found
      → KeepsInv (push_found found c close p)
  unfolding push_found
  push_found-Inv p c none close v o e = v
  push_found-Inv p c (some k) close v o e = elim (push_keyed-Pushed c k close p v o e) [
    | inl (_, (h, f)) ↦ subst KeepsInv (sym f) (rewired-Inv p h v)
    | inr s ↦ Pushed-Inv p c k (push_keyed c k close p) v e s
  ]

  key_of-lookup :
      (key : Option Text) (c : ℕ) (p : Pool D) → OwnKey key c p → lookup c p.rused ≡ key_of key c p
  unfolding key_of
  key_of-lookup none c p h = refl
  key_of-lookup (some t) c p h = h

  -- `push` keeps the invariant, whether it returns or raises.
  pub push-Inv :
      (p : Pool D) (c : ℕ) (key : Option Text) (close : Bool)
      → Inv p
      → OwnKey key c p
      → KeepsInv (push c key close p)
  unfolding push
  push-Inv p c key close v own =
      if_cases KeepsInv p.closed (λ _. v)
        λ o. push_found-Inv p c (key_of key c p) close v o (key_of-lookup key c p own)

  pub disconnect_all-Rewired : (cs : List ℕ) (p : Pool D) → Rewired p (disconnect_all cs p)
  unfolding disconnect_all try_disconnect disconnect_client
  disconnect_all-Rewired [] p = (p.heap, refl)
  disconnect_all-Rewired (c ∷ cs) p =
      let (h, e) = disconnect_all-Rewired cs (disconnect_client c p) in (h, e)
