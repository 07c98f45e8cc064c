-- ===== src/Driver/Pool/Leases.antt =====
-- What a caller of `pull`, `push` and `get_client` relies on.
use django_clickhouse_backen.Prelude.{
  ℕ, suc, ◌≤◌, ◌<◌, ◌≡◌, ◌↔◌, inl, inr, refl, sym, ◌∙◌, ap, subst, Bool, true, false, Option, none,
  some, List, [], ◌∷◌, Text, arith, length, count, map,
}
use django_clickhouse_backen.Prelude.Dict.{
  nat_eq, Dict, lookup, delete, lookup-insert_self, has_key_of_lookup,
}
use django_clickhouse_backen.Driver.Pool.{
  Driver, Pool, Result, ok, err, too_many_connections, unkeyed_client, Key, made, given, key_eq,
  values, connect, pull, pull_open, pull_keyed, take_client, lease, new_client, push, push_found,
  key_of, push_keyed, forget, keep_or_close, stop_query, then_do, free_connected, get_client,
}
use django_clickhouse_backen.Driver.Pool.Mirror.{
  swap, count-delete, delete-mirror, lookup-delete_ne, lookup-mirror_none,
}
use django_clickhouse_backen.Driver.Pool.Invariant.{Inv, bump_keys-Inv}
use django_clickhouse_backen.Driver.Pool.Release.{
  Pushed, push_keyed-Pushed, dropped, kept, key-used,
}

lookup-delete_self :
    (c : ℕ) (k : Key) (d : Dict Key ℕ)
    → count c (values d) ≤ 1
    → lookup k d ≡ some c
    → lookup c (map swap (delete k d)) ≡ none
lookup-delete_self c k d h e =
    lookup-mirror_none c (delete k d) (ground (arith, count-delete c k c d e))

module _ {D : Driver} where
  -- A client that `pull` hands out for a key that is not in use was in nobody's use before, and is
  -- from then on found under that key.
  take_client-new :
      (p : Pool D) (k : Key) (c : ℕ) (q : Pool D) (xs : List ℕ)
      → p.free ≡ xs
      → Inv p
      → take_client k xs p ≡ (ok c, q)
      → (count c (values p.used) ≡ 0) × (lookup k q.used ≡ some c)
  unfolding take_client connect lease new_client
  take_client-new p k c q (c' ∷ rest) e v h =
      ground (arith, v.once c, lookup-insert_self k c p.used)
  take_client-new p k c q [] e v h = ground (arith, v.fresh c, lookup-insert_self k c p.used)

  pull_keyed-new :
      (p : Pool D) (k : Key) (c : ℕ) (q : Pool D)
      → Inv p
      → lookup k p.used ≡ none
      → pull_keyed k p ≡ (ok c, q)
      → (count c (values p.used) ≡ 0) × (lookup k q.used ≡ some c)
  unfolding pull_keyed
  pull_keyed-new p k c q v new h = take_client-new p k c q p.free refl v (ground arith)

  -- In a pool with the invariant, as every pool has that calls reach where `push` gets no key or the
  -- client's own, `pull` without a key never hands out a client that is in use already, and the client
  -- that it hands out is in use from then on, under the new key.
  pub pull-exclusive :
      (p : Pool D) (c : ℕ) (q : Pool D)
      → Inv p
      → pull none p ≡ (ok c, q)
      → (count c (values p.used) ≡ 0) × (lookup (made (suc p.keys)) q.used ≡ some c)
  unfolding pull pull_open
  pull-exclusive p c q v h =
      pull_keyed-new (record p { keys = suc p.keys }) (made (suc p.keys)) c q (bump_keys-Inv p v)
        (v.unmade (suc p.keys) (omega arith)) (ground arith)

  pull_keyed-used :
      (p : Pool D) (k : Key) (c : ℕ) → lookup k p.used ≡ some c → pull_keyed k p ≡ (ok c, p)
  unfolding pull_keyed
  pull_keyed-used p k c h = rw (h, pull_keyed)

  pull_keyed-gives :
      (p : Pool D) (k : Key) (c : ℕ) (q : Pool D)
      → pull_keyed k p ≡ (ok c, q)
      → (lookup k q.used ≡ some c) × (q.closed ≡ p.closed)
  unfolding pull_keyed take_client connect lease new_client
  pull_keyed-gives p k c q h = ground (arith, lookup-insert_self k c p.used)

  -- `pull` with a key hands out the same client until that is pushed, and the second call changes nothing.
  pub pull_again :
      (p : Pool D) (t : Text) (c : ℕ) (q : Pool D)
      → pull (some t) p ≡ (ok c, q)
      → pull (some t) q ≡ (ok c, q)
  unfolding pull pull_open
  pull_again p t c q h =
      let g : (lookup (given t) q.used ≡ some c) × (q.closed ≡ p.closed) =
        pull_keyed-gives p (given t) c q (ground arith) in
      ground (arith, pull_keyed-used q (given t) c)

  -- When `pull` raises. An open pool refuses exactly a key that is not in use when no client is free and `connections_max`
  -- clients are in use.
  pub pull-refuses :
      (p : Pool D) (t : Text)
      → p.closed ≡ false
      → ((pull (some t) p).0 ≡ err too_many_connections)
        ↔ ((lookup (given t) p.used ≡ none) × (p.free ≡ []) × (p.connections_max ≤ length p.used))
  unfolding pull pull_open pull_keyed take_client connect lease new_client
  pull-refuses p t o = (λ h. (ground arith, ground arith, ground arith), λ h. ground arith)

  push-eq-push_keyed :
      (p : Pool D) (c : ℕ) (k : Key) (close : Bool)
      → p.closed ≡ false
      → lookup c p.rused ≡ some k
      → push c none close p ≡ push_keyed c k close p
  unfolding push push_found key_of
  push-eq-push_keyed p c k close o e = ground arith

  push-Pushed :
      (p : Pool D) (c : ℕ) (k : Key) (close : Bool)
      → Inv p
      → p.closed ≡ false
      → lookup c p.rused ≡ some k
      → D.disconnect_raises (p.heap c) ≡ false
      → Pushed p c k (push c none close p)
  push-Pushed p c k close v o e calm =
      subst (Pushed p c k) (sym (push-eq-push_keyed p c k close o e))
        (elim (push_keyed-Pushed c k close p v o e) [
          | inl (raising, _) ↦ absurd (ground arith)
          | inr s ↦ s
        ])

  push_unknown :
      (p : Pool D) (c : ℕ) (close : Bool)
      → p.closed ≡ false
      → lookup c p.rused ≡ none
      → push c none close p ≡ (err unkeyed_client, p)
  unfolding push push_found key_of
  push_unknown p c close o e = ground arith

  forgotten :
      (p : Pool D) (c : ℕ) (k : Key)
      → Inv p
      → lookup c p.rused ≡ some k
      → lookup c (delete c p.rused) ≡ none
  forgotten p c k v e =
      let seen : lookup c (map swap p.used) ≡ some k =
        subst (λ d. lookup c d ≡ some k) v.mirror e in
      rw (v.mirror, delete-mirror c k p.used v.distinct seen)
        (lookup-delete_self c k p.used (omega (arith, v.once c)) (key-used p c k v e))

  -- A client in use whose disconnect does not raise can be pushed, and pushing it once more raises and changes nothing, since it
  -- has no key any longer.
  pub push_twice :
      (p : Pool D) (c : ℕ) (k : Key) (close close' : Bool)
      → Inv p
      → p.closed ≡ false
      → lookup c p.rused ≡ some k
      → D.disconnect_raises (p.heap c) ≡ false
      → ((push c none close p).0 ≡ ok tt)
        × (push c none close' (push c none close p).1
            ≡ (err unkeyed_client, (push c none close p).1))
  push_twice p c k close close' v o e calm =
      let (h, s) = push-Pushed p c k close v o e calm in
      elim s [
        | inl r ↦ (
          ap (λ x. x.0) r,
          subst
              (λ (x : Result (Unit {0}) × Pool D).
                push c none close' x.1 ≡ (err unkeyed_client, x.1))
              (sym r) (push_unknown (dropped p c k h) c close' o (forgotten p c k v e)),
        )
        | inr (_, r) ↦ (
          ap (λ x. x.0) r,
          subst
              (λ (x : Result (Unit {0}) × Pool D).
                push c none close' x.1 ≡ (err unkeyed_client, x.1))
              (sym r) (push_unknown (kept p c k h) c close' o (forgotten p c k v e)),
        )
      ]

  push_keyed-kept :
      (p : Pool D) (c : ℕ) (k : Key)
      → Inv p
      → p.closed ≡ false
      → lookup c p.rused ≡ some k
      → D.connected (p.heap c) ≡ true
      → D.is_query_executing (p.heap c) ≡ false
      → length p.free < p.connections_min
      → push_keyed c k false p ≡ (ok tt, kept p c k p.heap)
  unfolding push_keyed keep_or_close stop_query free_connected forget then_do
  push_keyed-kept p c k v o e up idle room =
      ground
        (arith, has_key_of_lookup k c p.used (key-used p c k v e), has_key_of_lookup c k p.rused e)

  pull_front :
      (p : Pool D) (c : ℕ) (rest : List ℕ)
      → p.closed ≡ false
      → p.free ≡ c ∷ rest
      → lookup (made (suc p.keys)) p.used ≡ none
      → (pull none p).0 ≡ ok c
  unfolding pull pull_open pull_keyed take_client lease
  pull_front p c rest o e new = ground arith

  -- In an open pool with the invariant, a client that is in use under a key, is connected, executes no
  -- query and finds room goes back to the front of the pool: `push` without a key and without `close`
  -- returns, and the next `pull` without a key hands out the same client.
  pub pull-push :
      (p : Pool D) (c : ℕ) (k : Key)
      → Inv p
      → p.closed ≡ false
      → lookup c p.rused ≡ some k
      → D.connected (p.heap c) ≡ true
      → D.is_query_executing (p.heap c) ≡ false
      → length p.free < p.connections_min
      → ((push c none false p).0 ≡ ok tt) × ((pull none (push c none false p).1).0 ≡ ok c)
  pull-push p c k v o e up idle room =
      let r : push c none false p ≡ (ok tt, kept p c k p.heap) =
        push-eq-push_keyed p c k false o e ∙ push_keyed-kept p c k v o e up idle room in
      (
        ap (λ x. x.0) r,
        subst (λ (x : Result (Unit {0}) × Pool D). (pull none x.1).0 ≡ ok c) (sym r)
            (pull_front (kept p c k p.heap) c p.free o refl (
              lookup-delete_ne (made (suc p.keys)) k p.used (v.unmade (suc p.keys) (omega arith)))),
      )

  pub pushed-unused :
      (p : Pool D) (c : ℕ) (k : Key)
      → Inv p
      → p.closed ≡ false
      → lookup c p.rused ≡ some k
      → D.disconnect_raises (p.heap c) ≡ false
      → ((push c none false p).0 ≡ ok tt) × (lookup c (push c none false p).1.rused ≡ none)
  pushed-unused p c k v o e calm =
      let (h, s) = push-Pushed p c k false v o e calm in
      elim s [
        | inl r ↦ (
          ap (λ x. x.0) r,
          subst (λ (x : Result (Unit {0}) × Pool D). lookup c x.1.rused ≡ none) (sym r)
              (forgotten p c k v e),
        )
        | inr (_, r) ↦ (
          ap (λ x. x.0) r,
          subst (λ (x : Result (Unit {0}) × Pool D). lookup c x.1.rused ≡ none) (sym r)
              (forgotten p c k v e),
        )
      ]

  get_client-eq-push :
      (p : Pool D) (key : Option Text) (c : ℕ) (q : Pool D) (body : ℕ → Pool D → Pool D)
      → pull key p ≡ (ok c, q)
      → get_client key body p ≡ push c none false (body c q)
  unfolding get_client
  get_client-eq-push p key c q body e = ground arith

  -- The context manager hands a client out, and once its body is done it returns and the client is not
  -- in use any more. The body leaves the pool open, with its invariant, and the client in use; and
  -- disconnecting the client does not raise.
  pub get_client-returns :
      (p : Pool D) (key : Option Text) (c : ℕ) (k : Key) (q : Pool D) (body : ℕ → Pool D → Pool D)
      → pull key p ≡ (ok c, q)
      → Inv (body c q)
      → (body c q).closed ≡ false
      → lookup c (body c q).rused ≡ some k
      → D.disconnect_raises ((body c q).heap c) ≡ false
      → ((get_client key body p).0 ≡ ok tt) × (lookup c (get_client key body p).1.rused ≡ none)
  get_client-returns p key c k q body e v o known calm =
      rw (get_client-eq-push p key c q body e) (pushed-unused (body c q) c k v o known calm)
