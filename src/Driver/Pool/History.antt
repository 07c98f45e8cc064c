-- ===== src/Driver/Pool/History.antt =====
-- The histories of a pool: calls in any order from `__init__`, with the connections changing in
-- between as the clients use them.
use django_clickhouse_backen.Prelude.{
  ℕ, zero, suc, ◌+◌, ◌≤◌, ◌<◌, ◌≡◌, refl, ◌∙◌, Bool, true, Option, none, ◌++◌, Text, arith, length,
  if_cases,
}
use Prim.Native.Nat.{max}
use django_clickhouse_backen.Prelude.Dict.{lookup}
use django_clickhouse_backen.Driver.Pool.{
  Driver, Pool, Result, values, connect, fill, init, pull, pull_open, pull_keyed, take_client,
  lease, push, push_found, push_keyed, forget, keep_or_close, stop_query, free_connected,
  disconnect_client, try_disconnect, then_do, cleanup, set_at, new_client,
}
use django_clickhouse_backen.Driver.Pool.Invariant.{limit, Inv, KeepsInv, pull-Inv}
use django_clickhouse_backen.Driver.Pool.Release.{OwnKey, push-Inv, disconnect_all-Rewired}

module _ {D : Driver} where
  -- One call, or a change of a connection from outside.
  pub data Step (p : Pool D) : Pool D → Type 0 where
    pulled : (key : Option Text) → Step p (pull key p).1
    pushed :
        (c : ℕ) (key : Option Text) (close : Bool) → OwnKey key c p → Step p (push c key close p).1
    cleaned : Step p (cleanup p).1
    executed : (c : ℕ) (s : D.Conn) → Step p (record p { heap = set_at p.heap c s })

  pub data Reach (p : Pool D) : Pool D → Type 0 where
    here : Reach p p
    next : {q r : Pool D} → Reach p q → Step q r → Reach p r

  rewire-Inv :
      (p : Pool D) (h : ℕ → D.Conn) (b : Bool) → Inv p → Inv (record p { heap = h; closed = b })
  rewire-Inv p h b v = record {
    mirror = v.mirror;
    distinct = v.distinct;
    once = v.once;
    fresh = v.fresh;
    unmade = v.unmade;
    bounded = v.bounded;
  }

  cleanup-Inv : (p : Pool D) → Inv p → KeepsInv (cleanup p)
  unfolding cleanup
  cleanup-Inv p v =
      if_cases KeepsInv p.closed (λ _. v)
        λ _.
          let (h, e) = disconnect_all-Rewired (p.free ++ values p.used) p in
          rw e (rewire-Inv p h true v)

  Step-Inv : {p q : Pool D} → Step p q → Inv p → Inv q
  Step-Inv {p} (pulled key) v = pull-Inv p key v
  Step-Inv {p} (pushed c key close own) v = push-Inv p c key close v own
  Step-Inv {p} cleaned v = cleanup-Inv p v
  Step-Inv {p} (executed c s) v = rewire-Inv p (set_at p.heap c s) p.closed v

  pub Reach-Inv : {p q : Pool D} → Inv p → Reach p q → Inv q
  Reach-Inv v here = v
  Reach-Inv v (next r s) = Step-Inv s (Reach-Inv v r)

  connect-Inv :
      (p : Pool D) → Inv p → length p.free + length p.used < limit p → Inv (connect none p).1
  unfolding connect new_client
  connect-Inv p v room = record {
    mirror = v.mirror;
    distinct = v.distinct;
    once = λ c. ground (arith, v.once c, v.fresh c);
    fresh = λ c h. ground (arith, v.fresh c);
    unmade = v.unmade;
    bounded = omega arith;
  }

  fill-Inv :
      (n : ℕ) (p : Pool D) → Inv p → length p.free + length p.used + n ≤ limit p → Inv (fill n p)
  unfolding fill connect
  fill-Inv zero p v h = v
  fill-Inv (suc n) p v h =
      fill-Inv n (connect none p).1 (connect-Inv p v (omega arith))
        (unfold new_client in omega arith)

  pub init-Inv : (least most : ℕ) → Inv (init {D = D} least most)
  unfolding init lookup
  init-Inv least most =
      fill-Inv least _
        (record {
          mirror = refl;
          distinct = tt;
          once = λ c. omega arith;
          fresh = λ c h. omega arith;
          unmade = λ n h. refl;
          bounded = omega arith;
        })
        (omega arith)

  pull-limit : (key : Option Text) (p : Pool D) → limit (pull key p).1 ≡ limit p
  unfolding pull pull_open pull_keyed take_client connect lease new_client
  pull-limit key p = ground arith

  push-limit :
      (c : ℕ) (key : Option Text) (close : Bool) (p : Pool D)
      → limit (push c key close p).1 ≡ limit p
  unfolding push push_found push_keyed forget keep_or_close stop_query free_connected
      disconnect_client try_disconnect then_do
  push-limit c key close p = ground arith

  cleanup-limit : (p : Pool D) → limit (cleanup p).1 ≡ limit p
  unfolding cleanup
  cleanup-limit p =
      if_cases (λ (r : Result (Unit {0}) × Pool D). limit r.1 ≡ limit p) p.closed (λ _. refl)
        λ _. let (h, e) = disconnect_all-Rewired (p.free ++ values p.used) p in rw e

  Reach-limit : {p q : Pool D} → Reach p q → limit q ≡ limit p
  Reach-limit here = refl
  Reach-limit (next r s) = Step-limit s ∙ Reach-limit r
    where
      Step-limit : {p q : Pool D} → Step p q → limit q ≡ limit p
      Step-limit {p} (pulled key) = pull-limit key p
      Step-limit {p} (pushed c key close own) = push-limit c key close p
      Step-limit {p} cleaned = cleanup-limit p
      Step-limit {p} (executed c s) = refl

  fill-limit : (n : ℕ) (p : Pool D) → limit (fill n p) ≡ limit p
  unfolding fill connect new_client
  fill-limit zero p = refl
  fill-limit (suc n) p = fill-limit n (connect none p).1

init-limit : (D : Driver) (least most : ℕ) → limit (init {D = D} least most) ≡ max least most
unfolding init
init-limit D least most = fill-limit least _

module _ {D : Driver} where
  -- In every pool that calls of `pull`, `push` and `cleanup` reach from `__init__`, where a caller
  -- of `push` gives no key or the client's own, the two dictionaries mirror each other, no client is
  -- held twice, no key is in use twice, and keys that are still to be made are not in use.
  pub Reach-init-Inv : (least most : ℕ) (p : Pool D) → Reach (init least most) p → Inv p
  Reach-init-Inv least most p r = Reach-Inv (init-Inv least most) r

  -- In every such pool the free clients and those in use are together at most as many as the
  -- larger of `connections_min` and `connections_max`.
  pub Reach-init-bounded :
      (least most : ℕ) (p : Pool D)
      → Reach (init least most) p
      → length p.free + length p.used ≤ max least most
  Reach-init-bounded least most p r =
      omega (arith, (Reach-init-Inv least most p r).bounded, Reach-limit r, init-limit D least most)
