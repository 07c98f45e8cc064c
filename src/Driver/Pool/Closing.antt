-- ===== src/Driver/Pool/Closing.antt =====
-- What `cleanup` leaves behind.
use django_clickhouse_backen.Prelude.{
  ℕ, ◌<◌, ◌≡◌, ◌⊎◌, inl, inr, sym, subst, Bool, true, false, Option, List, [], ◌∷◌, ◌++◌, Text,
  arith, count, count-append,
}
use django_clickhouse_backen.Driver.Pool.{
  Driver, Pool, ok, err, try_disconnect, pool_closed, values, pull, push, cleanup, disconnect_all,
  disconnect_client, set_at,
}
use django_clickhouse_backen.Driver.Pool.Invariant.{held}

module _ {D : Driver} where
  -- A closed connection stays closed while others are closed, and each one in the list gets closed
  -- whose disconnect does not raise.
  disconnect_all-closes :
      (cs : List ℕ) (p : Pool D) (c : ℕ)
      → ((0 < count c cs) × (D.disconnect_raises (p.heap c) ≡ false))
        ⊎ (D.connected (p.heap c) ≡ false)
      → D.connected ((disconnect_all cs p).heap c) ≡ false
  unfolding disconnect_all try_disconnect disconnect_client set_at
  disconnect_all-closes [] p c (inl (h, _)) = absurd (omega arith)
  disconnect_all-closes [] p c (inr h) = h
  disconnect_all-closes (d ∷ cs) p c h =
      disconnect_all-closes cs (disconnect_client d p) c
        (ground (arith, D.disconnect_closes (p.heap d), D.disconnect_closed (p.heap d)))

  cleanup-heap :
      (p : Pool D)
      → p.closed ≡ false
      → (cleanup p).1.heap ≡ (disconnect_all (p.free ++ values p.used) p).heap
  unfolding cleanup
  cleanup-heap p o = ground arith

  cleanup-closed : (p : Pool D) → (cleanup p).1.closed ≡ true
  unfolding cleanup
  cleanup-closed p = ground arith

  pull_closed :
      (p : Pool D) (key : Option Text) → p.closed ≡ true → pull key p ≡ (err pool_closed, p)
  unfolding pull
  pull_closed p key h = ground arith

  push_closed :
      (p : Pool D) (c : ℕ) (key : Option Text) (b : Bool)
      → p.closed ≡ true
      → push c key b p ≡ (err pool_closed, p)
  unfolding push
  push_closed p c key b h = ground arith

  cleanup_closed : (p : Pool D) → p.closed ≡ true → cleanup p ≡ (err pool_closed, p)
  unfolding cleanup
  cleanup_closed p h = ground arith

  cleanup-returns : (p : Pool D) → p.closed ≡ false → (cleanup p).0 ≡ ok tt
  unfolding cleanup
  cleanup-returns p o = ground arith

  -- `cleanup` of an open pool returns and closes the pool, also where disconnecting clients raises, and
  -- every client that it holds, free or in use, whose disconnect does not raise is disconnected; from
  -- then on `pull`, `push` and `cleanup` raise and change nothing.
  pub cleanup-closes :
      (p : Pool D)
      → p.closed ≡ false
      → ((cleanup p).0 ≡ ok tt)
        × ((c : ℕ)
            → 0 < held c p
            → D.disconnect_raises (p.heap c) ≡ false
            → D.connected ((cleanup p).1.heap c) ≡ false)
        × ((key : Option Text) → pull key (cleanup p).1 ≡ (err pool_closed, (cleanup p).1))
        × ((c : ℕ) (key : Option Text) (b : Bool)
            → push c key b (cleanup p).1 ≡ (err pool_closed, (cleanup p).1))
        × (cleanup (cleanup p).1 ≡ (err pool_closed, (cleanup p).1))
  cleanup-closes p o = (
    cleanup-returns p o,
    λ c h calm.
        subst (λ (f : ℕ → D.Conn). D.connected (f c) ≡ false) (sym (cleanup-heap p o))
          (disconnect_all-closes (p.free ++ values p.used) p c
            (inl (omega (arith, count-append c p.free (values p.used)), calm))),
    λ key. pull_closed (cleanup p).1 key (cleanup-closed p),
    λ c key b. push_closed (cleanup p).1 c key b (cleanup-closed p),
    cleanup_closed (cleanup p).1 (cleanup-closed p),
  )
