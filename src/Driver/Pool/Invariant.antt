-- ===== src/Driver/Pool/Invariant.antt =====
-- What every call keeps: the two dictionaries mirror each other, no client is held twice, and the
-- pool never owns more clients than its limits allow.
use Prim.Native.Nat.{max}
use django_clickhouse_backen.Prelude.{
  ℕ, suc, ◌+◌, ◌≤◌, ◌<◌, ◌≡◌, ◌≢◌, refl, ap, inl, inr, Option, none, some, List, [], ◌∷◌, ◌++◌, map,
  arith, length, count, length-append, leb, if_cases, Option-cases, Text,
}
use django_clickhouse_backen.Prelude.Dict.{nat_eq, lookup, insert, insert_new}
use django_clickhouse_backen.Driver.Pool.{
  Driver, Key, made, given, key_eq, values, Pool, Result, lease, new_client, connect, take_client,
  pull_keyed, pull_open, pull,
}
use django_clickhouse_backen.Driver.Pool.Mirror.{
  swap, DistinctKeys, lookup-mirror_none, lookup-add, DistinctKeys-add, count-add, map-swap-add,
}

module _ {D : Driver} where
  -- How many times the pool holds a client, free or in use.
  abbrev pub held : ℕ → Pool D → ℕ
  held c p = count c p.free + count c (values p.used)

  abbrev pub limit : Pool D → ℕ
  limit p = max p.connections_min p.connections_max

  pub record Inv (p : Pool D) : Type 0 where
    pub mirror : p.rused ≡ map swap p.used
    pub distinct : DistinctKeys p.used
    pub once : (c : ℕ) → held c p ≤ 1
    pub fresh : (c : ℕ) → p.next ≤ c → held c p ≡ 0
    pub unmade : (n : ℕ) → p.keys < n → lookup (made n) p.used ≡ none
    pub bounded : length p.free + length p.used ≤ limit p

  abbrev pub KeepsInv {ℓ} : {A : Type ℓ} → Result A × Pool D → Type 0
  KeepsInv r = Inv r.1

  -- A client that the pool does not hold goes out under a key that is not in use.
  lease-Inv :
      (p : Pool D) (k : Key) (c : ℕ)
      → Inv p
      → lookup k p.used ≡ none
      → held c p ≡ 0
      → c < p.next
      → ((n : ℕ) → p.keys < n → k ≢ made n)
      → length p.free + length p.used < limit p
      → Inv (lease k c p)
  unfolding lease
  lease-Inv p k c v new out known old room =
      let grown : insert k c p.used ≡ p.used ++ (k, c) ∷ [] = insert_new k c p.used new in
      let not_rused : lookup c p.rused ≡ none =
        rw v.mirror (lookup-mirror_none c p.used (omega arith)) in
      record {
        mirror =
            rw (insert_new c k p.rused not_rused, grown, map-swap-add k c p.used)
              (ap (λ x. x ++ (c, k) ∷ []) v.mirror);
        distinct = rw grown (DistinctKeys-add k c p.used new v.distinct);
        once = λ i. rw grown (ground (arith, count-add i k c p.used, v.once i));
        fresh = λ i h. rw grown (ground (arith, count-add i k c p.used, v.fresh i h));
        unmade = λ n h. rw grown (lookup-add (made n) k c p.used (old n h) (v.unmade n h));
        bounded = rw grown (omega (arith, length-append p.used ((k, c) ∷ [])));
      }

  -- Only these parts of the pool matter.
  pub bump_keys-Inv : (p : Pool D) → Inv p → Inv (record p { keys = suc p.keys })
  bump_keys-Inv p v = record {
    mirror = v.mirror;
    distinct = v.distinct;
    once = v.once;
    fresh = v.fresh;
    unmade = λ n h. v.unmade n (omega arith);
    bounded = v.bounded;
  }

  pub new_client-Inv : (p : Pool D) → Inv p → Inv (new_client p)
  unfolding new_client
  new_client-Inv p v = record {
    mirror = v.mirror;
    distinct = v.distinct;
    once = v.once;
    fresh = λ c h. v.fresh c (omega arith);
    unmade = v.unmade;
    bounded = v.bounded;
  }

  pop_free-Inv :
      (p : Pool D) (c : ℕ) (rest : List ℕ)
      → p.free ≡ c ∷ rest
      → Inv p
      → Inv (record p { free = rest })
  pop_free-Inv p c rest e v = record {
    mirror = v.mirror;
    distinct = v.distinct;
    once = λ i. ground (arith, v.once i);
    fresh = λ i h. ground (arith, v.fresh i h);
    unmade = v.unmade;
    bounded = ground (arith, v.bounded);
  }

  take_client-Inv :
      (p : Pool D) (k : Key) (xs : List ℕ)
      → p.free ≡ xs
      → Inv p
      → lookup k p.used ≡ none
      → ((n : ℕ) → p.keys < n → k ≢ made n)
      → Inv (take_client k xs p).1
  unfolding take_client connect
  take_client-Inv p k (c ∷ rest) e v new old =
      lease-Inv (record p { free = rest }) k c (pop_free-Inv p c rest e v) new
        (ground (arith, v.once c)) (ground (arith, v.fresh c)) old (ground (arith, v.bounded))
  take_client-Inv p k [] e v new old =
      if_cases KeepsInv (leb p.connections_max (length p.used)) (λ _. v)
        λ h.
          lease-Inv (new_client p) k p.next (new_client-Inv p v) (unfold new_client in new)
            (unfold new_client in v.fresh p.next (omega arith)) (unfold new_client in omega arith)
            (unfold new_client in old) (unfold new_client in ground arith)

  pull_keyed-Inv :
      (p : Pool D) (k : Key) → Inv p → ((n : ℕ) → p.keys < n → k ≢ made n) → Inv (pull_keyed k p).1
  unfolding pull_keyed
  pull_keyed-Inv p k v old = elim (Option-cases (lookup k p.used)) [
    | inl e ↦ rw (e, pull_keyed) (take_client-Inv p k p.free refl v e old)
    | inr (c, e) ↦ rw (e, pull_keyed) v
  ]

  pull_open-Inv : (p : Pool D) (key : Option Text) → Inv p → Inv (pull_open key p).1
  unfolding pull_open
  pull_open-Inv p (some t) v = pull_keyed-Inv p (given t) v (λ n _ e. cc)
  pull_open-Inv p none v =
      pull_keyed-Inv (record p { keys = suc p.keys }) (made (suc p.keys)) (bump_keys-Inv p v)
        (λ n h e. ground arith)

  -- `pull` keeps the invariant, whether it returns or raises.
  pub pull-Inv : (p : Pool D) (key : Option Text) → Inv p → Inv (pull key p).1
  unfolding pull
  pull-Inv p key v = if_cases KeepsInv p.closed (λ _. v) λ _. pull_open-Inv p key v
