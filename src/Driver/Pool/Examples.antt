-- ===== src/Driver/Pool/Examples.antt =====
-- The theorems about the pool at a small pool whose connections are Booleans: connected or not.
use Prim.Native.Nat.{max}
use django_clickhouse_backen.Prelude.{
  ℕ, suc, ◌+◌, ◌≤◌, ◌<◌, ◌≡◌, ◌↔◌, refl, Bool, true, false, Option, none, some, [], Text, arith,
  length, count, codes,
}
use django_clickhouse_backen.Prelude.Dict.{nat_eq, lookup, insert}
use django_clickhouse_backen.Driver.Pool.{
  Driver, Pool, ok, err, set_at, pool_closed, too_many_connections, made, given, key_eq, values,
  init, connect, pull, push, cleanup, get_client, pull_open, lease,
}
use django_clickhouse_backen.Driver.Pool.Invariant.{Inv, held}
use django_clickhouse_backen.Driver.Pool.History.{
  Reach, here, next, pulled, Reach-init-Inv, Reach-init-bounded,
}
use django_clickhouse_backen.Driver.Pool.Leases.{
  pull-exclusive, pull-refuses, pull-push, get_client-returns,
}
use django_clickhouse_backen.Driver.Pool.Closing.{cleanup-closes}

abbrev toy : Driver
toy = record {
  Conn = Bool;
  create = λ n. true;
  disconnect = λ c. false;
  is_query_executing = λ c. false;
  connected = λ c. c;
  disconnect_raises = λ c. false;
  disconnect_closes = λ c h. refl;
  disconnect_closed = λ c h. refl;
}

abbrev pair : Pool toy
pair = init 1 2

-- Both clients in use.
abbrev busy : Pool toy
busy = (pull none (pull none pair).1).1

busy-Reach : Reach pair busy
busy-Reach = next (next here (pulled none)) (pulled none)

Reach-init-Inv_example : Inv busy
Reach-init-Inv_example = Reach-init-Inv 1 2 busy busy-Reach

Reach-init-bounded_example : length busy.free + length busy.used ≤ max 1 2
Reach-init-bounded_example = Reach-init-bounded 1 2 busy busy-Reach

pair-Inv : Inv pair
pair-Inv = Reach-init-Inv 1 2 pair here

pulled_one : pull none pair ≡ (ok 0, (pull none pair).1)
unfolding init pull lookup insert lease connect pull_open
pulled_one = refl

pull-exclusive_example :
    (count 0 (values pair.used) ≡ 0)
    × (lookup (made (suc pair.keys)) (pull none pair).1.used ≡ some 0)
pull-exclusive_example = pull-exclusive pair 0 (pull none pair).1 pair-Inv pulled_one

abbrev name : Text
name = codes "a"

pulled_named : pull (some name) pair ≡ (ok 0, (pull (some name) pair).1)
unfolding init pull lookup insert lease connect pull_open codes
pulled_named = refl

busy_open : busy.closed ≡ false
unfolding init pull lookup insert lease connect pull_open
busy_open = refl

pull-refuses_example : ((pull (some name) busy).0 ≡ err too_many_connections) ↔ (
    (lookup (given name) busy.used ≡ none)
    × (busy.free ≡ [])
    × (busy.connections_max ≤ length busy.used))
pull-refuses_example = pull-refuses busy name busy_open

busy-Inv : Inv busy
busy-Inv = Reach-init-Inv 1 2 busy busy-Reach

busy_known : lookup 1 busy.rused ≡ some (made 2)
unfolding init pull lookup insert lease connect pull_open
busy_known = refl

busy_up : toy.connected (busy.heap 1) ≡ true
unfolding init pull lookup insert lease connect pull_open set_at
busy_up = refl

busy_room : length busy.free < busy.connections_min
unfolding init pull lookup insert lease connect pull_open
busy_room = omega arith

pull-push_example :
    ((push 1 none false busy).0 ≡ ok tt) × ((pull none (push 1 none false busy).1).0 ≡ ok 1)
pull-push_example = pull-push busy 1 (made 2) busy-Inv busy_open busy_known busy_up refl busy_room

one_known : lookup 0 (pull none pair).1.rused ≡ some (made 1)
unfolding init pull lookup insert lease connect pull_open
one_known = refl

one_open : (pull none pair).1.closed ≡ false
unfolding init pull lookup insert lease connect pull_open
one_open = refl

get_client-returns_example :
    ((get_client none (λ c p. p) pair).0 ≡ ok tt)
    × (lookup 0 (get_client none (λ c p. p) pair).1.rused ≡ none)
get_client-returns_example =
    get_client-returns pair none 0 (made 1) (pull none pair).1 (λ c p. p) pulled_one
      (Reach-init-Inv 1 2 (pull none pair).1 (next here (pulled none))) one_open one_known refl

cleanup-closes_example :
    ((cleanup busy).0 ≡ ok tt)
    × ((c : ℕ)
        → 0 < held c busy
        → toy.disconnect_raises (busy.heap c) ≡ false
        → toy.connected ((cleanup busy).1.heap c) ≡ false)
    × ((key : Option Text) → pull key (cleanup busy).1 ≡ (err pool_closed, (cleanup busy).1))
    × ((c : ℕ) (key : Option Text) (b : Bool)
        → push c key b (cleanup busy).1 ≡ (err pool_closed, (cleanup busy).1))
    × (cleanup (cleanup busy).1 ≡ (err pool_closed, (cleanup busy).1))
cleanup-closes_example = cleanup-closes busy busy_open
