-- ===== src/Driver/Connection/Examples.antt =====
-- A connection with one cursor.
use django_clickhouse_backen.Prelude.{◌≡◌, refl, Bool, true, false, none, some}
use django_clickhouse_backen.Prelude.Dict.{nat_eq, lookup, insert}
use django_clickhouse_backen.Driver.Pool.{
  Driver, Pool, made, key_eq, init, connect, pull, pull_open, lease,
}
use django_clickhouse_backen.Driver.Pool.History.{here, next, pulled, Reach-init-Inv}
use django_clickhouse_backen.Driver.Connection.{returned, Cursor, Connection, close_cursor}
use django_clickhouse_backen.Driver.Connection.Cursors.{close_cursor-returns}

-- A connection is connected or not.
abbrev switch : Driver
switch = record {
  Conn = Bool;
  create = λ n. true;
  disconnect = λ c. false;
  is_query_executing = λ c. false;
  connected = λ c. c;
  disconnect_raises = λ c. false;
  disconnect_closes = λ c h. refl;
  disconnect_closed = λ c h. refl;
}

abbrev pool : Pool switch
pool = (pull none (init 1 2)).1

abbrev conn : Connection switch
conn = record { pool = pool; is_closed = false }

abbrev open_cursor : Cursor
open_cursor = record { client = 0; closed = false; columnar = none; use_numpy = false }

pool_open : conn.pool.closed ≡ false
unfolding init pull lookup insert lease connect pull_open
pool_open = refl

known : lookup 0 conn.pool.rused ≡ some (made 1)
unfolding init pull lookup insert lease connect pull_open
known = refl

close_cursor-returns_example :
    ((close_cursor open_cursor conn).0 ≡ returned tt)
    × (lookup 0 (close_cursor open_cursor conn).2.pool.rused ≡ none)
    × (close_cursor (close_cursor open_cursor conn).1 (close_cursor open_cursor conn).2
        ≡ (returned tt, (close_cursor open_cursor conn).1, (close_cursor open_cursor conn).2))
close_cursor-returns_example =
    close_cursor-returns open_cursor conn (made 1)
      (Reach-init-Inv 1 2 pool (next here (pulled none))) pool_open refl known refl
