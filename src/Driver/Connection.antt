-- ===== src/Driver/Connection.antt =====
-- Connections and cursors on the pool, clickhouse_backend/driver/connection.py. A method that raises
-- returns what it has changed before. The hosts that the connection hands to its clients are left out.
pub mod Cursors
mod Examples
use django_clickhouse_backen.Prelude.{ℕ, Bool, true, false, Option, none, some, if◌then◌else◌}
use django_clickhouse_backen.Driver.Pool.{Driver, Pool, Error, Result, ok, err, pull, push, cleanup}

pub data Raised : Type 0 where
  interface_error : Raised
  pool_error : Error → Raised

pub data Answer {ℓ} (A : Type ℓ) : Type ℓ where
  returned : A → Answer A
  raises : Raised → Answer A

-- A cursor with its client; `closed` is _state == CURSOR_CLOSED. The settings of a query are
-- columnar and use_numpy.
pub record Cursor : Type 0 where
  pub client : ℕ
  pub closed : Bool
  pub columnar : Option Bool
  pub use_numpy : Bool

pub answer {ℓ} : {A : Type ℓ} → Result A → Answer A
answer (ok a) = returned a
answer (err e) = raises (pool_error e)

pub new_cursor : Bool → Result ℕ → Answer Cursor
new_cursor use_numpy (ok c) =
    returned (record { client = c; closed = false; columnar = none; use_numpy = use_numpy })
new_cursor use_numpy (err e) = raises (pool_error e)

pub or_else {ℓ} : {A : Type ℓ} → Option A → A → A
or_else none a = a
or_else (some b) a = b

-- set_query_execution_args round a body that returns; where the body raises, nothing is restored.
pub set_query_execution_args : Option Bool → Option Bool → (Cursor → Cursor) → Cursor → Cursor
unfolding or_else
set_query_execution_args columnar use_numpy body cur =
    let given = record cur {
      columnar = or_else (map_some columnar) cur.columnar;
      use_numpy = or_else use_numpy cur.use_numpy;
    } in
    record (body given) { columnar = cur.columnar; use_numpy = cur.use_numpy }
  where
    map_some : Option Bool → Option (Option Bool)
    map_some none = none
    map_some (some b) = some (some b)

module _ (D : Driver) where
  pub record Connection : Type 1 where
    pub pool : Pool D
    pub is_closed : Bool

module _ {D : Driver} where
  -- Connection.cursor, for the use_numpy of the client
  pub cursor : Bool → Connection D → Answer Cursor × Connection D
  unfolding new_cursor
  cursor use_numpy conn =
      let (client, pool) = pull none conn.pool in
      if conn.is_closed
      then (raises interface_error, conn)
      else (new_cursor use_numpy client, record conn { pool = pool })

  -- Cursor.close: the state is set before the client goes back.
  pub close_cursor : Cursor → Connection D → Answer (Unit {0}) × Cursor × Connection D
  unfolding answer
  close_cursor cur conn =
      let (pushed, pool) = push cur.client none false conn.pool in
      if cur.closed
      then (returned tt, cur, conn)
      else (answer pushed, record cur { closed = true }, record conn { pool = pool })

  -- Cursor.__del__
  pub del : Cursor → Connection D → Answer (Unit {0}) × Cursor × Connection D
  unfolding close_cursor
  del cur conn = if cur.closed then (returned tt, cur, conn) else close_cursor cur conn

  pub closed_after : Connection D → Result (Unit {0}) → Pool D → Answer (Unit {0}) × Connection D
  closed_after conn (ok done) pool = (returned tt, record { pool = pool; is_closed = true })
  closed_after conn (err e) pool = (raises (pool_error e), record conn { pool = pool })

  -- Connection.close
  pub close_connection : Connection D → Answer (Unit {0}) × Connection D
  unfolding closed_after
  close_connection conn = let (done, pool) = cleanup conn.pool in closed_after conn done pool
