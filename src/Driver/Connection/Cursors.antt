-- ===== src/Driver/Connection/Cursors.antt =====
-- A cursor gives its client back once.
use django_clickhouse_backen.Prelude.{◌≡◌, refl, ap, true, false, none, some}
use django_clickhouse_backen.Prelude.Dict.{lookup, nat_eq}
use django_clickhouse_backen.Driver.Pool.{Driver, Key, push}
use django_clickhouse_backen.Driver.Pool.Invariant.{Inv}
use django_clickhouse_backen.Driver.Pool.Leases.{pushed-unused}
use django_clickhouse_backen.Driver.Connection.{returned, Cursor, Connection, answer, close_cursor}

module _ {D : Driver} where
  after_close :
      (cur : Cursor) (conn : Connection D)
      → cur.closed ≡ false
      → close_cursor cur conn ≡ (
        answer (push cur.client none false conn.pool).0,
        record cur { closed = true },
        record conn { pool = (push cur.client none false conn.pool).1 },
      )
  unfolding close_cursor
  after_close cur conn h = rw h refl

  closed_already :
      (cur : Cursor) (conn : Connection D)
      → cur.closed ≡ true
      → close_cursor cur conn ≡ (returned tt, cur, conn)
  unfolding close_cursor
  closed_already cur conn h = rw h refl

  -- Closing an open cursor whose client is in use, on an open pool with the invariant, succeeds and the
  -- client is not in use any more, where disconnecting the client does not raise; closing it again changes nothing, so the client is not given back twice.
  pub close_cursor-returns :
      (cur : Cursor) (conn : Connection D) (k : Key)
      → Inv conn.pool
      → conn.pool.closed ≡ false
      → cur.closed ≡ false
      → lookup cur.client conn.pool.rused ≡ some k
      → D.disconnect_raises (conn.pool.heap cur.client) ≡ false
      → ((close_cursor cur conn).0 ≡ returned tt)
        × (lookup cur.client (close_cursor cur conn).2.pool.rused ≡ none)
        × (close_cursor (close_cursor cur conn).1 (close_cursor cur conn).2
            ≡ (returned tt, (close_cursor cur conn).1, (close_cursor cur conn).2))
  unfolding answer
  close_cursor-returns cur conn k v o unclosed known calm =
      let (done, unused) = pushed-unused conn.pool cur.client k v o known calm in
      rw (after_close cur conn unclosed) (ap answer done, unused, closed_already _ _ refl)
