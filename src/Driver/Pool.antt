-- ===== src/Driver/Pool.antt =====
-- The connection pool, clickhouse_backend/driver/pool.py. A client is known by its number, which
-- stands for the object and its `id`; the state of its connection is looked up in `heap`. What a
-- connection is belongs to clickhouse_driver, so it is a parameter. The lock makes each method one
-- step. The proofs are in the modules below.
pub mod Mirror
pub mod Invariant
pub mod Release
pub mod History
pub mod Leases
pub mod Closing
mod Examples
use django_clickhouse_backen.Prelude.{
  ℕ, zero, suc, ◌+◌, ◌≡◌, Bool, true, false, not, ◌&&◌, ◌||◌, Option, none, some, List, [], ◌∷◌,
  ◌++◌, length, ltb, leb, ◌==◌, if◌then◌else◌, Text, same, same_iff, map, arith, ◌↔◌,
}
use django_clickhouse_backen.Prelude.Dict.{Eq, nat_eq, Dict, lookup, has_key, insert, delete}

-- clickhouse_driver's side of a client: a new one, `disconnect()`, `connection.is_query_executing`
-- and `connection.connected`. `disconnect` gives the connection after the call, also where it raises,
-- which is for it to say. A connection that is closed stays closed.
pub record Driver : Type 1 where
  pub Conn : Type 0
  pub create : ℕ → Conn
  pub disconnect : Conn → Conn
  pub is_query_executing : Conn → Bool
  pub connected : Conn → Bool
  pub disconnect_raises : Conn → Bool
  pub disconnect_closes :
      (c : Conn) → disconnect_raises c ≡ false → connected (disconnect c) ≡ false
  pub disconnect_closed : (c : Conn) → connected c ≡ false → connected (disconnect c) ≡ false

-- A key is one that `_get_key` made, or a string that the caller gave.
pub data Key : Type 0 where
  made : ℕ → Key
  given : Text → Key

abbrev pub key_same : Key → Key → Bool
key_same (made m) (made n) = m == n
key_same (made m) (given t) = false
key_same (given s) (made n) = false
key_same (given s) (given t) = same s t

pub key_same_iff : (j k : Key) → (key_same j k ≡ true) ↔ (j ≡ k)
key_same_iff (made m) (made n) = ground arith
key_same_iff (made m) (given t) = ground arith
key_same_iff (given s) (made n) = ground arith
key_same_iff (given s) (given t) = ground (arith, same_iff s t)

instance abbrev pub key_eq : Eq Key
key_eq = record { beq = key_same; beq_iff = key_same_iff }

pub data Error : Type 0 where
  pool_closed too_many_connections unkeyed_client key_error disconnect_failed : Error

pub data Result {ℓ} (A : Type ℓ) : Type ℓ where
  ok : A → Result A
  err : Error → Result A

-- A function with one value changed: an assignment to an object's attribute.
pub set_at {ℓ} : {A : Type ℓ} → (ℕ → A) → ℕ → A → ℕ → A
set_at f i a j = if i == j then a else f j

module _ (D : Driver) where
  open D use {Conn, create, disconnect, is_query_executing, connected}

  -- The head of `free` is the end of the list `_pool`, where `append` and `pop` work.
  pub record Pool : Type 0 where
    pub connections_min : ℕ
    pub connections_max : ℕ
    pub closed : Bool
    pub free : List ℕ
    pub used : Dict Key ℕ
    pub rused : Dict ℕ Key
    pub keys : ℕ
    pub heap : ℕ → Conn
    pub next : ℕ

-- list(self._used.values())
abbrev pub values : Dict Key ℕ → List ℕ
values d = map (λ kv. kv.1) d

module _ {D : Driver} where
  open D use {Conn, create, disconnect, is_query_executing, connected, disconnect_raises}

  -- self._used[key] = client; self._rused[id(client)] = key
  unfoldable pub lease : Key → ℕ → Pool D → Pool D
  lease key client p = record p {
    used = insert key client p.used;
    rused = insert client key p.rused;
  }

  unfoldable pub new_client : Pool D → Pool D
  new_client p = record p { heap = set_at p.heap p.next (create p.next); next = suc p.next }

  unfoldable pub connect : Option Key → Pool D → ℕ × Pool D
  unfolding lease new_client
  connect (some key) p = (p.next, lease key p.next (new_client p))
  connect none p = (p.next, record (new_client p) { free = p.next ∷ p.free })

  -- for _ in range(connections_min): self._connect()
  unfoldable pub fill : ℕ → Pool D → Pool D
  fill zero p = p
  fill (suc n) p = fill n (connect none p).1

  -- ClickhousePool.__init__
  unfoldable pub init : ℕ → ℕ → Pool D
  unfolding fill
  init connections_min connections_max = fill connections_min (record {
    connections_min = connections_min;
    connections_max = connections_max;
    closed = false;
    free = [];
    used = [];
    rused = [];
    keys = 0;
    heap = create;
    next = 0;
  })

  -- `pull` once the key is known to be unused.
  unfoldable pub take_client : Key → List ℕ → Pool D → Result ℕ × Pool D
  unfolding connect lease
  take_client key (client ∷ rest) p = (ok client, lease key client (record p { free = rest }))
  take_client key [] p =
      if leb p.connections_max (length p.used)
      then (err too_many_connections, p)
      else (let (client, q) = connect (some key) p in (ok client, q))

  unfoldable pub pull_keyed : Key → Pool D → Result ℕ × Pool D
  unfolding take_client
  pull_keyed key p = elim (lookup key p.used) [
    | some client ↦ (ok client, p)
    | none ↦ take_client key p.free p
  ]

  -- The rest of `pull`, on an open pool.
  unfoldable pub pull_open : Option Text → Pool D → Result ℕ × Pool D
  unfolding pull_keyed
  pull_open (some key) p = pull_keyed (given key) p
  pull_open none p = pull_keyed (made (suc p.keys)) (record p { keys = suc p.keys })

  unfoldable pub pull : Option Text → Pool D → Result ℕ × Pool D
  pull key p = if p.closed then (err pool_closed, p) else pull_open key p

  pub disconnect_client : ℕ → Pool D → Pool D
  unfolding set_at
  disconnect_client client p = record p { heap = set_at p.heap client (disconnect (p.heap client)) }

  -- client.disconnect(), which may raise
  pub try_disconnect : ℕ → Pool D → Result (Unit {0}) × Pool D
  unfolding disconnect_client
  try_disconnect client p = (
    if disconnect_raises (p.heap client) then err disconnect_failed else ok tt,
    disconnect_client client p,
  )

  -- An exception ends the method.
  pub then_do :
      Result (Unit {0}) × Pool D
      → (Pool D → Result (Unit {0}) × Pool D)
      → Result (Unit {0}) × Pool D
  then_do (err e, p) next = (err e, p)
  then_do (ok u, p) next = next p

  -- A client that is executing a query is closed before it can be reused.
  pub stop_query : ℕ → Pool D → Result (Unit {0}) × Pool D
  unfolding try_disconnect
  stop_query client p =
      if is_query_executing (p.heap client) then try_disconnect client p else (ok tt, p)

  pub free_connected : ℕ → Pool D → Pool D
  free_connected client p =
      if connected (p.heap client) then record p { free = client ∷ p.free } else p

  -- Back to the pool, if it has room and the connection can be used again.
  pub keep_or_close : ℕ → Bool → Pool D → Result (Unit {0}) × Pool D
  unfolding stop_query free_connected then_do try_disconnect
  keep_or_close client close p =
      if ltb (length p.free) p.connections_min && not close
      then then_do (stop_query client p) (λ q. (ok tt, free_connected client q))
      else try_disconnect client p

  -- del self._used[key]; del self._rused[id(client)]
  pub forget : ℕ → Key → Pool D → Result (Unit {0}) × Pool D
  forget client key p =
      if has_key key p.used
      then (let q = record p { used = delete key p.used } in
          if has_key client p.rused
          then (ok tt, record q { rused = delete client p.rused })
          else (err key_error, q))
      else (err key_error, p)

  pub push_keyed : ℕ → Key → Bool → Pool D → Result (Unit {0}) × Pool D
  unfolding keep_or_close forget then_do
  push_keyed client key close p =
      then_do (keep_or_close client close p)
        (λ q. if not q.closed || has_key key q.used then forget client key q else (ok tt, q))

  push_found : Option Key → ℕ → Bool → Pool D → Result (Unit {0}) × Pool D
  push_found (some key) client close p = push_keyed client key close p
  push_found none client close p = (err unkeyed_client, p)

  -- The key of the client, if the caller did not give it.
  key_of : Option Text → ℕ → Pool D → Option Key
  key_of (some key) client p = some (given key)
  key_of none client p = lookup client p.rused

  pub push : ℕ → Option Text → Bool → Pool D → Result (Unit {0}) × Pool D
  unfolding push_found key_of
  push client key close p =
      if p.closed then (err pool_closed, p) else push_found (key_of key client p) client close p

  -- Each client is disconnected, and an exception of that is passed over.
  pub disconnect_all : List ℕ → Pool D → Pool D
  unfolding try_disconnect
  disconnect_all [] p = p
  disconnect_all (client ∷ clients) p = disconnect_all clients (try_disconnect client p).1

  -- The state beside a result is that after the call, also where it raises. The order in which the
  -- clients are closed is not observed.
  pub cleanup : Pool D → Result (Unit {0}) × Pool D
  unfolding disconnect_all
  cleanup p =
      if p.closed
      then (err pool_closed, p)
      else (ok tt, record (disconnect_all (p.free ++ values p.used) p) { closed = true })

  -- The context manager, round a body that may use the pool as well and return or raise.
  pub get_client : Option Text → (ℕ → Pool D → Pool D) → Pool D → Result (Unit {0}) × Pool D
  get_client key body p =
      let (r, q) = pull key p in
      elim r [ err e ↦ (err e, q) | ok client ↦ push client none false (body client q) ]
