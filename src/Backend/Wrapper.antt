-- ===== src/Backend/Wrapper.antt =====
-- The sharing of connections: DatabaseWrapper.get_new_connection of
-- clickhouse_backend/backend/base.py. A connection is a number, which stands for the object; the lock
-- makes a sequence of the threads' calls. The parameters of a connection are compared by the instance.
pub mod Sharing
pub mod Again
mod Examples
use django_clickhouse_backen.Prelude.{
  ℕ, suc, Bool, true, false, Option, none, some, List, [], ◌∷◌, Text, if◌then◌else◌,
}
use django_clickhouse_backen.Prelude.Dict.{Eq, Dict, lookup, insert, text_eq}

-- _clickhouse_connections, and the number of the next connection
pub record Connections (P : Type 0) : Type 0 where
  pub connections : Dict Text (P × ℕ)
  pub next : ℕ

abbrev pub no_connections : {P : Type 0} → Connections P
no_connections = record { connections = []; next = 0 }

-- A call by the wrapper of an alias, and whether Database.connect would succeed
pub record Call (P : Type 0) : Type 0 where
  pub alias : Text
  pub params : P
  pub connects : Bool

module _ {P : Type 0} ⦃e : Eq P⦄ where
  -- conn = Database.connect(**conn_params), where an exception leaves the dictionary as it was
  unfoldable pub connect : Text → P → Bool → Connections P → Option ℕ × Connections P
  connect alias params connects s =
      if connects
      then (
        some s.next,
        record { connections = insert alias (params, s.next) s.connections; next = suc s.next },
      )
      else (none, s)

  unfoldable pub use_known :
      Option (P × ℕ) → Text → P → Bool → Connections P → Option ℕ × Connections P
  unfolding connect
  use_known none alias params connects s = connect alias params connects s
  use_known (some (known, c)) alias params connects s =
      if e.beq params known then (some c, s) else connect alias params connects s

  unfoldable pub get_new_connection : Call P → Connections P → Option ℕ × Connections P
  unfolding use_known
  get_new_connection call s =
      use_known (lookup call.alias s.connections) call.alias call.params call.connects s

  -- The answers of a sequence of calls, and what they leave
  unfoldable pub answers : List (Call P) → Connections P → List (Call P × Option ℕ)
  unfolding get_new_connection
  answers [] s = []
  answers (call ∷ calls) s =
      let (answer, s') = get_new_connection call s in (call, answer) ∷ answers calls s'

  unfoldable pub after : List (Call P) → Connections P → Connections P
  unfolding get_new_connection
  after [] s = s
  after (call ∷ calls) s = after calls (get_new_connection call s).1
