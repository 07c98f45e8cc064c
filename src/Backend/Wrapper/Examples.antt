-- ===== src/Backend/Wrapper/Examples.antt =====
-- Two wrappers, the first of which changes its parameters.
use django_clickhouse_backen.Prelude.{
  ℕ, ◌≡◌, inr, refl, true, false, some, List, [], ◌∷◌, All, Text, codes, same,
}
use django_clickhouse_backen.Prelude.Dict.{nat_eq, lookup, insert}
use django_clickhouse_backen.Backend.Wrapper.{
  Call, no_connections, get_new_connection, answers, after,
}
use django_clickhouse_backen.Backend.Wrapper.Sharing.{AnsweredTo, answers-AnsweredTo}
use django_clickhouse_backen.Backend.Wrapper.Again.{Apart, get_new_connection-after}

abbrev call : Text → ℕ → Call ℕ
call alias params = record { alias = alias; params = params; connects = true }

abbrev calls : List (Call ℕ)
calls = call (codes "other") 1 ∷ call (codes "default") 1 ∷ []

answered :
    answers
      (call (codes "default") 1
        ∷ call (codes "other") 1
        ∷ call (codes "default") 1
        ∷ call (codes "default") 2
        ∷ [])
      no_connections
    ≡ (call (codes "default") 1, some 0)
      ∷ (call (codes "other") 1, some 1)
      ∷ (call (codes "default") 1, some 0)
      ∷ (call (codes "default") 2, some 2)
      ∷ []
unfolding answers lookup insert codes same
answered = refl

answers-AnsweredTo_example :
    (owner : ℕ → Text × ℕ) × All
      (AnsweredTo owner)
      (answers (call (codes "default") 1 ∷ calls) no_connections)
answers-AnsweredTo_example = answers-AnsweredTo (call (codes "default") 1) calls

first : (get_new_connection (call (codes "default") 1) no_connections).0 ≡ some 0
unfolding get_new_connection lookup
first = refl

calls-Apart : All (Apart (call (codes "default") 1)) calls
calls-Apart = (inr refl, (inr refl, tt))

get_new_connection-after_example :
    (get_new_connection
      (record (call (codes "default") 1) { connects = false })
      (after calls (get_new_connection (call (codes "default") 1) no_connections).1)).0
    ≡ some 0
get_new_connection-after_example =
    get_new_connection-after (call (codes "default") 1) 0 no_connections calls false first
      calls-Apart
