-- ===== src/Models/Engines/Replicated.antt =====
-- A replicated engine against the plain one of its family.
use django_clickhouse_backen.Prelude.{
  ◌≡◌, ◌⊎◌, inl, inr, refl, ap, sym, List, [], ◌∷◌, ◌++◌, map, length, Text, arith,
}
use django_clickhouse_backen.Models.Settings.{Result, ok, raised, Setting, then_do, then_do-ok}
use django_clickhouse_backen.Models.Engines.{
  Argument, value_if_string, Keys, Func, Family, MergeTree, plain_init, replicated_init, prepend,
}

replicated_init-split :
    (F : Func) (c : Family) (parameters others : List Argument) (k : Keys)
    (settings : List (Text × Setting)) (t : MergeTree)
    → replicated_init F c parameters others k settings ≡ ok t
    → ((length parameters ≡ 0) ⊎ (length parameters ≡ 2))
      × (then_do
            (plain_init F c others k settings)
            (λ u. ok (prepend (map value_if_string parameters) u))
          ≡ ok t)
unfolding replicated_init
replicated_init-split F c [] others k settings t h = (inl refl, h)
replicated_init-split F c (a ∷ []) others k settings t h = (inr (ground arith), ground arith)
replicated_init-split F c (a ∷ b ∷ []) others k settings t h = (inr refl, h)
replicated_init-split F c (a ∷ b ∷ d ∷ rest) others k settings t h =
    (inr (ground arith), ground arith)

-- A replicated engine is only made where its plain engine is made from the other parameters and
-- there are no replication parameters or two of them; it then has the plain engine's keys and
-- settings, and its source expressions behind the replication parameters.
pub replicated_init-plain :
    (F : Func) (c : Family) (parameters others : List Argument) (k : Keys)
    (settings : List (Text × Setting)) (t : MergeTree)
    → replicated_init F c parameters others k settings ≡ ok t
    → ((length parameters ≡ 0) ⊎ (length parameters ≡ 2))
      × (u : MergeTree) × (plain_init F c others k settings ≡ ok u)
      × (t.keys ≡ u.keys)
      × (t.engine.settings ≡ u.engine.settings)
      × (t.engine.source_expressions
          ≡ map value_if_string parameters ++ u.engine.source_expressions)
replicated_init-plain F c parameters others k settings t h =
    let (two, g) = replicated_init-split F c parameters others k settings t h in
    let (u, p, q) =
      then_do-ok (plain_init F c others k settings)
        (λ u. ok (prepend (map value_if_string parameters) u)) t g in
    let e = ap (λ (r : Result MergeTree). elim r [ ok x ↦ x | raised x ↦ t ]) (sym q) in
    (
      two,
      u,
      p,
      ap (λ (x : MergeTree). x.keys) e,
      ap (λ (x : MergeTree). x.engine.settings) e,
      ap (λ (x : MergeTree). x.engine.source_expressions) e,
    )
