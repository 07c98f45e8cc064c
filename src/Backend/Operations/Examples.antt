-- ===== src/Backend/Operations/Examples.antt =====
-- The theorems about the operations at small inputs.
use django_clickhouse_backen.Prelude.{
  ℕ, ◌≡◌, refl, Bool, true, none, some, List, [], ◌∷◌, count, contains, Text, codes, same, join,
}
use django_clickhouse_backen.Backend.Operations.{
  ok, upper, explain_query, explain_option, settings_sql,
}
use django_clickhouse_backen.Backend.Operations.Explain.{percent}

abbrev json : Text
json = codes "json"

abbrev options : List (Text × Bool)
options = (json, true) ∷ []

explained :
    explain_query (some json) none options ≡ ok (codes "EXPLAIN json=1", codes "FORMAT JSON")
unfolding explain_query explain_option codes same contains join upper
explained = refl

abbrev known : List Text
known = codes "max_threads" ∷ codes "mutations_sync" ∷ []

abbrev two : List (Text × ℕ)
two = (codes "mutations_sync", 1) ∷ (codes "max_threads", 4) ∷ []

abbrev values : List ℕ
values = 1 ∷ 4 ∷ []

abbrev clause : Text
clause = codes "SETTINGS mutations_sync=%s, max_threads=%s"

two_settings : settings_sql known two ≡ ok (clause, values)
unfolding settings_sql codes same contains join
two_settings = refl

no_percent :
    (count percent (codes "max_threads") ≡ 0)
    × ((count percent (codes "mutations_sync") ≡ 0) × Unit {0})
unfolding codes
no_percent = (refl, (refl, tt))
