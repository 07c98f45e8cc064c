-- ===== src/Models/Engines/Examples.antt =====
-- The theorems about engines at ReplacingMergeTree("v", order_by=("a", "b"), primary_key="a"), with a
-- Func that keeps its expressions.
use django_clickhouse_backen.Prelude.{
  ◌≡◌, ◌↔◌, refl, true, none, some, List, [], ◌∷◌, map, Text, codes, same,
}
use django_clickhouse_backen.Prelude.Int.{pos}
use django_clickhouse_backen.Models.Settings.{
  ok, Setting, int, bool, normalize, accept, find_check, check_bool, merge_tree_settings,
}
use django_clickhouse_backen.Models.Engines.{
  Argument, name, value_if_string, absent, single, iterable, Keys, KeyTuples, check_keys, Func,
  replacing, MergeTree, plain_init, replicated_init, prepend,
}
use django_clickhouse_backen.Models.Engines.Accepts.{
  Valid, Tuples, check_keys-Valid, plain_init-Valid,
}

abbrev keeping : Func
keeping = record { init = λ arity expressions. some expressions }

abbrev keys : Keys
keys = record {
  order_by = iterable (name (codes "a") ∷ name (codes "b") ∷ []);
  partition_by = absent;
  primary_key = single (name (codes "a"));
}

abbrev tuples : KeyTuples
tuples = record {
  order_by = some (name (codes "a") ∷ name (codes "b") ∷ []);
  partition_by = none;
  primary_key = some (name (codes "a") ∷ []);
}

check_keys-Valid_example : ((t : KeyTuples) × (check_keys keys ≡ ok t)) ↔ Valid keys
check_keys-Valid_example = check_keys-Valid keys

abbrev given : List (Text × Setting)
given = (codes "write_final_mark", bool true) ∷ []

abbrev kept : List (Text × Setting)
kept = (codes "write_final_mark", int (pos 1)) ∷ []

abbrev version : List Argument
version = name (codes "v") ∷ []

abbrev built : MergeTree
built = record { engine = record { source_expressions = version; settings = kept }; keys = tuples }

builds : plain_init keeping replacing version keys given ≡ ok built
unfolding plain_init normalize accept find_check check_bool same codes
builds = refl

plain_init-Valid_example : Valid keys × Tuples keys tuples
plain_init-Valid_example = plain_init-Valid keeping replacing version keys given built builds

abbrev path_and_replica : List Argument
path_and_replica = name (codes "/p") ∷ name (codes "r") ∷ []

abbrev replicated : MergeTree
replicated = prepend (map value_if_string path_and_replica) built

replicates : replicated_init keeping replacing path_and_replica version keys given ≡ ok replicated
unfolding replicated_init normalize accept find_check check_bool same codes
replicates = refl

normalizes : normalize merge_tree_settings given ≡ ok kept
unfolding normalize accept find_check check_bool same codes
normalizes = refl
