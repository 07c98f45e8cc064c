-- ===== src/Migrations/Running/Examples.antt =====
-- The theorems about running a migration at a toy of Django: a project state is the list of the
-- models' clusters by name, and the database the list of the operations that were done.
use django_clickhouse_backen.Prelude.{
  ◌≡◌, ◌↔◌, refl, Bool, true, false, Option, none, some, List, [], ◌∷◌, Text, codes, same, subst,
  ap,
}
use django_clickhouse_backen.Prelude.Dict.{text_eq, Dict, lookup}
use django_clickhouse_backen.Migrations.Connection.{Connection}
use django_clickhouse_backen.Migrations.Running.{
  Django, Error, ok, on_model, Editor, Operation, Migration, apply, unapply, forwards, on_remote,
  skips, guarded, note_no_op,
}
use django_clickhouse_backen.Migrations.Running.Forwards.{
  answer, run, DoneElsewhere, steps, final_state, apply-run,
}
use django_clickhouse_backen.Migrations.Running.Undo.{Undone, unapply-apply}

abbrev toy : Django
toy = record {
  State = Dict Text (Option Text);
  Database = List Text;
  cluster_of = λ s app n. lookup n s;
  exists_on_replicas = λ cluster table app n deleted d. true;
}

abbrev drop_first : List Text → List Text
drop_first [] = []
drop_first (x ∷ xs) = xs

abbrev create_model : Text → Option Text → Bool → Operation toy
create_model n cluster reversible = record {
  kind = on_model n;
  describe = n;
  reduces_to_sql = true;
  reversible = reversible;
  state_forwards = λ app s. (n, cluster) ∷ s;
  database_forwards = λ app old new e. (none, record e { database = n ∷ e.database });
  database_backwards = λ app new old e. (none, record e { database = drop_first e.database });
}

-- Two models, the first of which is on a cluster, where a node has created it already.
abbrev two_models : Bool → Migration toy
two_models reversible = record {
  app_label = codes "app";
  name = codes "0001";
  operations =
      create_model (codes "a") (some (codes "c")) true
      ∷ create_model (codes "b") none reversible
      ∷ [];
}

abbrev connection : Connection
connection = record {
  is_clickhouse = true;
  distributed_migrations = false;
  migration_cluster = some (codes "c");
  has_replicas = none;
}

abbrev start : Editor toy
start = record { collected_sql = []; database = [] }

abbrev finish : Editor toy
finish = (apply connection (two_models true) [] false start).1

abbrev final : Dict Text (Option Text)
final = (codes "b", none) ∷ (codes "a", some (codes "c")) ∷ []

abbrev m : Migration toy
m = two_models true

apply-run_example :
    (done : Bool) × ((done ≡ true) ↔ DoneElsewhere connection m start)
    × (apply connection m [] false start
        ≡ answer
            (final_state m.app_label m.operations [])
            (run m.app_label done (steps m.app_label m.operations []) start))
apply-run_example = apply-run connection m [] start

applied : apply connection m [] false start ≡ (ok final, finish)
unfolding apply forwards on_remote skips guarded note_no_op lookup codes same
applied = refl

same_answer : on_remote connection m true finish ≡ on_remote connection m false start
unfolding on_remote
same_answer = refl

create_model-Undone :
    (n : Text) (cluster : Option Text) (reversible : Bool)
    → Undone (codes "app") (create_model n cluster reversible)
create_model-Undone n cluster reversible old new e e' h =
    subst
      (λ (x : Editor toy).
        Path (Option Error × Editor toy) (none, record x { database = drop_first x.database })
          (none, e))
      (ap (λ (d : Option Error × Editor toy). d.1) h) refl

unapply-apply_example : unapply connection m [] false finish ≡ (ok [], start)
unapply-apply_example =
    unapply-apply connection m [] final start finish refl
      (
        create_model-Undone (codes "a") (some (codes "c")) true,
        (create_model-Undone (codes "b") none true, tt),
      )
      same_answer applied
