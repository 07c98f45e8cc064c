-- ===== src/Models/Compiler/Update/Examples.antt =====
-- An UPDATE of a distributed table.
use django_clickhouse_backen.Prelude.{
  ℕ, ◌≡◌, refl, false, some, List, [], ◌∷◌, All, count, length, codes, join, starts_with, same,
  contains,
}
use django_clickhouse_backen.Backend.Operations.{settings_sql}
use django_clickhouse_backen.Models.Fragments.{Fragment, percent, text, fill, Plain}
use django_clickhouse_backen.Models.Compiler.{done, add_settings_sql}
use django_clickhouse_backen.Models.Compiler.Select.{sql}
use django_clickhouse_backen.Models.Compiler.Update.{
  Assignment, expression, plain, Target, update_as_sql,
}
use django_clickhouse_backen.Models.Compiler.Update.Counted.{
  Counted, OnePlace, AssignedCounted, ClauseCounted,
}
use django_clickhouse_backen.Models.Compiler.Update.Placeholders.{
  AssignmentCounted, EngineCounted, TargetCounted, update_as_sql-Counted,
}

abbrev target : Target ℕ
target = record {
  base_table = codes "all";
  engine = some (record { cluster = codes "main"; table = codes "part" });
  where_clause = sql (codes "all.id = %s", 7 ∷ []);
  known_settings = codes "mutations_sync" ∷ [];
  setting_info = (codes "mutations_sync", 1) ∷ [];
}

abbrev assignments : List (Assignment ℕ)
assignments =
    record { column = codes "a"; placeholder = codes "%s"; value = plain (some 5) }
    ∷ record {
      column = codes "b";
      placeholder = codes "%s";
      value = expression false false (codes "all.b + %s", 2 ∷ []);
    }
    ∷ []

abbrev updated : Fragment ℕ
updated = (
  codes
      "ALTER TABLE part ON CLUSTER main UPDATE a = %s, b = b + %s WHERE id = %s SETTINGS mutations_sync=%s",
  5 ∷ 2 ∷ 7 ∷ 1 ∷ [],
)

run : update_as_sql (λ t. t) target assignments ≡ done updated
unfolding update_as_sql add_settings_sql settings_sql codes join starts_with same contains text fill
run = refl

target-TargetCounted : TargetCounted (λ t. t) target
unfolding TargetCounted EngineCounted ClauseCounted Counted codes
target-TargetCounted = (refl, (refl, refl), refl, (refl, tt))

assignments-Counted : All (AssignmentCounted (λ t. t)) assignments
unfolding AssignmentCounted OnePlace AssignedCounted Counted Plain codes
assignments-Counted =
    ((refl, ([], [], refl, refl, refl), tt), ((refl, ([], [], refl, refl, refl), refl), tt))

update_as_sql-Counted_example : count percent updated.0 ≡ length updated.1
update_as_sql-Counted_example =
    update_as_sql-Counted (λ t. t) target assignments updated target-TargetCounted
      assignments-Counted run
