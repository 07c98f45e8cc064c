-- ===== src/Backend/Schema/Examples.antt =====
-- A column that becomes NOT NULL.
use django_clickhouse_backen.Prelude.{
  ℕ, ◌≡◌, refl, true, false, none, some, [], ◌∷◌, Text, codes, ◌==◌, same, starts_with,
}
use django_clickhouse_backen.Backend.Schema.{
  Field, Model, alter_column, update_nulls, modify_type, modify_default, remove_default, nullable,
}
use django_clickhouse_backen.Backend.Schema.Alter.{Django, alter_statements}
use django_clickhouse_backen.Backend.Schema.Edit.{
  statement, plain, Editor, References, delete_model,
}
use django_clickhouse_backen.Backend.Schema.Edit.Forgets.{Forgets}

abbrev django : Django ℕ
django = record {
  same_value = λ v w. v == w;
  db_default_sql = λ v. (codes "now()", []);
  check_sql = λ name check. check;
  none_value = 0;
  other_actions = [];
  rels_to_update = [];
}

abbrev table : Model
table = record { db_table = codes "t"; cluster = some (codes "main"); distributed = false }

abbrev nullable_field : Field ℕ
nullable_field = record {
  column = codes "a";
  db_type = some (codes "Int8");
  null = true;
  has_default = false;
  default = none;
  db_default = none;
  db_comment = [];
  check = none;
}

abbrev filled_field : Field ℕ
filled_field = record nullable_field { null = false; has_default = true; default = some 3 }

-- A default for new rows, the update, NOT NULL, and the default is dropped.
statements :
    alter_statements django table nullable_field filled_field
    ≡ alter_column (codes "t") (
        modify_type (codes "a") (codes "Int8") true
        ∷ modify_default (codes "a") (codes "%s") (3 ∷ [])
        ∷ [])
      ∷ update_nulls (codes "t") (codes "a") (codes "%s") (3 ∷ [])
      ∷ alter_column (codes "t") (modify_type (codes "a") (codes "Int8") false ∷ [])
      ∷ alter_column (codes "t") (remove_default (codes "a") ∷ [])
      ∷ []
unfolding alter_statements codes same starts_with nullable
statements = refl

-- A deferred statement is the table that it refers to.
abbrev references : References Text
references = record {
  table = λ t s. same s t;
  column = λ t c s. same s t;
  rename_table = λ old new s. new;
  rename_column = λ t old new s. s;
}

abbrev editor : Editor Text ℕ
editor = record {
  executed = [];
  deferred_sql = statement (codes "t") ∷ statement (codes "u") ∷ plain (codes "ALTER TABLE t") ∷ [];
}

abbrev through : Model
through = record { db_table = codes "t_u"; cluster = none; distributed = false }

deferred :
    (delete_model references (through ∷ []) table editor).deferred_sql
    ≡ statement (codes "u") ∷ plain (codes "ALTER TABLE t") ∷ []
unfolding delete_model codes same
deferred = refl
