-- ===== src/Backend/Schema/Alter/Order.antt =====
-- In which order a column is altered.
use django_clickhouse_backen.Prelude.{◌≡◌, true, List, [], ◌∷◌, Text, same, ◌⊎◌, if◌then◌else◌}
use django_clickhouse_backen.Backend.Schema.{
  Change, modify_type, modify_default, remove_default, Ddl, alter_column, update_nulls,
  rename_column,
}

module _ {V : Type 0} where
  -- The type that the changes give a column is nullable where it may hold nulls.
  pub KeepsNulls : List (Change V) → Type 0
  KeepsNulls [] = Unit
  KeepsNulls (modify_type column type_name null ∷ changes) = (null ≡ true) × KeepsNulls changes
  KeepsNulls (modify_default column default values ∷ changes) = KeepsNulls changes
  KeepsNulls (remove_default column ∷ changes) = KeepsNulls changes

  -- The column of a table, which renamings change, may hold nulls: none of the statements makes a
  -- column NOT NULL before one has updated the nulls of that column to that default.
  pub Ordered : Text → Text → Text × List V → List (Ddl V) → Type 0
  Ordered table column value [] = Unit
  Ordered table column value (update_nulls t c default values ∷ ds) =
      ((t ≡ table) × (c ≡ column) × ((default, values) ≡ value)) ⊎ Ordered table column value ds
  Ordered table column value (alter_column t changes ∷ ds) =
      KeepsNulls changes × Ordered table column value ds
  Ordered table column value (rename_column t old_column new_column ∷ ds) =
      Ordered table (if same old_column column then new_column else column) value ds
  Ordered table column value (d ∷ ds) = Ordered table column value ds
