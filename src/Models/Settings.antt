-- ===== src/Models/Settings.antt =====
-- The settings of a table engine, clickhouse_backend/models/engines.py: the tables of settings, the
-- checks of their values, and the loop of Engine.__init__.
pub mod Checked
use django_clickhouse_backen.Prelude.{
  ℕ, ◌≡◌, refl, arith, Bool, true, false, not, ◌&&◌, ◌||◌, Option, none, some, List, [], ◌∷◌, ◌++◌,
  map, any, length, take, drop, Text, codes, same, ltb, ◌==◌, if◌then◌else◌,
}
use django_clickhouse_backen.Prelude.Int.{ℤ, pos, negsuc, ltb_ℤ, eq_ℤ}

pub data Error : Type 0 where
  type_error value_error assertion_error : Error

pub data Result {ℓ} (A : Type ℓ) : Type ℓ where
  ok : A → Result A
  raised : Error → Result A

abbrev pub then_do {ℓ κ} : {A : Type ℓ} {B : Type κ} → Result A → (A → Result B) → Result B
then_do (ok a) next = next a
then_do (raised x) next = raised x

-- A chain that succeeds has steps that succeed.
pub then_do-ok {ℓ κ} :
    {A : Type ℓ} {B : Type κ} (r : Result A) (next : A → Result B) (b : B)
    → then_do r next ≡ ok b
    → (a : A) × (r ≡ ok a) × (next a ≡ ok b)
then_do-ok (ok a) next b h = (a, refl, h)
then_do-ok (raised x) next b h = ground arith

-- The value of a setting. A float has its floor, and whether it is a whole number; `other` stands
-- for values that have no order, such as None.
pub data Setting : Type 0 where
  int : ℤ → Setting
  bool : Bool → Setting
  float : ℤ → Bool → Setting
  str : Text → Setting
  other : Setting

-- value <= 0 and value < 0
pub at_most_0 : Setting → Result Bool
at_most_0 (int z) = ok (not (ltb_ℤ (pos 0) z))
at_most_0 (bool b) = ok (not b)
at_most_0 (float z whole) = ok (ltb_ℤ z (pos 0) || (eq_ℤ z (pos 0) && whole))
at_most_0 (str t) = raised type_error
at_most_0 other = raised type_error

pub below_0 : Setting → Result Bool
below_0 (int z) = ok (ltb_ℤ z (pos 0))
below_0 (bool b) = ok false
below_0 (float z whole) = ok (ltb_ℤ z (pos 0))
below_0 (str t) = raised type_error
below_0 other = raised type_error

abbrev pub is_int : Setting → Bool
is_int (int z) = true
is_int (bool b) = true
is_int (float z whole) = false
is_int (str t) = false
is_int other = false

abbrev pub refuse_if : Setting → Bool → Result Setting
refuse_if v b = if b then raised value_error else ok v

unfoldable pub check_positive : Setting → Result Setting
unfolding at_most_0
check_positive v = if is_int v then ok v else then_do (at_most_0 v) (refuse_if v)

unfoldable pub check_not_negative : Setting → Result Setting
unfolding below_0
check_not_negative v = if is_int v then ok v else then_do (below_0 v) (refuse_if v)

-- int(value), if it is 0 or 1
abbrev pub zero_or_one : ℤ → Result Setting
zero_or_one z = if eq_ℤ z (pos 0) || eq_ℤ z (pos 1) then ok (int z) else raised value_error

unfoldable pub check_bool : Setting → Result Setting
check_bool (int z) = zero_or_one z
check_bool (bool b) = ok (int (pos (if b then 1 else 0)))
check_bool (float z whole) = if whole then zero_or_one z else raised value_error
check_bool (str t) = raised value_error
check_bool other = raised value_error

unfoldable pub check_str : Setting → Result Setting
check_str (str t) = ok (str t)
check_str (int z) = raised value_error
check_str (bool b) = raised value_error
check_str (float z whole) = raised value_error
check_str other = raised value_error

abbrev pub SettingTypes : Type 0
SettingTypes = List ((Setting → Result Setting) × List Text)

abbrev pub merge_tree_settings : SettingTypes
merge_tree_settings =
    (
      check_positive,
      codes "index_granularity"
          ∷ codes "min_index_granularity_bytes"
          ∷ codes "merge_max_block_size"
          ∷ codes "min_bytes_for_wide_part"
          ∷ codes "min_rows_for_wide_part"
          ∷ codes "max_parts_in_total"
          ∷ codes "max_compress_block_size"
          ∷ codes "min_compress_block_size"
          ∷ codes "max_partitions_to_read"
          ∷ [],
    )
    ∷ (
      check_not_negative,
      codes "index_granularity_bytes"
          ∷ codes "min_merge_bytes_to_use_direct_io"
          ∷ codes "merge_with_ttl_timeout"
          ∷ codes "merge_with_recompression_ttl_timeout"
          ∷ codes "try_fetch_recompressed_part_timeout"
          ∷ [],
    )
    ∷ (
      check_bool,
      codes "enable_mixed_granularity_parts"
          ∷ codes "use_minimalistic_part_header_in_zookeeper"
          ∷ codes "write_final_mark"
          ∷ [],
    )
    ∷ (check_str, codes "storage_policy" ∷ [])
    ∷ []

abbrev pub distributed_settings : SettingTypes
distributed_settings =
    (check_positive, codes "monitor_sleep_time_ms" ∷ codes "monitor_max_sleep_time_ms" ∷ [])
    ∷ (
      check_not_negative,
      codes "bytes_to_throw_insert"
          ∷ codes "bytes_to_delay_insert"
          ∷ codes "max_delay_to_insert"
          ∷ [],
    )
    ∷ (
      check_bool,
      codes "fsync_after_insert"
          ∷ codes "fsync_directories"
          ∷ codes "monitor_batch_inserts"
          ∷ codes "monitor_split_batch_on_failure"
          ∷ [],
    )
    ∷ []

-- The check of the first entry that names the setting.
unfoldable pub find_check : Text → SettingTypes → Option (Setting → Result Setting)
find_check setting [] = none
find_check setting ((validate, keys) ∷ types) =
    let rest = find_check setting types in if any (same setting) keys then some validate else rest

-- One setting, before the others.
unfoldable pub accept :
    Option (Setting → Result Setting)
    → Text
    → Setting
    → Result (List (Text × Setting))
    → Result (List (Text × Setting))
accept none setting value rest = raised type_error
accept (some validate) setting value rest =
    then_do (validate value) (λ v. then_do rest (λ others. ok ((setting, v) ∷ others)))

-- The loop over the settings, which are in the order given.
unfoldable pub normalize : SettingTypes → List (Text × Setting) → Result (List (Text × Setting))
unfolding find_check accept
normalize types [] = ok []
normalize types ((setting, value) ∷ settings) =
    accept (find_check setting types) setting value (normalize types settings)
