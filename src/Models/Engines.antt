-- ===== src/Models/Engines.antt =====
-- Table engines, clickhouse_backend/models/engines.py. Django's Func, which takes the expressions
-- and checks `arity`, is a parameter.
pub mod Accepts
pub mod Replicated
mod Examples
use django_clickhouse_backen.Prelude.{
  ℕ, Bool, true, false, not, ◌&&◌, ◌||◌, Option, none, some, List, [], ◌∷◌, ◌++◌, map, any, length,
  take, drop, Text, codes, same, ltb, ◌==◌, if◌then◌else◌,
}
use django_clickhouse_backen.Models.Settings.{
  Error, type_error, value_error, assertion_error, Result, ok, raised, then_do, Setting,
  SettingTypes, normalize, merge_tree_settings, distributed_settings,
}

-- An argument: None, a string, Django's Value of a string, or any other object, known by a number.
pub data Argument : Type 0 where
  null : Argument
  name : Text → Argument
  value : Text → Argument
  object : ℕ → Argument

-- a == b
abbrev pub arg_same : Argument → Argument → Bool
arg_same null null = true
arg_same (name s) (name t) = same s t
arg_same (value s) (value t) = same s t
arg_same (object m) (object n) = m == n
arg_same _ _ = false

abbrev pub args_same : List Argument → List Argument → Bool
args_same [] [] = true
args_same (a ∷ as') (b ∷ bs) = arg_same a b && args_same as' bs
args_same _ _ = false

abbrev pub value_if_string : Argument → Argument
value_if_string null = null
value_if_string (name t) = value t
value_if_string (value t) = value t
value_if_string (object n) = object n

-- Django's Func.__init__: the source expressions, or none for the TypeError of a wrong `arity`.
pub record Func : Type 0 where
  pub init : Option ℕ → List Argument → Option (List Argument)

-- The classes, of which the first seven have a replicated one as well.
pub data Family : Type 0 where
  merge_tree replacing summing aggregating collapsing versioned_collapsing graphite : Family

abbrev pub arity : Family → Option ℕ
arity merge_tree = some 0
arity replacing = none
arity summing = none
arity aggregating = some 0
arity collapsing = some 1
arity versioned_collapsing = some 2
arity graphite = none

abbrev pub max_arity : Family → Option ℕ
max_arity replacing = some 2
max_arity _ = none

-- order_by, primary_key or partition_by as given: None, a string or another object that is not
-- iterable, or an iterable.
pub data Key : Type 0 where
  absent : Key
  single : Argument → Key
  iterable : List Argument → Key

pub record Keys : Type 0 where
  pub order_by : Key
  pub partition_by : Key
  pub primary_key : Key

pub record KeyTuples : Type 0 where
  pub order_by : Option (List Argument)
  pub partition_by : Option (List Argument)
  pub primary_key : Option (List Argument)

abbrev pub as_tuple : Key → Option (List Argument)
as_tuple absent = none
as_tuple (single a) = some (a ∷ [])
as_tuple (iterable as') = some as'

abbrev pub is_null : Argument → Bool
is_null null = true
is_null (name t) = false
is_null (value t) = false
is_null (object n) = false

pub has_null : Option (List Argument) → Bool
has_null none = false
has_null (some as') = any is_null as'

-- self.order_by[: len(self.primary_key)] != self.primary_key, where both are given
pub not_prefix : Option (List Argument) → Option (List Argument) → Bool
not_prefix (some order_by) (some primary_key) =
    not (args_same (take (length primary_key) order_by) primary_key)
not_prefix (some order_by) none = false
not_prefix none primary_key = false

pub is_absent : Key → Bool
is_absent absent = true
is_absent (single a) = false
is_absent (iterable as') = false

-- BaseMergeTree.__init__ up to the call of Engine.__init__
pub check_keys : Keys → Result KeyTuples
unfolding has_null not_prefix is_absent
check_keys k =
    if is_absent k.order_by && is_absent k.primary_key
    then raised assertion_error
    else if has_null (as_tuple k.order_by)
    then raised value_error
    else if has_null (as_tuple k.primary_key)
    then raised value_error
    else if has_null (as_tuple k.partition_by)
    then raised value_error
    else if not_prefix (as_tuple k.order_by) (as_tuple k.primary_key)
    then raised value_error
    else ok (record {
      order_by = as_tuple k.order_by;
      partition_by = as_tuple k.partition_by;
      primary_key = as_tuple k.primary_key;
    })

pub record Engine : Type 0 where
  pub source_expressions : List Argument
  pub settings : List (Text × Setting)

pub too_many : Option ℕ → ℕ → Bool
too_many none n = false
too_many (some max) n = ltb max n

abbrev pub or_type_error {ℓ} : {A : Type ℓ} → Option A → Result A
or_type_error none = raised type_error
or_type_error (some a) = ok a

-- Engine.__init__, for the class's arity, max_arity and setting_types
pub engine_init :
    Func
    → Option ℕ
    → Option ℕ
    → SettingTypes
    → List Argument
    → List (Text × Setting)
    → Result Engine
unfolding too_many
engine_init F arity max types expressions settings =
    if too_many max (length expressions)
    then raised type_error
    else then_do (normalize types settings) (λ normalized.
      then_do (or_type_error (F.init arity expressions))
        (λ sources. ok (record { source_expressions = sources; settings = normalized })))

pub record MergeTree : Type 0 where
  pub engine : Engine
  pub keys : KeyTuples

pub base_init : Func → Family → List Argument → Keys → List (Text × Setting) → Result MergeTree
unfolding check_keys engine_init
base_init F c expressions keys settings = then_do (check_keys keys) (λ tuples.
    then_do (engine_init F (arity c) (max_arity c) merge_tree_settings expressions settings)
      (λ e. ok (record { engine = e; keys = tuples })))

-- The constructor of a class of the family; GraphiteMergeTree takes one argument.
pub plain_init : Func → Family → List Argument → Keys → List (Text × Setting) → Result MergeTree
unfolding base_init
plain_init F graphite (config_section ∷ []) keys settings =
    base_init F graphite (value_if_string config_section ∷ []) keys settings
plain_init F graphite [] keys settings = raised type_error
plain_init F graphite (a ∷ b ∷ rest) keys settings = raised type_error
plain_init F c expressions keys settings = base_init F c expressions keys settings

abbrev pub prepend : List Argument → MergeTree → MergeTree
prepend front t = record t {
  engine = record (t.engine) { source_expressions = front ++ t.engine.source_expressions };
}

-- ReplicatedMixin.__init__, with `other_parameters` for the class that it is mixed into
pub replicated_init :
    Func → Family → List Argument → List Argument → Keys → List (Text × Setting) → Result MergeTree
unfolding plain_init
replicated_init F c parameters other_parameters keys settings =
    if length parameters == 0 || length parameters == 2
    then then_do (plain_init F c other_parameters keys settings)
        (λ t. ok (prepend (map value_if_string parameters) t))
    else raised type_error

pub record Distributed : Type 0 where
  pub engine : Engine
  pub cluster : Argument
  pub database : Argument
  pub table : Argument

-- The expressions that Distributed.__init__ passes on; a list of two elements at most past the
-- first three is a sharding key and a policy name.
pub distributed_init : Func → List Argument → List (Text × Setting) → Result Distributed
unfolding engine_init
distributed_init F (cluster ∷ database ∷ table ∷ rest) settings =
    let front = value_if_string cluster ∷ value_if_string database ∷ value_if_string table ∷ [] in
    let build : List Argument → Result Distributed = λ back.
      then_do (engine_init F none none distributed_settings (front ++ back) settings)
        (λ e. ok (record { engine = e; cluster = cluster; database = database; table = table })) in
    elim rest [
      | [] ↦ build []
      | sharding_key ∷ more ↦ elim more [
        | [] ↦ build (sharding_key ∷ [])
        | policy_name ∷ others ↦ elim others [
          | [] ↦ build (sharding_key ∷ value_if_string policy_name ∷ [])
          | _ ∷ _ ↦ raised type_error
        ]
      ]
    ]
distributed_init F _ settings = raised type_error
