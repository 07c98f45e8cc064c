-- ===== src/Models/Compiler.antt =====
-- Statements on queries, clickhouse_backend/models/sql/compiler.py: EXPLAIN and SETTINGS, which the
-- compilers share. The statements are in the modules below.
pub mod Select
pub mod Insert
pub mod Update
use django_clickhouse_backen.Prelude.{
  ℕ, Bool, true, false, not, ◌&&◌, ◌||◌, Option, none, some, List, [], ◌∷◌, ◌++◌, map, any, Text,
  codes, join, is_space, ◌==◌, ◌≡◌, refl, ap, arith, if◌then◌else◌,
}
use django_clickhouse_backen.Backend.Operations.{Error, Result, explain_query, settings_sql}
use django_clickhouse_backen.Models.Fragments.{Fragment}

pub data Exception : Type 0 where
  value_error : Error → Exception
  not_supported not_implemented empty_result_set type_error field_error invalid_system_clock
        waiting :
      Exception

pub data Outcome {ℓ} (A : Type ℓ) : Type ℓ where
  done : A → Outcome A
  raised : Exception → Outcome A

infixl 5 ◌>>=◌
abbrev pub ◌>>=◌ {ℓ κ} : {A : Type ℓ} {B : Type κ} → Outcome A → (A → Outcome B) → Outcome B
done a >>= f = f a
raised x >>= f = raised x

abbrev pub of_result {ℓ} : {A : Type ℓ} → Result A → Outcome A
of_result (Result.ok a) = done a
of_result (Result.value_error x) = raised (value_error x)

-- The truth value of a text.
abbrev pub is_empty : Text → Bool
is_empty [] = true
is_empty (c ∷ t) = false

-- sql.lstrip()
pub lstrip : Text → Text
lstrip [] = []
lstrip (c ∷ t) = let rest = lstrip t in if is_space c then rest else c ∷ t

-- ExplainInfo, with the truth values of the options.
pub record ExplainInfo : Type 0 where
  pub format : Option Text
  pub type_name : Option Text
  pub options : List (Text × Bool)

module _ {P : Type 0} where
  pub with_explain : Text × Text → Fragment P → Fragment P
  unfolding lstrip
  with_explain (prefix, suffix) (sql, params) =
      let explained = prefix ++ (codes " " ++ lstrip sql) in
      if is_empty suffix then (explained, params) else (explained ++ (codes " " ++ suffix), params)

  pub add_explain_sql : Option ExplainInfo → Fragment P → Outcome (Fragment P)
  unfolding with_explain
  add_explain_sql none f = done f
  add_explain_sql (some info) f =
      of_result (explain_query info.format info.type_name info.options) >>= λ e.
      done (with_explain e f)

  -- The settings of the query, and the names of those that the server has.
  pub add_settings_sql : List Text → List (Text × P) → Fragment P → Outcome (Fragment P)
  add_settings_sql known [] f = done f
  add_settings_sql known (s ∷ settings) (sql, params) =
      of_result (settings_sql known (s ∷ settings)) >>= λ r.
      done (sql ++ (codes " " ++ r.0), params ++ r.1)

pub bind-done {ℓ κ} :
    {A : Type ℓ} {B : Type κ}
    → (o : Outcome A) (next : A → Outcome B) (b : B) → (o >>= next) ≡ done b
    → (a : A) × (o ≡ done a) × (next a ≡ done b)
bind-done (done a) next b h = (a, refl, h)
bind-done (raised x) next b h = ground arith

pub done_inj {ℓ} : {A : Type ℓ} → (a b : A) → done a ≡ done b → a ≡ b
done_inj a b h = ground arith

pub of_result-done {ℓ} :
    {A : Type ℓ} → (r : Result A) (a : A) → of_result r ≡ done a → r ≡ Result.ok a
of_result-done (Result.ok b) a h = ap Result.ok (done_inj b a h)
of_result-done (Result.value_error x) a h = ground arith
