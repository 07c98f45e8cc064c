-- ===== src/Models/Query/Examples.antt =====
-- A query with one setting, and what is made of it.
use django_clickhouse_backen.Prelude.{ℕ, ◌≡◌, refl, true, false, some, [], ◌∷◌, Text, codes, arith}
use django_clickhouse_backen.Prelude.Dict.{Dict, lookup}
use django_clickhouse_backen.Models.Query.{Store, query, Query, settings, prewhere}
use django_clickhouse_backen.Models.Query.Persistent.{
  Reach, here, then_step, sets, adds, seen_settings, seen_conditions, OnceEach, Updated, Reach-same,
  settings-Updated,
}

-- Values and conditions are numbers.
abbrev store : Store ℕ ℕ
store = record {
  settings_at = λ r. (codes "max_threads", 1) ∷ [];
  conditions_at = λ r. 5 ∷ [];
  next = 2;
}

abbrev original : Query
original = record {
  class_of = query;
  setting_info = some 0;
  prewhere = some 1;
  is_sliced = false;
  is_combined = false;
}

abbrev given : Dict Text ℕ
given = (codes "max_threads", 8) ∷ []

abbrev later : Store ℕ ℕ
later = (prewhere true (some 6) original (settings given original store).1).1

reached : Reach store later
reached = then_step (then_step here (sets given original)) (adds true (some 6) original)

Reach-same_example :
    (seen_settings (some 0) later ≡ seen_settings (some 0) store)
    × (seen_conditions (some 1) later ≡ seen_conditions (some 1) store)
Reach-same_example = Reach-same original {s = store} {t = later} (omega arith) (omega arith) reached

settings-Updated_example :
    Updated given (seen_settings (some 0) store) (
      seen_settings
        (settings given original store).0.setting_info
        (settings given original store).1)
    × (seen_conditions (settings given original store).0.prewhere (settings given original store).1
        ≡ seen_conditions (some 1) store)
unfolding OnceEach lookup
settings-Updated_example = settings-Updated original given store refl (refl, tt) (omega arith)
