-- ===== src/Snowflake/Answers.antt =====
-- When `get_id` raises, and when its wait ends.
use django_clickhouse_backen.Prelude.{
  ℕ, zero, suc, ◌+◌, ◌%◌, ◌<◌, ◌==◌, ◌≡◌, ◌≢◌, subst, true, none, arith, if_cases,
}
use django_clickhouse_backen.Prelude.Int.{ℤ, pos, ltb_ℤ, eq_ℤ}
use django_clickhouse_backen.Snowflake.{
  Worker, Clock, Outcome, invalid_system_clock, waiting, til_next_millis, finish, wrapped, get_id,
}

-- Enough fuel for a wait that a later reading ends.
til_next_millis-ends :
    (clock : Clock) (fuel at k : ℕ) (last : ℤ)
    → ltb_ℤ last (pos (clock (at + k))) ≡ true
    → k < fuel
    → til_next_millis clock fuel at last ≢ none
unfolding til_next_millis
til_next_millis-ends clock zero at k last h lt = absurd (omega arith)
til_next_millis-ends clock (suc fuel) at zero last h lt =
    let now : ltb_ℤ last (pos (clock at)) ≡ true =
      subst (λ (n : ℕ). ltb_ℤ last (pos (clock n)) ≡ true) (omega arith) h in
    rw now (λ e. cc)
til_next_millis-ends clock (suc fuel) at (suc k) last h lt =
    let moved : ltb_ℤ last (pos (clock (suc at + k))) ≡ true =
      subst (λ (n : ℕ). ltb_ℤ last (pos (clock n)) ≡ true) (omega arith) h in
    if_cases (λ r. r ≢ none) (ltb_ℤ last (pos (clock at))) (λ _ e. cc)
      (λ _. til_next_millis-ends clock fuel (suc at) k last moved (omega arith))

wrapped-ends :
    (clock : Clock) (fuel : ℕ) (w : Worker) (at : ℕ)
    → til_next_millis clock fuel at w.last_timestamp ≢ none
    → (wrapped clock fuel w at).0 ≢ waiting
unfolding wrapped finish
wrapped-ends clock fuel w at h = ground arith

abbrev Answered : Outcome × Worker × ℕ → Type 0
Answered r = r.0 ≢ waiting

finish-Answered : (w : Worker) (t at : ℕ) → Answered (finish w t at)
unfolding finish
finish-Answered w t at e = cc

raise-Answered : (w : Worker) (at : ℕ) → Answered (invalid_system_clock, w, at)
raise-Answered w at e = cc

-- If within `fuel` readings after its own the clock shows a time later than the last timestamp,
-- then `get_id` issues an id or raises: it does not go on waiting.
pub get_id-ends :
    (clock : Clock) (fuel : ℕ) (w : Worker) (at k : ℕ)
    → ltb_ℤ w.last_timestamp (pos (clock (suc at + k))) ≡ true
    → k < fuel
    → (get_id clock fuel w at).0 ≢ waiting
unfolding get_id
get_id-ends clock fuel w at k h lt =
    if_cases Answered (ltb_ℤ (pos (clock at)) w.last_timestamp) (λ _. raise-Answered w (suc at))
      λ _.
        if_cases Answered (eq_ℤ (pos (clock at)) w.last_timestamp)
          (λ _.
            if_cases Answered ((w.sequence + 1) % 4096 == 0)
              (λ _.
                wrapped-ends clock fuel (record w { sequence = (w.sequence + 1) % 4096 }) (suc at)
                  (til_next_millis-ends clock fuel (suc at) k w.last_timestamp h lt))
              (λ _.
                finish-Answered (record w { sequence = (w.sequence + 1) % 4096 }) (clock at)
                  (suc at)))
          (λ _. finish-Answered (record w { sequence = 0 }) (clock at) (suc at))

wrapped-accepts :
    (clock : Clock) (fuel : ℕ) (w : Worker) (at : ℕ)
    → (wrapped clock fuel w at).0 ≢ invalid_system_clock
unfolding wrapped finish
wrapped-accepts clock fuel w at = ground arith

-- `get_id` raises `InvalidSystemClock` exactly when the clock shows less than the last timestamp, and then the worker is
-- unchanged.
pub get_id-rejects :
    (clock : Clock) (fuel : ℕ) (w : Worker) (at : ℕ)
    → (ltb_ℤ (pos (clock at)) w.last_timestamp ≡ true
        → get_id clock fuel w at ≡ (invalid_system_clock, w, suc at))
      × ((get_id clock fuel w at).0 ≡ invalid_system_clock
          → ltb_ℤ (pos (clock at)) w.last_timestamp ≡ true)
unfolding get_id finish
get_id-rejects clock fuel w at = (
  λ h. rw h,
  ground (
    arith,
    wrapped-accepts clock fuel (record w { sequence = (w.sequence + 1) % 4096 }) (suc at),
  ),
)
