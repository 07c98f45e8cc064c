-- ===== src/Snowflake/Workers.antt =====
-- Ids carry the worker that issued them, so that two workers do not share one.
use django_clickhouse_backen.Prelude.{
  ℕ, zero, suc, ◌/◌, ◌%◌, ◌≡◌, ◌≢◌, ◌⊎◌, inl, inr, refl, sym, ap, subst, ◌∙◌, ◌-◌, List, [], ◌∷◌,
  All, arith,
}
use django_clickhouse_backen.Prelude.Int.{ℤ, pos, negsuc, pos_part, ◌≤ℤ◌}
use django_clickhouse_backen.Snowflake.{
  Worker, Clock, Outcome, issued, invalid_system_clock, waiting, init, worker, twepoch, finish,
  wrapped, get_id, issue,
}
use django_clickhouse_backen.Snowflake.Ids.{IsValid, init-IsValid, compose}
use django_clickhouse_backen.Snowflake.Order.{
  AfterEpoch, IsReady, get_id-Advances, Progress, Stamped, floor_at, init-IsReady,
}

-- The worker and datacenter fields of an id.
abbrev pub Carries : ℤ → ℤ → ℤ → Type 0
Carries d k id =
    (id ≡ pos (pos_part id))
    × (pos_part id / 131072 % 32 ≡ pos_part d)
    × (pos_part id / 4096 % 32 ≡ pos_part k)

issued-Carries :
    (w : Worker) (n : ℕ) (last : ℤ)
    → w.last_timestamp ≡ last
    → Stamped last w.sequence
    → IsValid w
    → floor_at last w ≡ suc n
    → Carries w.datacenter_id w.worker_id (pos n)
issued-Carries w n (pos t) e st v h =
    at w.datacenter_id w.worker_id v.datacenter_nonneg v.worker_nonneg v.datacenter_le v.worker_le
      (omega arith)
  where
    at :
        (d k : ℤ)
        → pos 0 ≤ℤ d
        → pos 0 ≤ℤ k
        → d ≤ℤ pos 31
        → k ≤ℤ pos 31
        → n ≡ compose (t - twepoch) (pos_part d) (pos_part k) w.sequence
        → Carries d k (pos n)
    at (pos d) (pos k) _ _ hd hk e = (refl, omega arith, omega arith)
    at (pos d) (negsuc k) _ h hd hk e = absurd (omega arith)
    at (negsuc d) k h _ hd hk e = absurd (omega arith)
issued-Carries w n (negsuc m) e st v h = absurd (omega arith)

abbrev Same : Worker → Worker → Type 0
Same w w' = (w'.datacenter_id ≡ w.datacenter_id) × (w'.worker_id ≡ w.worker_id)

get_id-Same : (clock : Clock) (fuel : ℕ) (w : Worker) (at : ℕ) → Same w (get_id clock fuel w at).1
unfolding get_id wrapped finish
get_id-Same clock fuel w at = ground arith

extend-Carries :
    (d k : ℤ) (w : Worker) (outcome : Outcome) (w' : Worker) (rest : List ℤ)
    → IsReady w
    → Progress w outcome w'
    → w'.datacenter_id ≡ d
    → w'.worker_id ≡ k
    → (IsReady w' → All (Carries d k) rest)
    → All
        (Carries d k)
        (elim outcome [ issued id ↦ id ∷ rest | invalid_system_clock ↦ rest | waiting ↦ [] ])
extend-Carries d k w (issued id) w' rest r (n, e, below, next, r') ed ek ih = (
  rw (e, ← ed, ← ek) (issued-Carries w' n w'.last_timestamp refl r'.stamped r'.valid next),
  ih r',
)
extend-Carries d k w invalid_system_clock w' rest r e ed ek ih = ih (subst IsReady (sym e) r)
extend-Carries d k w waiting w' rest r p ed ek ih = tt

issue-Carries :
    (clock : Clock) (fuel calls : ℕ) (d k : ℤ) (w : Worker) (at : ℕ)
    → AfterEpoch clock
    → IsReady w
    → w.datacenter_id ≡ d
    → w.worker_id ≡ k
    → All (Carries d k) (issue clock fuel calls w at)
unfolding issue
issue-Carries clock fuel zero d k w at late r ed ek = tt
issue-Carries clock fuel (suc calls) d k w at late r ed ek =
    let (outcome, w', at') = get_id clock fuel w at in
    let same : Same w (get_id clock fuel w at).1 = get_id-Same clock fuel w at in
    extend-Carries d k w outcome w' (issue clock fuel calls w' at') r
      (get_id-Advances clock fuel w at late r) (same.0 ∙ ed) (same.1 ∙ ek)
      λ r'. issue-Carries clock fuel calls d k w' at' late r' (same.0 ∙ ed) (same.1 ∙ ek)

init_fields :
    (d k : ℤ) (s : ℕ) (w : Worker)
    → init d k s ≡ worker w
    → (w.datacenter_id ≡ d) × (w.worker_id ≡ k)
unfolding init
init_fields d k s w e = (ground arith, ground arith)

-- The ids that a worker issues have the worker's own datacenter and worker ids in bits 17 to 21 and 12 to 16.
pub issue-init-Carries :
    (clock : Clock) (fuel calls at : ℕ) (d k : ℤ) (s : ℕ) (w : Worker)
    → AfterEpoch clock
    → init d k s ≡ worker w
    → All (Carries d k) (issue clock fuel calls w at)
issue-init-Carries clock fuel calls at d k s w late e =
    let fields = init_fields d k s w e in
    issue-Carries clock fuel calls d k w at late (init-IsReady d k s w e) fields.0 fields.1

init_nonneg :
    (d k : ℤ) (s : ℕ) (w : Worker)
    → init d k s ≡ worker w
    → (d ≡ pos (pos_part d)) × (k ≡ pos (pos_part k))
init_nonneg d k s w e =
    let fields = init_fields d k s w e in
    let v = init-IsValid d k s e in
    (
      nonneg d (subst (λ x. pos 0 ≤ℤ x) fields.0 v.datacenter_nonneg),
      nonneg k (subst (λ x. pos 0 ≤ℤ x) fields.1 v.worker_nonneg),
    )
  where
    nonneg : (a : ℤ) → pos 0 ≤ℤ a → a ≡ pos (pos_part a)
    nonneg (pos n) h = refl
    nonneg (negsuc n) h = absurd (omega arith)

init_differ :
    (d k d' k' : ℤ) (s s' : ℕ) (w w' : Worker)
    → init d k s ≡ worker w
    → init d' k' s' ≡ worker w'
    → (d ≢ d') ⊎ (k ≢ k')
    → (pos_part d ≢ pos_part d') ⊎ (pos_part k ≢ pos_part k')
init_differ d k d' k' s s' w w' e e' differ =
    let n = init_nonneg d k s w e in
    let n' = init_nonneg d' k' s' w' e' in
    elim differ [
      | inl h ↦ inl (λ q. h (n.0 ∙ ap pos q ∙ sym n'.0))
      | inr h ↦ inr (λ q. h (n.1 ∙ ap pos q ∙ sym n'.1))
    ]

module _ (d k d' k' : ℤ) (differ : (pos_part d ≢ pos_part d') ⊎ (pos_part k ≢ pos_part k')) where
  apart : (i j : ℤ) → Carries d k i → Carries d' k' j → i ≢ j
  apart i j ci cj e = elim differ [
    | inl h ↦ h (omega (arith, ap pos_part e))
    | inr h ↦ h (omega (arith, ap pos_part e))
  ]

  apart_one : (i : ℤ) (js : List ℤ) → Carries d k i → All (Carries d' k') js → All (λ j. i ≢ j) js
  apart_one i [] ci cjs = tt
  apart_one i (j ∷ js) ci cjs = (apart i j ci cjs.0, apart_one i js ci cjs.1)

  apart_lists :
      (is js : List ℤ)
      → All (Carries d k) is
      → All (Carries d' k') js
      → All (λ i. All (λ j. i ≢ j) js) is
  apart_lists [] js cis cjs = tt
  apart_lists (i ∷ is) js cis cjs = (apart_one i js cis.0 cjs, apart_lists is js cis.1 cjs)

-- Two workers that differ in their datacenter or worker id never issue the same id, whatever their clocks after 2010 show
-- and however often they are called.
pub issue-ne-issue :
    (clock clock' : Clock) (fuel fuel' calls calls' at at' : ℕ) (d k d' k' : ℤ) (s s' : ℕ)
    (w w' : Worker)
    → AfterEpoch clock
    → AfterEpoch clock'
    → init d k s ≡ worker w
    → init d' k' s' ≡ worker w'
    → (d ≢ d') ⊎ (k ≢ k')
    → All (λ i. All (λ j. i ≢ j) (issue clock' fuel' calls' w' at')) (issue clock fuel calls w at)
issue-ne-issue clock clock' fuel fuel' calls calls' at at' d k d' k' s s' w w' late late' e e'
      differ =
    apart_lists d k d' k' (init_differ d k d' k' s s' w w' e e' differ)
      (issue clock fuel calls w at) (issue clock' fuel' calls' w' at')
      (issue-init-Carries clock fuel calls at d k s w late e)
      (issue-init-Carries clock' fuel' calls' at' d' k' s' w' late' e')
