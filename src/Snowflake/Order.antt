-- ===== src/Snowflake/Order.antt =====
-- What a run of `get_id` issues: in which order, and that workers do not share ids.
use django_clickhouse_backen.Prelude.{
  ℕ, zero, suc, ◌+◌, ◌-◌, ◌%◌, ◌≤◌, ◌<◌, ◌≡◌, inl, inr, refl, sym, subst, true, false, some, List,
  [], ◌∷◌, arith, ◌==◌, if◌then◌else◌, if_cases, Bool-cases, Option-cases,
}
use django_clickhouse_backen.Prelude.Int.{ℤ, pos, negsuc, pos_part, ltb_ℤ, eq_ℤ}
use django_clickhouse_backen.Snowflake.{
  Worker, Clock, Outcome, issued, invalid_system_clock, waiting, twepoch, init, worker,
  til_next_millis, finish, wrapped, get_id, issue,
}
use django_clickhouse_backen.Snowflake.Ids.{IsValid, compose, new_id-compose, init-IsValid}

-- The clock never shows a time before the epoch of the ids, 2010-11-04.
abbrev pub AfterEpoch : Clock → Type 0
AfterEpoch clock = (n : ℕ) → twepoch ≤ clock n

abbrev pub Stamped : ℤ → ℕ → Type 0
Stamped (pos t) s = (twepoch ≤ t) × (s < 4096)
Stamped (negsuc n) s = Unit

pub record IsReady (w : Worker) : Type 0 where
  pub valid : IsValid w
  pub stamped : Stamped w.last_timestamp w.sequence

-- One more than the id that the worker issued last.
abbrev pub floor_at : ℤ → Worker → ℕ
floor_at (negsuc n) w = 0
floor_at (pos t) w =
    suc (compose (t - twepoch) (pos_part w.datacenter_id) (pos_part w.worker_id) w.sequence)

abbrev pub floor : Worker → ℕ
floor w = floor_at w.last_timestamp w

abbrev pub Progress : Worker → Outcome → Worker → Type 0
Progress w (issued id) w' = (n : ℕ) × (id ≡ pos n) × (floor w ≤ n) × (floor w' ≡ suc n) × IsReady w'
Progress w invalid_system_clock w' = w' ≡ w
Progress w waiting w' = Unit

finish-Progress :
    (w u : Worker) (t at : ℕ)
    → IsValid u
    → u.sequence < 4096
    → twepoch ≤ t
    → floor w ≤ compose (t - twepoch) (pos_part u.datacenter_id) (pos_part u.worker_id) u.sequence
    → Progress w (finish u t at).0 (finish u t at).1
unfolding finish
finish-Progress w u t at v hs ht h = (
  compose (t - twepoch) (pos_part u.datacenter_id) (pos_part u.worker_id) u.sequence,
  new_id-compose u t v hs ht,
  h,
  refl,
  record {
    valid = record {
      worker_nonneg = v.worker_nonneg;
      worker_le = v.worker_le;
      datacenter_nonneg = v.datacenter_nonneg;
      datacenter_le = v.datacenter_le;
    };
    stamped = (ht, hs);
  },
)

-- A timestamp that ends the wait is later than the last one, and was read from the clock.
til_next_millis-later :
    (clock : Clock) (fuel at : ℕ) (last : ℤ) (t at' : ℕ)
    → til_next_millis clock fuel at last ≡ some (t, at')
    → (ltb_ℤ last (pos t) ≡ true) × ((n : ℕ) × (clock n ≡ t))
unfolding til_next_millis
til_next_millis-later clock zero at last t at' e = absurd (cc)
til_next_millis-later clock (suc fuel) at last t at' e =
    elim (Bool-cases (ltb_ℤ last (pos (clock at)))) [
      | inl h ↦ (ground arith, (at, ground arith))
      | inr h ↦ til_next_millis-later clock fuel (suc at) last t at' (ground arith)
    ]

late_at : {clock : Clock} {t : ℕ} → AfterEpoch clock → (n : ℕ) × (clock n ≡ t) → twepoch ≤ t
late_at late (n, e) = omega (arith, late n)

wrapped-Progress :
    (clock : Clock) (fuel : ℕ) (v w : Worker) (t at : ℕ)
    → AfterEpoch clock
    → IsValid w
    → w.last_timestamp ≡ pos t
    → w.sequence ≡ 0
    → twepoch ≤ t
    → floor v ≤ suc (compose (t - twepoch) (pos_part w.datacenter_id) (pos_part w.worker_id) 4095)
    → Progress v (wrapped clock fuel w at).0 (wrapped clock fuel w at).1
unfolding wrapped
wrapped-Progress clock fuel v w t at late valid last zeroed ht h =
    elim (Option-cases (til_next_millis clock fuel at w.last_timestamp)) [
      | inl e ↦ rw (e, wrapped) tt
      | inr ((t', at'), e) ↦
          rw (e, wrapped)
            (go t' at' (til_next_millis-later clock fuel at w.last_timestamp t' at' e))
    ]
  where
    go :
        (t' at' : ℕ)
        → (ltb_ℤ w.last_timestamp (pos t') ≡ true) × ((n : ℕ) × (clock n ≡ t'))
        → Progress v (finish w t' at').0 (finish w t' at').1
    go t' at' (later, seen) =
        let after : t < t' = ground arith in
        finish-Progress v w t' at' valid (omega arith) (late_at late seen) (omega arith)

abbrev pub Advances : Worker → Outcome × Worker × ℕ → Type 0
Advances w r = Progress w r.0 r.1

resequence-IsValid : (w : Worker) (s : ℕ) → IsValid w → IsValid (record w { sequence = s })
resequence-IsValid w s v = record {
  worker_nonneg = v.worker_nonneg;
  worker_le = v.worker_le;
  datacenter_nonneg = v.datacenter_nonneg;
  datacenter_le = v.datacenter_le;
}

module _ (clock : Clock) (fuel : ℕ) (w : Worker) (at : ℕ) (late : AfterEpoch clock)
    (v : IsValid w) where
  -- The clock moved on: the sequence starts again.
  advanced :
      (last : ℤ)
      → w.last_timestamp ≡ last
      → Stamped last w.sequence
      → ltb_ℤ (pos (clock at)) last ≡ false
      → eq_ℤ (pos (clock at)) last ≡ false
      → Advances w (finish (record w { sequence = 0 }) (clock at) (suc at))
  advanced (pos t) e st h k =
      finish-Progress w (record w { sequence = 0 }) (clock at) (suc at) (resequence-IsValid w 0 v)
        (omega arith) (late at) (rw e (ground arith))
  advanced (negsuc n) e st h k =
      finish-Progress w (record w { sequence = 0 }) (clock at) (suc at) (resequence-IsValid w 0 v)
        (omega arith) (late at) (rw e (omega arith))

  -- A second call in one millisecond takes the next sequence number, or waits.
  repeated :
      (last : ℤ)
      → w.last_timestamp ≡ last
      → Stamped last w.sequence
      → eq_ℤ (pos (clock at)) last ≡ true
      → (next : ℕ) → next ≡ (w.sequence + 1) % 4096
      → Advances w (
          if next == 0
          then wrapped clock fuel (record w { sequence = next }) (suc at)
          else finish (record w { sequence = next }) (clock at) (suc at))
  repeated (pos t) e st k next en =
      if_cases (Advances w) (next == 0)
        (λ z.
          wrapped-Progress clock fuel w (record w { sequence = next }) t (suc at) late
            (resequence-IsValid w next v) e (ground arith) st.0 (rw e (omega arith)))
        (λ z.
          finish-Progress w (record w { sequence = next }) (clock at) (suc at)
            (resequence-IsValid w next v) (omega arith) (late at) (rw e (ground arith)))
  repeated (negsuc n) e st k next en = cc

-- Every call of a ready worker either issues an id above all before it, and leaves the worker
-- ready, or raises and leaves it alone, or is still waiting.
pub get_id-Advances :
    (clock : Clock) (fuel : ℕ) (w : Worker) (at : ℕ)
    → AfterEpoch clock
    → IsReady w
    → Advances w (get_id clock fuel w at)
unfolding get_id
get_id-Advances clock fuel w at late r =
    if_cases (Advances w) (ltb_ℤ (pos (clock at)) w.last_timestamp) (λ h. refl)
      λ h.
        if_cases (Advances w) (eq_ℤ (pos (clock at)) w.last_timestamp)
          (λ k.
            repeated clock fuel w at late r.valid w.last_timestamp refl r.stamped k
              ((w.sequence + 1) % 4096) refl)
          (λ k. advanced clock fuel w at late r.valid w.last_timestamp refl r.stamped h k)

fresh : (d k : ℤ) (s : ℕ) (w : Worker) → init d k s ≡ worker w → w.last_timestamp ≡ negsuc 0
unfolding init
fresh d k s w e = ground arith

-- Each id is at least `bound`, and above all those before it in the list.
abbrev pub Above : ℕ → List ℤ → Type 0
Above bound [] = Unit
Above bound (id ∷ ids) = (n : ℕ) × (id ≡ pos n) × (bound ≤ n) × Above (suc n) ids

-- How one call's outcome and the rest of the run combine.
extend-Above :
    (w : Worker) (bound : ℕ) (outcome : Outcome) (w' : Worker) (rest : List ℤ)
    → IsReady w
    → bound ≤ floor w
    → Progress w outcome w'
    → ((b : ℕ) → IsReady w' → b ≤ floor w' → Above b rest)
    → Above bound
        (elim outcome [ issued id ↦ id ∷ rest | invalid_system_clock ↦ rest | waiting ↦ [] ])
extend-Above w bound (issued id) w' rest r h (n, e, below, next, r') ih =
    (n, e, omega arith, ih (suc n) r' (omega arith))
extend-Above w bound invalid_system_clock w' rest r h e ih =
    ih bound (subst IsReady (sym e) r) (subst (λ x. bound ≤ floor x) (sym e) h)
extend-Above w bound waiting w' rest r h p ih = tt

issue-Above :
    (clock : Clock) (fuel calls : ℕ) (w : Worker) (at bound : ℕ)
    → AfterEpoch clock
    → IsReady w
    → bound ≤ floor w
    → Above bound (issue clock fuel calls w at)
unfolding issue
issue-Above clock fuel zero w at bound late r h = tt
issue-Above clock fuel (suc calls) w at bound late r h =
    let (outcome, w', at') = get_id clock fuel w at in
    extend-Above w bound outcome w' (issue clock fuel calls w' at') r h
      (get_id-Advances clock fuel w at late r)
      λ b r' h'. issue-Above clock fuel calls w' at' b late r' h'

pub init-IsReady : (d k : ℤ) (s : ℕ) (w : Worker) → init d k s ≡ worker w → IsReady w
init-IsReady d k s w e = record {
  valid = init-IsValid d k s e;
  stamped = subst (λ l. Stamped l w.sequence) (sym (fresh d k s w e)) tt;
}

-- Whatever the clock after 2010 does, the ids that one worker issues from its construction on are strictly increasing, over
-- any number of calls, those that raise `InvalidSystemClock` included.
pub issue-init-Above :
    (clock : Clock) (fuel calls at : ℕ) (d k : ℤ) (s : ℕ) (w : Worker)
    → AfterEpoch clock
    → init d k s ≡ worker w
    → Above 0 (issue clock fuel calls w at)
issue-init-Above clock fuel calls at d k s w late e =
    issue-Above clock fuel calls w at 0 late (init-IsReady d k s w e) (omega arith)
