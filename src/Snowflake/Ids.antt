-- ===== src/Snowflake/Ids.antt =====
-- The layout of an id: which fields it packs, and that it determines them.
use django_clickhouse_backen.Prelude.{ℕ, ◌+◌, ◌-◌, ◌*◌, ◌^◌, ◌≤◌, ◌<◌, ◌≡◌, ap, arith}
use django_clickhouse_backen.Prelude.Int.{ℤ, pos, negsuc, pos_part, ◌≤ℤ◌, sub_ℕ, shift_left, or_ℤ}
use django_clickhouse_backen.Prelude.Bits.{bit_or-shifted}
use Prim.Native.Nat.{bit_or}
use django_clickhouse_backen.Snowflake.{Worker, new_id, twepoch, init, worker}

-- The ids of the constructor's sanity check.
pub record IsValid (w : Worker) : Type 0 where
  pub worker_nonneg : pos 0 ≤ℤ w.worker_id
  pub worker_le : w.worker_id ≤ℤ pos 31
  pub datacenter_nonneg : pos 0 ≤ℤ w.datacenter_id
  pub datacenter_le : w.datacenter_id ≤ℤ pos 31

-- 41 bits of time, 5 of datacenter, 5 of worker and 12 of sequence, as one number.
abbrev pub compose : ℕ → ℕ → ℕ → ℕ → ℕ
compose t d k s = ((t * 32 + d) * 32 + k) * 4096 + s

or_fields :
    (t d k s : ℕ)
    → d < 32
    → k < 32
    → s < 4096
    → bit_or (bit_or (bit_or (t * 2 ^ 22) (d * 2 ^ 17)) (k * 2 ^ 12)) s ≡ compose t d k s
or_fields t d k s hd hk hs =
    let first : bit_or (t * 2 ^ 22) (d * 2 ^ 17) ≡ (t * 32 + d) * 2 ^ 17 =
      omega (arith, bit_or-shifted 22 t (d * 2 ^ 17) (omega arith)) in
    let second : bit_or ((t * 32 + d) * 2 ^ 17) (k * 2 ^ 12) ≡ ((t * 32 + d) * 32 + k) * 2 ^ 12 =
      omega (arith, bit_or-shifted 17 (t * 32 + d) (k * 2 ^ 12) (omega arith)) in
    rw (first, second) (omega (arith, bit_or-shifted 12 ((t * 32 + d) * 32 + k) s hs))

pub new_id-compose :
    (w : Worker) (t : ℕ)
    → IsValid w
    → w.sequence < 4096
    → twepoch ≤ t
    → new_id w t
      ≡ pos (compose (t - twepoch) (pos_part w.datacenter_id) (pos_part w.worker_id) w.sequence)
unfolding new_id shift_left or_ℤ
new_id-compose w t v hs ht =
    at w.datacenter_id w.worker_id v.datacenter_nonneg v.worker_nonneg v.datacenter_le v.worker_le
  where
    ts : sub_ℕ t twepoch ≡ pos (t - twepoch)
    ts = ground arith

    at :
        (d k : ℤ)
        → pos 0 ≤ℤ d
        → pos 0 ≤ℤ k
        → d ≤ℤ pos 31
        → k ≤ℤ pos 31
        → or_ℤ
            (or_ℤ (or_ℤ (shift_left (sub_ℕ t twepoch) 22) (shift_left d 17)) (shift_left k 12))
            (pos w.sequence)
          ≡ pos (compose (t - twepoch) (pos_part d) (pos_part k) w.sequence)
    at (pos d) (pos k) _ _ hd hk =
        rw ts (ap pos (or_fields (t - twepoch) d k w.sequence (omega arith) (omega arith) hs))
    at (pos d) (negsuc k) _ h hd hk = absurd (omega arith)
    at (negsuc d) k h _ hd hk = absurd (omega arith)

-- Worker that __init__ makes
pub init-IsValid : (d k : ℤ) (s : ℕ) {w : Worker} → init d k s ≡ worker w → IsValid w
unfolding init
init-IsValid d k s e = ground arith
