-- ===== src/Snowflake.antt =====
-- The id worker, clickhouse_backend/idworker/snowflake.py. Time is the sequence of the readings
-- of `_gen_timestamp` in milliseconds, and a position in it; a wait that takes more readings than
-- its fuel is the outcome `waiting`. The proofs are in the modules below.
pub mod Ids
pub mod Order
pub mod Answers
pub mod Workers
mod Examples
use django_clickhouse_backen.Prelude.{
  ℕ, zero, suc, ◌+◌, ◌-◌, ◌%◌, ◌^◌, Bool, ◌||◌, Option, none, some, List, [], ◌∷◌, ◌==◌,
  if◌then◌else◌,
}
use django_clickhouse_backen.Prelude.Int.{ℤ, pos, negsuc, sub_ℕ, ltb_ℤ, eq_ℤ, shift_left, or_ℤ}

abbrev pub worker_id_bits : ℕ
worker_id_bits = 5

abbrev pub datacenter_id_bits : ℕ
datacenter_id_bits = 5

abbrev pub sequence_bits : ℕ
sequence_bits = 12

-- -1 ^ (-1 << bits)
abbrev pub max_worker_id : ℕ
max_worker_id = 2 ^ worker_id_bits - 1

abbrev pub max_datacenter_id : ℕ
max_datacenter_id = 2 ^ datacenter_id_bits - 1

abbrev pub worker_id_shift : ℕ
worker_id_shift = sequence_bits

abbrev pub datacenter_id_shift : ℕ
datacenter_id_shift = sequence_bits + worker_id_bits

abbrev pub timestamp_left_shift : ℕ
timestamp_left_shift = sequence_bits + worker_id_bits + datacenter_id_bits

abbrev pub twepoch : ℕ
twepoch = 1288834974657

pub record Worker : Type 0 where
  pub worker_id : ℤ
  pub datacenter_id : ℤ
  pub sequence : ℕ
  pub last_timestamp : ℤ

pub data InitError : Type 0 where
  worker_id_out_of_range datacenter_id_out_of_range : InitError

pub data Init : Type 0 where
  worker : Worker → Init
  value_error : InitError → Init

out_of_range : ℤ → ℕ → Bool
out_of_range id max = ltb_ℤ (pos max) id || ltb_ℤ id (pos 0)

-- SnowflakeIDWorker.__init__
unfoldable pub init : ℤ → ℤ → ℕ → Init
unfolding out_of_range
init datacenter_id worker_id sequence =
    if out_of_range worker_id max_worker_id
    then value_error worker_id_out_of_range
    else if out_of_range datacenter_id max_datacenter_id
    then value_error datacenter_id_out_of_range
    else worker (record {
      worker_id = worker_id;
      datacenter_id = datacenter_id;
      sequence = sequence;
      last_timestamp = negsuc 0;
    })

-- The n-th reading of `int(time.time() * 1000)`.
abbrev pub Clock : Type 0
Clock = ℕ → ℕ

-- The timestamp that ends the wait, and the position behind its reading.
pub til_next_millis : Clock → ℕ → ℕ → ℤ → Option (ℕ × ℕ)
til_next_millis clock zero at last = none
til_next_millis clock (suc fuel) at last =
    let rest = til_next_millis clock fuel (suc at) last in
    if ltb_ℤ last (pos (clock at)) then some (clock at, suc at) else rest

pub data Outcome : Type 0 where
  issued : ℤ → Outcome
  invalid_system_clock waiting : Outcome

unfoldable pub new_id : Worker → ℕ → ℤ
new_id w timestamp =
    or_ℤ
      (or_ℤ
        (or_ℤ (shift_left (sub_ℕ timestamp twepoch) timestamp_left_shift)
          (shift_left w.datacenter_id datacenter_id_shift))
        (shift_left w.worker_id worker_id_shift))
      (pos w.sequence)

-- The end of `get_id`, once the timestamp and the sequence are settled.
unfoldable pub finish : Worker → ℕ → ℕ → Outcome × Worker × ℕ
finish w timestamp at =
    (issued (new_id w timestamp), record w { last_timestamp = pos timestamp }, at)

pub wrapped : Clock → ℕ → Worker → ℕ → Outcome × Worker × ℕ
wrapped clock fuel w at = elim (til_next_millis clock fuel at w.last_timestamp) [
  | none ↦ (waiting, w, at + fuel)
  | some (timestamp, at') ↦ finish w timestamp at'
]

unfoldable pub get_id : Clock → ℕ → Worker → ℕ → Outcome × Worker × ℕ
get_id clock fuel w at =
    let timestamp = clock at in
    if ltb_ℤ (pos timestamp) w.last_timestamp
    then (invalid_system_clock, w, suc at)
    else if eq_ℤ (pos timestamp) w.last_timestamp
    then (let next = (w.sequence + 1) % 2 ^ sequence_bits in
        let bumped = record w { sequence = next } in
        if next == 0 then wrapped clock fuel bumped (suc at) else finish bumped timestamp (suc at))
    else finish (record w { sequence = 0 }) timestamp (suc at)

-- The ids that a client gets from `calls` calls of `get_id`; a call that raises is passed over.
unfoldable pub issue : Clock → ℕ → ℕ → Worker → ℕ → List ℤ
issue clock fuel zero w at = []
issue clock fuel (suc calls) w at =
    let (outcome, w', at') = get_id clock fuel w at in
    let rest = issue clock fuel calls w' at' in
    elim outcome [ issued id ↦ id ∷ rest | invalid_system_clock ↦ rest | waiting ↦ [] ]
