-- ===== src/Snowflake/Examples.antt =====
-- The theorems about the id worker at concrete clocks and workers, and runs of it.
use django_clickhouse_backen.Prelude.{◌+◌, ◌/◌, ◌≡◌, ◌≢◌, refl, inr, [], ◌∷◌, All, arith}
use django_clickhouse_backen.Prelude.Int.{ℤ, pos, negsuc, or_ℤ, shift_left}
use django_clickhouse_backen.Snowflake.{
  Worker, Clock, init, worker, twepoch, waiting, get_id, issue, finish, new_id,
}
use django_clickhouse_backen.Snowflake.Order.{AfterEpoch, Above, issue-init-Above}
use django_clickhouse_backen.Snowflake.Workers.{issue-ne-issue}
use django_clickhouse_backen.Snowflake.Answers.{get_id-ends}

-- Each millisecond is read twice.
abbrev slow : Clock
slow n = twepoch + 5 + n / 2

slow-AfterEpoch : AfterEpoch slow
slow-AfterEpoch n = omega arith

abbrev first : Worker
first = record { worker_id = pos 3; datacenter_id = pos 1; sequence = 7; last_timestamp = negsuc 0 }

abbrev second : Worker
second = record {
  worker_id = pos 4;
  datacenter_id = pos 1;
  sequence = 0;
  last_timestamp = negsuc 0;
}

made_first : init (pos 1) (pos 3) 7 ≡ worker first
unfolding init
made_first = refl

made_second : init (pos 1) (pos 4) 0 ≡ worker second
unfolding init
made_second = refl

run : issue slow 3 3 first 0 ≡ pos 21114880 ∷ pos 21114881 ∷ pos 25309184 ∷ []
unfolding issue get_id finish new_id or_ℤ shift_left
run = refl

issue-init-Above_example : Above 0 (issue slow 3 3 first 0)
issue-init-Above_example =
    issue-init-Above slow 3 3 0 (pos 1) (pos 3) 7 first slow-AfterEpoch made_first

threes_fours : ◌≢◌ {A = ℤ} (pos 3) (pos 4)
threes_fours = ground arith

issue-ne-issue_example :
    All (λ i. All (λ j. i ≢ j) (issue slow 3 2 second 0)) (issue slow 3 3 first 0)
issue-ne-issue_example =
    issue-ne-issue slow slow 3 3 3 2 0 0 (pos 1) (pos 3) (pos 1) (pos 4) 7 0 first second
      slow-AfterEpoch slow-AfterEpoch made_first made_second (inr threes_fours)

-- A worker at the end of the millisecond 5 after the epoch.
abbrev full : Worker
full = record first { sequence = 4095; last_timestamp = pos (twepoch + 5) }

get_id-ends_example : (get_id slow 3 full 0).0 ≢ waiting
get_id-ends_example = get_id-ends slow 3 full 0 1 refl (omega arith)
