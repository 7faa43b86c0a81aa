-- ===== src/Client/Sleep.antt =====
-- src/splunk_client.cpp: SleepCheckingInterrupt, against a clock that is read once a round.
pub mod Wakes
use duckdb_splunk.Prelude.{ℕ, zero, suc, ◌+◌, ◌*◌, Bool, ltb, if◌then◌else◌}
use duckdb_splunk.Errors.{interrupted}
use duckdb_splunk.Client.Retry.{Outcome, returned, raised, out_of_fuel}

-- The readings of `steady_clock::now`, in nanoseconds: the first, of which the deadline is made,
-- and those at the head of each round; and what the round finds in `context.interrupted`.
pub record Clock : Type 0 where
  pub started : ℕ
  pub now : ℕ → ℕ
  pub is_interrupted : ℕ → Bool

-- `std::chrono::seconds(1)` and `std::chrono::milliseconds(100)`.
abbrev pub nanos_per_second : ℕ
nanos_per_second = 1000000000

abbrev pub nap : ℕ
nap = 100000000

module _ (clock : Clock) where
  abbrev pub deadline : ℕ → ℕ
  deadline seconds = clock.started + nanos_per_second * seconds

  -- The loop, from a round on.
  unfoldable pub sleep_from : ℕ → ℕ → ℕ → Outcome (Unit {0})
  sleep_from zero until round = out_of_fuel
  sleep_from (suc fuel) until round =
      let later = sleep_from fuel until (suc round) in
      if ltb (clock.now round) until
      then (if clock.is_interrupted round then raised interrupted else later)
      else returned tt

  -- `SleepCheckingInterrupt`. Ten rounds a second and one to see the deadline are enough.
  unfoldable pub sleep_checking_interrupt : ℕ → Outcome (Unit {0})
  sleep_checking_interrupt seconds = sleep_from (10 * seconds + 1) (deadline seconds) 0
