-- ===== src/Client/Sleep/Wakes.antt =====
-- A sleep ends: at its deadline, or in the round that finds the query interrupted.
use duckdb_splunk.Prelude.{
  ℕ, zero, suc, ◌+◌, ◌*◌, ◌≤◌, ◌<◌, ◌≡◌, refl, sym, inl, inr, true, false, ltb, arith, Bool-cases,
  if_true, if_false, subst,
}
use duckdb_splunk.Errors.{interrupted}
use duckdb_splunk.Client.Retry.{Outcome, returned, raised, undefined_shift, out_of_fuel}
use duckdb_splunk.Client.Sleep.{Clock, nap, deadline, sleep_from, sleep_checking_interrupt}

-- `steady_clock` does not go back, and `sleep_for` blocks for at least as long as it is told.
pub record IsSteady (clock : Clock) : Type 0 where
  pub starts : clock.started ≤ clock.now 0
  pub naps : (k : ℕ) → clock.now k + nap ≤ clock.now (suc k)

module _ (clock : Clock) where
  -- The rounds from `round` to before `last` find time left and no interruption.
  pub record SleepsTo (until round last : ℕ) : Type 0 where
    pub in_order : round ≤ last
    pub early : (k : ℕ) → round ≤ k → k < last → clock.now k < until
    pub quiet : (k : ℕ) → round ≤ k → k < last → clock.is_interrupted k ≡ false

  -- How a sleep from `round` ends, within `fuel` rounds.
  abbrev pub Wakes : ℕ → ℕ → ℕ → Outcome (Unit {0}) → Type 0
  Wakes fuel until round (returned done) =
      (last : ℕ) × SleepsTo until round last × (last < round + fuel) × (until ≤ clock.now last)
  Wakes fuel until round (raised e) =
      (last : ℕ) × SleepsTo until round last
      × (last < round + fuel)
      × (e ≡ interrupted)
      × (clock.now last < until)
      × (clock.is_interrupted last ≡ true)
  Wakes fuel until round undefined_shift = ⊥
  Wakes fuel until round out_of_fuel = ⊥

  SleepsTo-here : (until round : ℕ) → SleepsTo until round round
  SleepsTo-here until round = record {
    in_order = omega arith;
    early = λ k a b. absurd (omega arith);
    quiet = λ k a b. absurd (omega arith);
  }

  SleepsTo-later :
      (until round last : ℕ)
      → clock.now round < until
      → clock.is_interrupted round ≡ false
      → SleepsTo until (suc round) last
      → SleepsTo until round last
  SleepsTo-later until round last h q s = record {
    in_order = let below = s.in_order in omega arith;
    early = λ k a b. elim (Bool-cases (ltb round k)) [
      | inl later ↦ s.early k (ground arith) b
      | inr first ↦ subst (λ j. clock.now j < until) (same k a first) h
    ];
    quiet = λ k a b. elim (Bool-cases (ltb round k)) [
      | inl later ↦ s.quiet k (ground arith) b
      | inr first ↦ subst (λ j. clock.is_interrupted j ≡ false) (same k a first) q
    ];
  }
    where
      same : (k : ℕ) → round ≤ k → ltb round k ≡ false → round ≡ k
      same k a first = ground arith

  Wakes-later :
      (fuel until round : ℕ) (o : Outcome (Unit {0}))
      → clock.now round < until
      → clock.is_interrupted round ≡ false
      → Wakes fuel until (suc round) o
      → Wakes (suc fuel) until round o
  Wakes-later fuel until round (returned done) h q (last, s, w, t) =
      (last, SleepsTo-later until round last h q s, omega arith, t)
  Wakes-later fuel until round (raised e) h q (last, s, w, i, early, stop) =
      (last, SleepsTo-later until round last h q s, omega arith, i, early, stop)
  Wakes-later fuel until round undefined_shift h q w = w
  Wakes-later fuel until round out_of_fuel h q w = w

  now-nap : IsSteady clock → (k : ℕ) → clock.started + nap * k ≤ clock.now k
  now-nap s zero = let h = s.starts in omega arith
  now-nap s (suc k) = omega (arith, now-nap s k, s.naps k)

  -- A round before the deadline is one of the first.
  round_early :
      (seconds round : ℕ)
      → IsSteady clock
      → clock.now round < deadline clock seconds
      → round < 10 * seconds
  round_early seconds round s h = omega (arith, now-nap s round)

  sleep_from-Wakes :
      (fuel seconds round : ℕ)
      → IsSteady clock
      → round ≤ 10 * seconds
      → 10 * seconds < round + fuel
      → Wakes fuel
          (deadline clock seconds)
          round
          (sleep_from clock fuel (deadline clock seconds) round)
  unfolding sleep_from
  sleep_from-Wakes zero seconds round s h w = absurd (omega arith)
  sleep_from-Wakes (suc fuel) seconds round s h w =
      let until = deadline clock seconds in
      elim (Bool-cases (ltb (clock.now round) until)) [
        | inr over ↦
            subst (Wakes (suc fuel) until round) (sym (if_false _ _ over))
              (round, SleepsTo-here until round, omega arith, ground arith)
        | inl early ↦
            let left : clock.now round < until = ground arith in
            subst (Wakes (suc fuel) until round) (sym (if_true _ _ early))
              (elim (Bool-cases (clock.is_interrupted round)) [
                | inl stop ↦
                    subst (Wakes (suc fuel) until round) (sym (if_true _ _ stop))
                      (round, SleepsTo-here until round, omega arith, refl, left, stop)
                | inr quiet ↦ subst (Wakes (suc fuel) until round) (sym (if_false _ _ quiet)) (
                    Wakes-later fuel until round _ left quiet (
                      sleep_from-Wakes fuel seconds (suc round) s
                        (let more = round_early seconds round s left in omega arith) (omega arith)))
              ])
      ]

  -- If the clock does not go back and a sleep of 100 milliseconds lasts as long at least, then
  -- a sleep of `seconds` ends within `10 * seconds + 1` rounds: it returns in the first round
  -- at or behind the deadline, and throws only in a round before it that finds the query
  -- interrupted, and then in the first such round.
  pub sleep_checking_interrupt-Wakes :
      (seconds : ℕ)
      → IsSteady clock
      → Wakes (10 * seconds + 1) (deadline clock seconds) 0 (sleep_checking_interrupt clock seconds)
  unfolding sleep_checking_interrupt
  sleep_checking_interrupt-Wakes seconds s =
      sleep_from-Wakes (10 * seconds + 1) seconds 0 s (omega arith) (omega arith)
