-- ===== src/Logs/Time/Units.antt =====
-- The unit of a numeric time stamp is guessed from its size.
use duckdb_splunk.Prelude.{ℕ, ◌*◌, ◌^◌, ◌≤◌, ◌<◌, ◌≡◌, refl, ◌∙◌, ap, true, false, arith}
use duckdb_splunk.External.{Doubles, DoublesLaws, IsExact, Double}
use duckdb_splunk.Logs.Time.{epoch_to_nanos}

module _ (d : Doubles) (laws : DoublesLaws d) where
  nanos_seconds :
      (v : Double)
      → d.ge v (d.of_ℕ (10 ^ 16)) ≡ false
      → d.ge v (d.of_ℕ (10 ^ 13)) ≡ false
      → d.ge v (d.of_ℕ (10 ^ 10)) ≡ false
      → epoch_to_nanos d v ≡ d.llround (d.mul v (d.of_ℕ (10 ^ 9)))
  unfolding epoch_to_nanos
  nanos_seconds v a b c = rw (a, b, c)

  nanos_millis :
      (v : Double)
      → d.ge v (d.of_ℕ (10 ^ 16)) ≡ false
      → d.ge v (d.of_ℕ (10 ^ 13)) ≡ false
      → d.ge v (d.of_ℕ (10 ^ 10)) ≡ true
      → epoch_to_nanos d v ≡ d.llround (d.mul v (d.of_ℕ (10 ^ 6)))
  unfolding epoch_to_nanos
  nanos_millis v a b c = rw (a, b, c)

  nanos_micros :
      (v : Double)
      → d.ge v (d.of_ℕ (10 ^ 16)) ≡ false
      → d.ge v (d.of_ℕ (10 ^ 13)) ≡ true
      → epoch_to_nanos d v ≡ d.llround (d.mul v (d.of_ℕ (10 ^ 3)))
  unfolding epoch_to_nanos
  nanos_micros v a b = rw (a, b)

  nanos_nanos : (v : Double) → d.ge v (d.of_ℕ (10 ^ 16)) ≡ true → epoch_to_nanos d v ≡ d.llround v
  unfolding epoch_to_nanos
  nanos_nanos v a = rw a

  IsExact-16 : IsExact (10 ^ 16)
  IsExact-16 = (5 * 10 ^ 15, 1, omega arith, omega arith, omega arith)

  IsExact-13 : IsExact (10 ^ 13)
  IsExact-13 = (10 ^ 13, 0, omega arith, omega arith, omega arith)

  IsExact-10 : IsExact (10 ^ 10)
  IsExact-10 = (10 ^ 10, 0, omega arith, omega arith, omega arith)

  scaled :
      (s k n : ℕ)
      → IsExact s
      → IsExact k
      → s * k ≡ n
      → d.llround (d.mul (d.of_ℕ s) (d.of_ℕ k)) ≡ d.llround (d.of_ℕ n)
  scaled s k n hs hk e = ap d.llround (laws.mul_exact s k hs hk ∙ ap d.of_ℕ e)

  module _ (s : ℕ) (low : 10 ^ 7 ≤ s) (high : s < 10 ^ 10) where
    IsExact-s : IsExact s
    IsExact-s = (s, 0, omega arith, omega arith, omega arith)

    IsExact-millis : IsExact (s * 10 ^ 3)
    IsExact-millis = (s * 125, 3, omega arith, omega arith, omega arith)

    IsExact-micros : IsExact (s * 10 ^ 6)
    IsExact-micros = (s * 15625, 6, omega arith, omega arith, omega arith)

    -- If doubles compare and multiply exactly on numbers of 53 bits times a power of two up
    -- to 2^64, and rounding to nearest is monotone, then a time of 10^7 to below 10^10 whole
    -- seconds gives the same nanoseconds whether it is written in seconds, milliseconds,
    -- microseconds or nanoseconds.
    pub epoch_to_nanos-units :
        (epoch_to_nanos d (d.of_ℕ s) ≡ d.llround (d.of_ℕ (s * 10 ^ 9)))
        × (epoch_to_nanos d (d.of_ℕ (s * 10 ^ 3)) ≡ d.llround (d.of_ℕ (s * 10 ^ 9)))
        × (epoch_to_nanos d (d.of_ℕ (s * 10 ^ 6)) ≡ d.llround (d.of_ℕ (s * 10 ^ 9)))
        × (epoch_to_nanos d (d.of_ℕ (s * 10 ^ 9)) ≡ d.llround (d.of_ℕ (s * 10 ^ 9)))
    epoch_to_nanos-units = (
      nanos_seconds _ (laws.ge_exact _ _ IsExact-s IsExact-16 (omega arith))
            (laws.ge_exact _ _ IsExact-s IsExact-13 (omega arith))
            (laws.ge_exact _ _ IsExact-s IsExact-10 (omega arith))
          ∙ scaled s (10 ^ 9) _ IsExact-s (10 ^ 9, 0, omega arith, omega arith, omega arith) refl,
      nanos_millis _ (laws.ge_exact _ _ IsExact-millis IsExact-16 (omega arith))
            (laws.ge_exact _ _ IsExact-millis IsExact-13 (omega arith))
            (laws.ge_of_le _ _ (omega arith))
          ∙ scaled (s * 10 ^ 3) (10 ^ 6) _ IsExact-millis
              (10 ^ 6, 0, omega arith, omega arith, omega arith) (omega arith),
      nanos_micros _ (laws.ge_exact _ _ IsExact-micros IsExact-16 (omega arith))
            (laws.ge_of_le _ _ (omega arith))
          ∙ scaled (s * 10 ^ 6) (10 ^ 3) _ IsExact-micros
              (10 ^ 3, 0, omega arith, omega arith, omega arith) (omega arith),
      nanos_nanos _ (laws.ge_of_le _ _ (omega arith)),
    )
