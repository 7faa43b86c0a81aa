-- ===== src/Client/Retry/Delays.antt =====
-- The delays of the retries are defined up to attempt 63.
use duckdb_splunk.Prelude.{
  ℕ, ◌<◌, ◌≡◌, ◌^◌, refl, min, ltb, Option, none, some, Bytes, ℤ, arith, if_true,
}
use duckdb_splunk.Client.Retry.{backoff_seconds, parsed_seconds, rate_limit_retry_delay_seconds}
use duckdb_splunk.Client.Retry.Stoll.{stoll}

-- The seconds of a wait, where no shift goes too far.
pub backoff_defined :
    (attempt : ℕ) → attempt < 64 → (seconds : ℕ) × (backoff_seconds attempt ≡ some seconds)
unfolding backoff_seconds
backoff_defined attempt b =
    (_, if_true {b = ltb attempt 64} (some (min (2 ^ attempt) 60)) none (ground arith))

parsed_defined :
    (parsed : Option ℤ) (attempt : ℕ)
    → attempt < 64
    → (seconds : ℕ) × (parsed_seconds parsed attempt ≡ some seconds)
unfolding parsed_seconds
parsed_defined none attempt b = backoff_defined attempt b
parsed_defined (some seconds) attempt b = (_, refl)

pub rate_limit_defined :
    (header : Option Bytes) (attempt : ℕ)
    → attempt < 64
    → (seconds : ℕ) × (rate_limit_retry_delay_seconds header attempt ≡ some seconds)
unfolding rate_limit_retry_delay_seconds
rate_limit_defined none attempt b = backoff_defined attempt b
rate_limit_defined (some header) attempt b = parsed_defined (stoll header) attempt b
