-- ===== src/Client/Retry/Policy.antt =====
-- Which failures are retried, and how long the client waits.
use native.Mathlib.Nat.{pow-suc}
use duckdb_splunk.Prelude.{
  ℕ, zero, suc, ◌^◌, ◌≤◌, ◌<◌, ◌≡◌, ◌≢◌, ◌↔◌, ◌⊎◌, refl, Bool, Option, none, some, Bytes, arith, ℤ,
  pos, negsuc,
}
use duckdb_splunk.External.{StringUtil}
use duckdb_splunk.Client.Connection.{SplunkClient}
use duckdb_splunk.Client.Retry.{
  other_error, Reply, no_response, response, Response, Decision, finish, wait, decide, returned,
  undefined_shift, out_of_fuel, backoff_seconds, rate_limit_retry_delay_seconds, parsed_seconds,
  advised_seconds,
}
use duckdb_splunk.Client.Retry.Stoll.{stoll}

-- The failures that may pass: a lost connection, a rate limit, an error of the server.
abbrev pub IsTransient : Reply → Type 0
IsTransient (no_response (other_error n)) = Unit {0}
IsTransient (no_response _) = ⊥
IsTransient (response r) = (r.status ≡ 429) ⊎ (500 ≤ r.status)

-- A wait whose time is known. `wait none` is the undefined shift: no wait, and no further attempt.
abbrev pub Waits : Decision Bytes → Type 0
Waits (finish o) = ⊥
Waits (wait none) = ⊥
Waits (wait (some seconds)) = Unit {0}

-- A wait, or the undefined shift in its place.
abbrev GoesOn : Decision Bytes → Type 0
GoesOn (finish o) = ⊥
GoesOn (wait d) = Unit {0}

module _ (su : StringUtil) (client : SplunkClient) (index_discovery : Bool) where
  decide-GoesOn_only :
      (attempt : ℕ) (r : Reply)
      → GoesOn (decide su client index_discovery attempt r)
      → (attempt < client.retries) × IsTransient r
  unfolding decide
  decide-GoesOn_only attempt (no_response (other_error n)) h = ground arith
  decide-GoesOn_only attempt (no_response _) h = ground arith
  decide-GoesOn_only attempt (response r) h = ground arith

  decide-GoesOn_if :
      (attempt : ℕ) (r : Reply)
      → (attempt < client.retries) × IsTransient r
      → GoesOn (decide su client index_discovery attempt r)
  unfolding decide
  decide-GoesOn_if attempt (no_response (other_error n)) h = ground arith
  decide-GoesOn_if attempt (no_response _) h = ground arith
  decide-GoesOn_if attempt (response r) h = ground arith

  -- If an attempt ends a request with a body, then the server answered it with that body and a
  -- status from 200 to 299.
  decide-returned :
      (attempt : ℕ) (r : Reply) (body : Bytes)
      → decide su client index_discovery attempt r ≡ finish (returned body)
      → (a : Response) × (r ≡ response a) × (200 ≤ a.status) × (a.status < 300) × (a.body ≡ body)
  unfolding decide
  decide-returned attempt (no_response (other_error n)) body h = ground arith
  decide-returned attempt (no_response _) body h = ground arith
  decide-returned attempt (response r) body h = (r, refl, ground arith, ground arith, ground arith)

pow_pos : (n : ℕ) → 1 ≤ 2 ^ n
pow_pos zero = omega arith
pow_pos (suc n) = rw pow-suc (omega (arith, pow_pos n))

-- A wait takes between a second and a minute.
abbrev pub IsDelay : Option ℕ → Type 0
IsDelay none = Unit {0}
IsDelay (some seconds) = (1 ≤ seconds) × (seconds ≤ 60)

pub backoff_seconds-IsDelay : (attempt : ℕ) → IsDelay (backoff_seconds attempt)
unfolding backoff_seconds
backoff_seconds-IsDelay attempt = ground (arith, pow_pos attempt)

parsed_seconds-IsDelay : (o : Option ℤ) (attempt : ℕ) → IsDelay (parsed_seconds o attempt)
unfolding parsed_seconds advised_seconds
parsed_seconds-IsDelay none attempt = backoff_seconds-IsDelay attempt
parsed_seconds-IsDelay (some (negsuc n)) attempt = omega arith
parsed_seconds-IsDelay (some (pos n)) attempt = ground arith

pub rate_limit-IsDelay :
    (header : Option Bytes) (attempt : ℕ) → IsDelay (rate_limit_retry_delay_seconds header attempt)
unfolding rate_limit_retry_delay_seconds
rate_limit-IsDelay none attempt = backoff_seconds-IsDelay attempt
rate_limit-IsDelay (some header) attempt = parsed_seconds-IsDelay (stoll header) attempt

module _ (su : StringUtil) (client : SplunkClient) (index_discovery : Bool) where
  -- Whatever is waited for is a delay; it is known while the attempt is below 64.
  abbrev pub WaitsFor : ℕ → Decision Bytes → Type 0
  WaitsFor attempt (finish o) = (o ≢ undefined_shift) × (o ≢ out_of_fuel)
  WaitsFor attempt (wait d) = IsDelay d × (attempt < client.retries) × (attempt < 64 → d ≢ none)

  backoff_known : (attempt : ℕ) → attempt < 64 → backoff_seconds attempt ≢ none
  unfolding backoff_seconds
  backoff_known attempt h = ground arith

  rate_limit_known :
      (header : Option Bytes) (attempt : ℕ)
      → attempt < 64
      → rate_limit_retry_delay_seconds header attempt ≢ none
  unfolding rate_limit_retry_delay_seconds
  rate_limit_known none attempt h = backoff_known attempt h
  rate_limit_known (some header) attempt h = known (stoll header)
    where
      known : (o : Option ℤ) → parsed_seconds o attempt ≢ none
      known none = unfold parsed_seconds in backoff_known attempt h
      known (some z) = unfold parsed_seconds in λ e. cc

  pub decide-WaitsFor :
      (attempt : ℕ) (r : Reply) → WaitsFor attempt (decide su client index_discovery attempt r)
  unfolding decide
  decide-WaitsFor attempt (no_response (other_error n)) =
      ground (arith, backoff_seconds-IsDelay attempt, backoff_known attempt)
  decide-WaitsFor attempt (no_response _) = ground arith
  decide-WaitsFor attempt (response r) = ground (
    arith,
    backoff_seconds-IsDelay attempt,
    backoff_known attempt,
    rate_limit-IsDelay r.retry_after attempt,
    rate_limit_known r.retry_after attempt,
  )

  Waits-GoesOn : (d : Decision Bytes) → Waits d → GoesOn d
  Waits-GoesOn (finish o) w = w
  Waits-GoesOn (wait none) w = tt
  Waits-GoesOn (wait (some seconds)) w = tt

  -- Below 64 the time of a wait is known.
  GoesOn-Waits :
      (attempt : ℕ) (d : Decision Bytes) → WaitsFor attempt d → attempt < 64 → GoesOn d → Waits d
  GoesOn-Waits attempt (finish o) k b g = g
  GoesOn-Waits attempt (wait none) k b g = absurd (k.2 b refl)
  GoesOn-Waits attempt (wait (some seconds)) k b g = tt

  -- For an attempt below 64, the decision is to wait for a known time and then try again
  -- exactly if retries are left and the failure may pass: a transport error other than the
  -- three of certificates, the status 429, or a status of 500 and above.
  pub decide-Waits :
      (attempt : ℕ) (r : Reply)
      → attempt < 64
      → Waits (decide su client index_discovery attempt r)
        ↔ ((attempt < client.retries) × IsTransient r)
  decide-Waits attempt r b = (
    λ w. decide-GoesOn_only su client index_discovery attempt r (Waits-GoesOn _ w),
    λ h.
        GoesOn-Waits attempt _ (decide-WaitsFor attempt r) b
          (decide-GoesOn_if su client index_discovery attempt r h),
  )
