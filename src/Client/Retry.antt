-- ===== src/Client/Retry.antt =====
-- src/splunk_client.cpp: RateLimitRetryDelaySeconds, IsRetryableTransportError and the native
-- AuthenticatedRequest, against a network that answers each attempt as it likes.
pub mod Stoll
pub mod Policy
pub mod Budget
pub mod Shift
pub mod Delays
pub mod Pool
pub mod Settles
use duckdb_splunk.Prelude.{
  ℕ, zero, suc, ◌+◌, ◌^◌, Bool, true, false, not, ◌&&◌, ◌||◌, Option, none, some, List, [], ◌∷◌,
  Bytes, ℤ, pos, negsuc, ltb, leb, ◌==◌, min, if◌then◌else◌,
}
use duckdb_splunk.External.{StringUtil}
use duckdb_splunk.Errors.{Exception, interrupted, request_failed, http_status, discovery_denied}
use duckdb_splunk.Client.Connection.{SplunkClient, normalize_url}
use Stoll.{stoll}

-- `duckdb_httplib_openssl::Error`, by what the client tells apart.
pub data TransportError : Type 0 where
  ssl_loading_certs ssl_server_verification ssl_server_hostname_verification : TransportError
  other_error : ℕ → TransportError

-- The number under which an error is reported.
abbrev pub error_code : TransportError → ℕ
error_code ssl_loading_certs = 0
error_code ssl_server_verification = 1
error_code ssl_server_hostname_verification = 2
error_code (other_error n) = n + 3

pub record Response : Type 0 where
  pub status : ℕ
  -- The header `Retry-After`, if there is one.
  pub retry_after : Option Bytes
  pub body : Bytes

pub data Reply : Type 0 where
  no_response : TransportError → Reply
  response : Response → Reply

-- `IsRetryableTransportError`.
unfoldable pub is_retryable_transport_error : TransportError → Bool
is_retryable_transport_error (other_error n) = true
is_retryable_transport_error _ = false

-- `MinValue<uint64_t>(uint64_t(1) << attempt, 60)`. Shifting 64 bits by 64 or more is undefined
-- in C++: `none`.
unfoldable pub backoff_seconds : ℕ → Option ℕ
backoff_seconds attempt = if ltb attempt 64 then some (min (2 ^ attempt) 60) else none

advised_seconds : ℤ → ℕ
advised_seconds (negsuc n) = 1
advised_seconds (pos seconds) = if ltb 59 seconds then 60 else seconds + 1

parsed_seconds : Option ℤ → ℕ → Option ℕ
parsed_seconds none attempt = backoff_seconds attempt
parsed_seconds (some seconds) attempt = some (advised_seconds seconds)

-- `RateLimitRetryDelaySeconds`, of the header `Retry-After`.
unfoldable pub rate_limit_retry_delay_seconds : Option Bytes → ℕ → Option ℕ
unfolding parsed_seconds advised_seconds
rate_limit_retry_delay_seconds none attempt = backoff_seconds attempt
rate_limit_retry_delay_seconds (some header) attempt = parsed_seconds (stoll header) attempt

-- How a request ends. `undefined_shift` is a run into undefined behaviour.
pub data Outcome (A : Type 0) : Type 0 where
  returned : A → Outcome A
  raised : Exception → Outcome A
  undefined_shift : Outcome A
  out_of_fuel : Outcome A

-- What one attempt leads to: an end, or a wait of so many seconds.
pub data Decision (A : Type 0) : Type 0 where
  finish : Outcome A → Decision A
  wait : Option ℕ → Decision A

module _ (su : StringUtil) (client : SplunkClient) (index_discovery : Bool) where
  decide_error : ℕ → TransportError → Decision Bytes
  decide_error attempt e =
      if leb client.retries attempt || not (is_retryable_transport_error e)
      then finish (raised (request_failed (normalize_url su client.url) (error_code e)))
      else wait (backoff_seconds attempt)

  refused : Response → Exception
  refused r =
      if index_discovery && (r.status == 401 || r.status == 403)
      then discovery_denied r.status
      else http_status r.status r.body

  decide_response : ℕ → Response → Decision Bytes
  decide_response attempt r =
      if r.status == 429 && ltb attempt client.retries
      then wait (rate_limit_retry_delay_seconds r.retry_after attempt)
      else if leb 500 r.status && ltb attempt client.retries
      then wait (backoff_seconds attempt)
      else if ltb r.status 200 || leb 300 r.status
      then finish (raised (refused r))
      else finish (returned r.body)

  -- The body of the loop in `AuthenticatedRequest`, behind the request.
  unfoldable pub decide : ℕ → Reply → Decision Bytes
  unfolding decide_error refused decide_response is_retryable_transport_error
  decide attempt (no_response e) = decide_error attempt e
  decide attempt (response r) = decide_response attempt r

-- What happens around the loop: whether the query is interrupted before an attempt, the answer to
-- each attempt, and whether the query is interrupted in the wait behind it.
pub record Network (Answer : Type 0) : Type 0 where
  pub is_interrupted : ℕ → Bool
  pub reply : ℕ → Answer
  pub wait_interrupted : ℕ → Bool

-- A request: its end, how often it was sent, and the seconds waited after each failure.
pub record Attempts (A : Type 0) : Type 0 where
  pub outcome : Outcome A
  pub requests : ℕ
  pub delays : List ℕ

module _ {A : Type 0} where
  abbrev pub last_attempt : Outcome A → Attempts A
  last_attempt o = record { outcome = o; requests = 1; delays = [] }

  abbrev pub one_more : ℕ → Attempts A → Attempts A
  one_more seconds t = record t { requests = t.requests + 1; delays = seconds ∷ t.delays }

  abbrev pub unsent : Outcome A → Attempts A
  unsent o = record { outcome = o; requests = 0; delays = [] }

  -- `SleepCheckingInterrupt` and the next round; `next` is the rest of the loop.
  abbrev pub sleep_then : Bool → Option ℕ → Attempts A → Attempts A
  sleep_then stopped none next = last_attempt undefined_shift
  sleep_then stopped (some seconds) next =
      if stopped then last_attempt (raised interrupted) else one_more seconds next

  abbrev pub after_decision : Bool → Decision A → Attempts A → Attempts A
  after_decision stopped (finish o) next = last_attempt o
  after_decision stopped (wait delay) next = sleep_then stopped delay next

module _ (su : StringUtil) (client : SplunkClient) (index_discovery : Bool)
    (net : Network Reply) where
  -- The loop from an attempt on. A request makes at most `retries + 1` rounds.
  unfoldable pub attempt_from : ℕ → ℕ → Attempts Bytes
  attempt_from zero attempt = unsent out_of_fuel
  attempt_from (suc fuel) attempt =
      let next = attempt_from fuel (attempt + 1) in
      let decided =
        after_decision (net.wait_interrupted attempt)
          (decide su client index_discovery attempt (net.reply attempt)) next in
      if net.is_interrupted attempt then unsent (raised interrupted) else decided

  -- The native `AuthenticatedRequest`.
  unfoldable pub authenticated_request : Attempts Bytes
  authenticated_request = attempt_from (client.retries + 1) 0
