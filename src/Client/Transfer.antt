-- ===== src/Client/Transfer.antt =====
-- src/splunk_client.cpp: the native ExportSearch, which streams the response into a consumer.
pub mod Receive
pub mod Once
pub mod Waits
pub mod Recovery
pub mod Counts
pub mod Breaks
pub mod Refused
use duckdb_splunk.Prelude.{
  ℕ, zero, suc, ◌+◌, ◌-◌, Bool, true, false, not, ◌&&◌, ◌||◌, Option, none, some, List, [], ◌∷◌,
  ◌++◌, Bytes, codes, length, take, min, ltb, leb, ◌==◌, if◌then◌else◌,
}
use duckdb_splunk.External.{StringUtil}
use duckdb_splunk.Errors.{
  Exception, interrupted, export_failed, http_status, Run, running, thrown, and_then,
}
use duckdb_splunk.Client.Connection.{SplunkClient, normalize_url}
use duckdb_splunk.Client.Retry.{
  TransportError, error_code, is_retryable_transport_error, backoff_seconds,
  rate_limit_retry_delay_seconds, Outcome, returned, raised, undefined_shift, out_of_fuel, Decision,
  finish, wait, Network, Attempts, unsent, last_attempt, one_more,
}

-- The request of `ExportSearch`.
pub record ExportRequest : Type 0 where
  pub method : Bytes
  pub path : Bytes
  pub headers : List (Bytes × Bytes)
  pub body : Bytes

unfoldable pub export_request : Bytes → ExportRequest
export_request form_body = record {
  method = codes "POST";
  path = codes "/services/search/v2/jobs/export";
  headers =
      (codes "Accept", codes "application/json")
      ∷ (codes "Content-Type", codes "application/x-www-form-urlencoded")
      ∷ [];
  body = form_body;
}

-- One exchange: the status line, the chunks of the body, and the error that cut it short, if any.
pub record Exchange : Type 0 where
  pub status : ℕ
  pub retry_after : Option Bytes
  pub chunks : List Bytes
  pub failure : Option TransportError

-- `on_chunk`: what it does to its state, and the states in which it has answered false.
pub record Consumer (S : Type 0) : Type 0 where
  pub consume : Bytes → S → Run S
  pub has_stopped : S → Bool

-- The variables that the two handlers of a request share, and the consumer's state.
pub record Receiving (S : Type 0) : Type 0 where
  pub state : S
  pub stopped_by_consumer : Bool
  pub success_bytes : ℕ
  pub error_body : Bytes

abbrev pub receiving : {S : Type 0} → S → Receiving S
receiving s = record { state = s; stopped_by_consumer = false; success_bytes = 0; error_body = [] }

-- `response.status >= 200 && response.status < 300`.
abbrev pub is_success : ℕ → Bool
is_success status = leb 200 status && ltb status 300

module _ {S : Type 0} (consumer : Consumer S) where
  open consumer use {consume, has_stopped}

  -- Behind the call of `on_chunk`.
  abbrev pub consumed : Bytes → Receiving S → Run S → Run (Receiving S)
  consumed chunk r (thrown e s) = thrown e (record r { state = s })
  consumed chunk r (running s) = running (
      if has_stopped s
      then record r { state = s; stopped_by_consumer = true }
      else record r { state = s; success_bytes = r.success_bytes + length chunk })

  -- `content_receiver`.
  unfoldable pub content_receiver : Bool → Bytes → Receiving S → Run (Receiving S)
  content_receiver success_status chunk r =
      if success_status
      then consumed chunk r (consume chunk r.state)
      else if ltb (length r.error_body) 4096
      then running (record r {
        error_body = r.error_body ++ take (min (length chunk) (4096 - length r.error_body)) chunk;
      })
      else running r

  -- The HTTP library hands over the chunks until the receiver returns false.
  unfoldable pub receive : Bool → List Bytes → Receiving S → Run (Receiving S)
  receive success_status [] r = running r
  receive success_status (chunk ∷ chunks) r =
      and_then (content_receiver success_status chunk r) (λ r'.
        let rest = receive success_status chunks r' in
        if r'.stopped_by_consumer then running r' else rest)

module _ {S : Type 0} (su : StringUtil) (client : SplunkClient) where
  decide_failure : ℕ → TransportError → Receiving S → Decision (Unit {0})
  decide_failure attempt e r =
      if ltb 0 r.success_bytes
        || (leb client.retries attempt || not (is_retryable_transport_error e))
      then finish
          (raised (export_failed (normalize_url su client.url) r.success_bytes (error_code e)))
      else wait (backoff_seconds attempt)

  decide_status : ℕ → Exchange → Receiving S → Decision (Unit {0})
  decide_status attempt x r =
      if x.status == 429 && ltb attempt client.retries
      then wait (rate_limit_retry_delay_seconds x.retry_after attempt)
      else if leb 500 x.status && ltb attempt client.retries
      then wait (backoff_seconds attempt)
      else if ltb x.status 200 || leb 300 x.status
      then finish (raised (http_status x.status r.error_body))
      else finish (returned tt)

  decide_end : ℕ → Exchange → Receiving S → Option TransportError → Decision (Unit {0})
  decide_end attempt x r (some e) = decide_failure attempt e r
  decide_end attempt x r none = decide_status attempt x r

  -- The body of the loop in `ExportSearch`, behind `send`.
  unfoldable pub decide_export : ℕ → Exchange → Receiving S → Decision (Unit {0})
  unfolding decide_failure decide_status decide_end is_retryable_transport_error
  decide_export attempt x r =
      if r.stopped_by_consumer then finish (returned tt) else decide_end attempt x r x.failure

-- An export so far: its attempts, and the state of the consumer.
abbrev pub Exported : Type 0 → Type 0
Exported S = Attempts (Unit {0}) × S

module _ {S : Type 0} where
  -- `SleepCheckingInterrupt` and the next round; `next` is the rest of the loop.
  abbrev pub export_wait : Bool → Option ℕ → S → Exported S → Exported S
  export_wait stopped none s next = (last_attempt undefined_shift, s)
  export_wait stopped (some seconds) s next =
      if stopped then (last_attempt (raised interrupted), s) else (one_more seconds next.0, next.1)

  abbrev pub export_decided : Bool → Decision (Unit {0}) → S → Exported S → Exported S
  export_decided stopped (finish o) s next = (last_attempt o, s)
  export_decided stopped (wait delay) s next = export_wait stopped delay s next

module _ {S : Type 0} (su : StringUtil) (client : SplunkClient) (consumer : Consumer S)
    (net : Network Exchange) where
  -- Behind `send`: an exception of the consumer leaves the loop.
  abbrev pub export_received : ℕ → Run (Receiving S) → (S → Exported S) → Exported S
  export_received attempt (thrown e r) next = (last_attempt (raised e), r.state)
  export_received attempt (running r) next =
      export_decided (net.wait_interrupted attempt)
        (decide_export su client attempt (net.reply attempt) r) r.state (next r.state)

  -- The loop from an attempt on.
  unfoldable pub export_from : ℕ → ℕ → S → Exported S
  export_from zero attempt s = (unsent out_of_fuel, s)
  export_from (suc fuel) attempt s =
      let x = net.reply attempt in
      let sent =
        export_received attempt (receive consumer (is_success x.status) x.chunks (receiving s))
          (λ s'. export_from fuel (attempt + 1) s') in
      if net.is_interrupted attempt then (unsent (raised interrupted), s) else sent

  -- The native `ExportSearch`.
  unfoldable pub export_search : S → Exported S
  export_search s = export_from (client.retries + 1) 0 s
