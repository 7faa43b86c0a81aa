-- ===== src/Client/Transfer/Waits.antt =====
-- What `ExportSearch` decides on: failures that it waits for, and the end of an answer.
use duckdb_splunk.Prelude.{
  ℕ, ◌≤◌, ◌<◌, ◌≡◌, ◌⊎◌, ap, ◌∙◌, true, false, none, some, [], arith, inl, inr,
}
use duckdb_splunk.External.{StringUtil}
use duckdb_splunk.Client.Connection.{SplunkClient}
use duckdb_splunk.Client.Retry.{
  other_error, backoff_seconds, rate_limit_retry_delay_seconds, finish, wait, returned,
}
use duckdb_splunk.Client.Retry.Delays.{backoff_defined, rate_limit_defined}
use duckdb_splunk.Client.Transfer.{Exchange, Receiving, receiving, is_success, decide_export}

-- A failure that the client retries: an answer of 429 or of 500 and above, or a connection that
-- breaks before the body.
abbrev pub IsTransientExchange : Exchange → Type 0
IsTransientExchange x =
    (((500 ≤ x.status) ⊎ (x.status ≡ 429)) × (x.failure ≡ none))
    ⊎ ((x.chunks ≡ []) × (code : ℕ) × (x.failure ≡ some (other_error code)))

module _ {S : Type 0} (su : StringUtil) (client : SplunkClient) where
  waits_on_server_error :
      (attempt : ℕ) (x : Exchange) (r : Receiving S)
      → 500 ≤ x.status
      → x.failure ≡ none
      → attempt < client.retries
      → r.stopped_by_consumer ≡ false
      → decide_export su client attempt x r ≡ wait (backoff_seconds attempt)
  unfolding decide_export
  waits_on_server_error attempt x r h f b o = rw f (ground arith)

  waits_on_rate_limit :
      (attempt : ℕ) (x : Exchange) (r : Receiving S)
      → x.status ≡ 429
      → x.failure ≡ none
      → attempt < client.retries
      → r.stopped_by_consumer ≡ false
      → decide_export su client attempt x r
        ≡ wait (rate_limit_retry_delay_seconds x.retry_after attempt)
  unfolding decide_export
  waits_on_rate_limit attempt x r h f b o = rw f (ground arith)

  waits_on_failure :
      (attempt : ℕ) (x : Exchange) (s : S) (code : ℕ)
      → x.failure ≡ some (other_error code)
      → attempt < client.retries
      → decide_export su client attempt x (receiving s) ≡ wait (backoff_seconds attempt)
  unfolding decide_export
  waits_on_failure attempt x s code f b = rw f (ground arith)

  -- A wait of some seconds.
  abbrev pub WaitsOn : ℕ → Exchange → Receiving S → Type 0
  WaitsOn attempt x r = (seconds : ℕ) × (decide_export su client attempt x r ≡ wait (some seconds))

  pub status-WaitsOn :
      (attempt : ℕ) (x : Exchange) (r : Receiving S)
      → (500 ≤ x.status) ⊎ (x.status ≡ 429)
      → x.failure ≡ none
      → attempt < client.retries
      → attempt < 64
      → r.stopped_by_consumer ≡ false
      → WaitsOn attempt x r
  status-WaitsOn attempt x r (inl down) f b b' o =
      let (seconds, defined) = backoff_defined attempt b' in
      (seconds, waits_on_server_error attempt x r down f b o ∙ ap wait defined)
  status-WaitsOn attempt x r (inr limited) f b b' o =
      let (seconds, defined) = rate_limit_defined x.retry_after attempt b' in
      (seconds, waits_on_rate_limit attempt x r limited f b o ∙ ap wait defined)

  pub failure-WaitsOn :
      (attempt : ℕ) (x : Exchange) (s : S) (code : ℕ)
      → x.failure ≡ some (other_error code)
      → attempt < client.retries
      → attempt < 64
      → WaitsOn attempt x (receiving s)
  failure-WaitsOn attempt x s code f b b' =
      let (seconds, defined) = backoff_defined attempt b' in
      (seconds, waits_on_failure attempt x s code f b ∙ ap wait defined)

  -- A success.
  pub ends_well :
      (attempt : ℕ) (x : Exchange) (r : Receiving S)
      → is_success x.status ≡ true
      → x.failure ≡ none
      → decide_export su client attempt x r ≡ finish (returned tt)
  unfolding decide_export
  ends_well attempt x r h f = rw f (ground arith)
