-- ===== src/Client/Transfer/Breaks.antt =====
-- An export whose answer breaks off.
use duckdb_splunk.Prelude.{
  ℕ, suc, ◌+◌, ◌<◌, ◌≡◌, ◌⊎◌, refl, ap, ◌∙◌, sym, inl, inr, true, false, some, arith, if_true,
  if_false, if◌then◌else◌, Bool-cases,
}
use duckdb_splunk.External.{StringUtil}
use duckdb_splunk.Errors.{export_failed, Run, running, thrown}
use duckdb_splunk.Client.Connection.{SplunkClient, normalize_url}
use duckdb_splunk.Client.Retry.{
  TransportError, error_code, is_retryable_transport_error, Network, finish, returned, raised,
  last_attempt,
}
use duckdb_splunk.Client.Transfer.{
  Exchange, Consumer, Receiving, receiving, is_success, receive, decide_export, Exported,
  export_decided, export_received, export_from,
}
use duckdb_splunk.Client.Transfer.Receive.{total}
use duckdb_splunk.Client.Transfer.Counts.{Counts, receive-Counts}
use duckdb_splunk.Client.Transfer.Recovery.{Attempting, Attempting-export_from}

-- Attempt `n` is answered with a success whose body breaks off with `error`, behind a byte at
-- least, or where no retry is left or the error is one that is not retried.
pub record Breaks (client : SplunkClient) (net : Network Exchange) (n : ℕ) (error : TransportError)
    : Type 0 where
  pub attempting : Attempting client net n
  pub succeeds : is_success (net.reply n).status ≡ true
  pub broken : (net.reply n).failure ≡ some error
  pub told :
      (0 < total (net.reply n).chunks)
      ⊎ ((n ≡ client.retries) ⊎ (is_retryable_transport_error error ≡ false))

module _ {S : Type 0} (su : StringUtil) (client : SplunkClient) (consumer : Consumer S)
    (net : Network Exchange) where
  -- How the export ends, with what it has received.
  abbrev pub broken_off : TransportError → Run (Receiving S) → Exported S
  broken_off error (thrown e r) = (last_attempt (raised e), r.state)
  broken_off error (running r) = (
    last_attempt (
        if r.stopped_by_consumer
        then returned tt
        else raised
            (export_failed (normalize_url su client.url) r.success_bytes (error_code error))),
    r.state,
  )

  decides_broken :
      (attempt : ℕ) (error : TransportError) (r : Receiving S)
      → (net.reply attempt).failure ≡ some error
      → (0 < r.success_bytes)
        ⊎ ((attempt ≡ client.retries) ⊎ (is_retryable_transport_error error ≡ false))
      → r.stopped_by_consumer ≡ false
      → decide_export su client attempt (net.reply attempt) r
        ≡ finish (
            raised (export_failed (normalize_url su client.url) r.success_bytes (error_code error)))
  unfolding decide_export
  decides_broken attempt error r f (inl fed) o = rw f (ground arith)
  decides_broken attempt error r f (inr (inl last)) o = rw f (ground arith)
  decides_broken attempt error r f (inr (inr final)) o = rw f (ground arith)

  decides_stopped :
      (attempt : ℕ) (r : Receiving S)
      → r.stopped_by_consumer ≡ true
      → decide_export su client attempt (net.reply attempt) r ≡ finish (returned tt)
  unfolding decide_export
  decides_stopped attempt r o = if_true _ _ o

  received-broken_off :
      (n : ℕ) (error : TransportError) (s : S) (t : Run (Receiving S)) (next : S → Exported S)
      → Breaks client net n error
      → Counts consumer (net.reply n).chunks (receiving s) t
      → export_received su client consumer net n t next ≡ broken_off error t
  received-broken_off n error s (thrown e r) next b c = refl
  received-broken_off n error s (running r) next b c = elim (Bool-cases r.stopped_by_consumer) [
    | inl stop ↦
        ap (λ d. export_decided (net.wait_interrupted n) d r.state (next r.state))
          (decides_stopped n r stop)
        ∙ ap (λ o. (last_attempt o, r.state)) (sym (if_true _ _ stop))
    | inr go ↦
        ap (λ d. export_decided (net.wait_interrupted n) d r.state (next r.state))
          (decides_broken n error r b.broken (counted b.told (c.1 go)) go)
        ∙ ap (λ o. (last_attempt o, r.state)) (sym (if_false _ _ go))
  ]
    where
      counted : {A : Type 0} {bytes all : ℕ} → (0 < all) ⊎ A → bytes ≡ 0 + all → (0 < bytes) ⊎ A
      counted (inl fed) e = inl (omega arith)
      counted (inr other) e = inr other

  round-broken_off :
      (fuel n : ℕ) (error : TransportError) (s : S)
      → Breaks client net n error
      → consumer.has_stopped s ≡ false
      → export_from su client consumer net (suc fuel) n s
        ≡ broken_off error (receive consumer true (net.reply n).chunks (receiving s))
  unfolding export_from
  round-broken_off fuel n error s b h =
      if_false _ _ (b.attempting.uninterrupted n)
      ∙ ap
          (λ success.
            export_received su client consumer net n
              (receive consumer success (net.reply n).chunks (receiving s))
              (λ s'. export_from su client consumer net fuel (n + 1) s'))
          b.succeeds
      ∙ received-broken_off n error s _ _ b
          (receive-Counts consumer (net.reply n).chunks (receiving s) refl h)

  -- From the first attempt, the loop comes to the answer that breaks off.
  pub Breaks-export_from :
      (n : ℕ) (error : TransportError) (s : S)
      → Breaks client net n error
      → consumer.has_stopped s ≡ false
      → ((export_from su client consumer net (client.retries + 1) 0 s).0.outcome
          ≡ (broken_off error (receive consumer true (net.reply n).chunks (receiving s))).0.outcome)
        × ((export_from su client consumer net (client.retries + 1) 0 s).1
            ≡ (broken_off error (receive consumer true (net.reply n).chunks (receiving s))).1)
  Breaks-export_from n error s b h =
      let m = b.attempting.allowed in
      let (rest, outcome, state) =
        Attempting-export_from su client consumer net n b.attempting (client.retries + 1) 0 n s
          (omega arith) (omega arith) in
      let end = round-broken_off rest n error s b h in
      (outcome ∙ ap (λ (t : Exported S). t.0.outcome) end, state ∙ ap (λ (t : Exported S). t.1) end)
