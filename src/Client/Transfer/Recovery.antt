-- ===== src/Client/Transfer/Recovery.antt =====
-- An export whose server answers after failures that are retried.
use duckdb_splunk.Prelude.{
  ℕ, zero, suc, ◌+◌, ◌≤◌, ◌<◌, ◌≡◌, refl, ap, ◌∙◌, true, false, none, some, arith, inl, inr,
  if_false, subst,
}
use duckdb_splunk.External.{StringUtil}
use duckdb_splunk.Errors.{Run, running, thrown}
use duckdb_splunk.Client.Connection.{SplunkClient}
use duckdb_splunk.Client.Retry.{wait, Network, returned, raised, last_attempt, one_more}
use duckdb_splunk.Client.Transfer.{
  Exchange, Consumer, Receiving, receiving, is_success, receive, decide_export, Exported,
  export_decided, export_received, export_from,
}
use duckdb_splunk.Client.Transfer.Waits.{
  IsTransientExchange, WaitsOn, status-WaitsOn, failure-WaitsOn, ends_well,
}
use duckdb_splunk.Client.Transfer.Receive.{Unfed, IsReceived, receive-nil, receive-IsReceived}

-- All attempts before attempt `n` fail in a way that may pass, and nobody interrupts the query.
-- Behind the bound of 64 the client shifts too far.
pub record Attempting (client : SplunkClient) (net : Network Exchange) (n : ℕ) : Type 0 where
  pub allowed : n ≤ client.retries
  pub representable : n ≤ 64
  pub uninterrupted : (k : ℕ) → net.is_interrupted k ≡ false
  pub slept : (k : ℕ) → net.wait_interrupted k ≡ false
  pub fails : (k : ℕ) → k < n → IsTransientExchange (net.reply k)

-- The server answers attempt `n` in full, all before it fail, and nobody interrupts the query.
-- Behind the bound of 64 the client shifts too far.
pub record Recovers (client : SplunkClient) (net : Network Exchange) (n : ℕ) : Type 0 where
  pub allowed : n ≤ client.retries
  pub representable : n ≤ 64
  pub uninterrupted : (k : ℕ) → net.is_interrupted k ≡ false
  pub slept : (k : ℕ) → net.wait_interrupted k ≡ false
  pub fails : (k : ℕ) → k < n → IsTransientExchange (net.reply k)
  pub succeeds : is_success (net.reply n).status ≡ true
  pub whole : (net.reply n).failure ≡ none

module _ {S : Type 0} (su : StringUtil) (client : SplunkClient) where
  module _ (consumer : Consumer S) (net : Network Exchange) where
    -- An exchange as the client receives it.
    abbrev received : ℕ → S → Run (Receiving S)
    received attempt s =
        receive consumer (is_success (net.reply attempt).status) (net.reply attempt).chunks
          (receiving s)

    -- A refused body reaches the consumer not at all.
    receives_error :
        (attempt : ℕ) (s : S)
        → is_success (net.reply attempt).status ≡ false
        → (r : Receiving S) × (received attempt s ≡ running r)
          × (r.state ≡ s)
          × (r.stopped_by_consumer ≡ false)
    receives_error attempt s h = unfed (received attempt s) refl (
        subst
          (λ success. IsReceived consumer (net.reply attempt).chunks success s (received attempt s))
          h (receive-IsReceived consumer _ (net.reply attempt).chunks s))
      where
        unfed :
            (t : Run (Receiving S))
            → received attempt s ≡ t
            → Unfed consumer (receiving s) t
            → (r : Receiving S) × (received attempt s ≡ running r)
              × (r.state ≡ s)
              × (r.stopped_by_consumer ≡ false)
        unfed (running r) e u = (r, e, u.0, u.1)
        unfed (thrown e r) e' u = absurd u

    -- A failure is received as nothing, and waited for.
    transient_waits :
        (attempt : ℕ) (s : S)
        → IsTransientExchange (net.reply attempt)
        → attempt < client.retries
        → attempt < 64
        → (r : Receiving S) × (received attempt s ≡ running r)
          × (r.state ≡ s)
          × WaitsOn su client attempt (net.reply attempt) r
    transient_waits attempt s (inl (down, complete)) b b' =
        let (r, e, same, o) = receives_error attempt s (ground arith) in
        (r, e, same, status-WaitsOn su client attempt (net.reply attempt) r down complete b b' o)
    transient_waits attempt s (inr (no_body, code, broken)) b b' = (
      receiving s,
      ap (λ chunks. receive consumer (is_success (net.reply attempt).status) chunks (receiving s))
            no_body
          ∙ receive-nil consumer _ (receiving s),
      refl,
      failure-WaitsOn su client attempt (net.reply attempt) s code broken b b',
    )

    -- Behind a wait that nobody interrupts, the next round.
    decided_waits :
        (attempt seconds : ℕ) (s : S) (r : Receiving S) (next : S → Exported S)
        → net.wait_interrupted attempt ≡ false
        → decide_export su client attempt (net.reply attempt) r ≡ wait (some seconds)
        → r.state ≡ s
        → export_received su client consumer net attempt (running r) next
          ≡ (one_more seconds (next s).0, (next s).1)
    decided_waits attempt seconds s r next w d same =
        ap
          (λ decision.
            export_decided (net.wait_interrupted attempt) decision r.state (next r.state))
          d
        ∙ if_false _ _ w
        ∙ ap (λ s'. (one_more seconds (next s').0, (next s').1)) same

    -- A round of the loop that goes on to the next.
    retries_on :
        (fuel attempt : ℕ) (s : S)
        → net.is_interrupted attempt ≡ false
        → net.wait_interrupted attempt ≡ false
        → IsTransientExchange (net.reply attempt)
        → attempt < client.retries
        → attempt < 64
        → (seconds : ℕ) × (export_from su client consumer net (suc fuel) attempt s ≡ (
          one_more seconds (export_from su client consumer net fuel (attempt + 1) s).0,
          (export_from su client consumer net fuel (attempt + 1) s).1,
        ))
    unfolding export_from
    retries_on fuel attempt s i w t b b' =
        let (r, e, same, waited) = transient_waits attempt s t b b' in
        let (seconds, d) = waited in
        (
          seconds,
          if_false _ _ i
              ∙ ap
                  (λ run.
                    export_received su client consumer net attempt run
                      (λ s'. export_from su client consumer net fuel (attempt + 1) s'))
                  e
              ∙ decided_waits attempt seconds s r
                  (λ s'. export_from su client consumer net fuel (attempt + 1) s') w d same,
        )

    -- How an export ends with what it has received.
    abbrev pub ended : Run (Receiving S) → Exported S
    ended (running r) = (last_attempt (returned tt), r.state)
    ended (thrown e r) = (last_attempt (raised e), r.state)

    received-ended :
        (attempt : ℕ) (t : Run (Receiving S)) (next : S → Exported S)
        → is_success (net.reply attempt).status ≡ true
        → (net.reply attempt).failure ≡ none
        → export_received su client consumer net attempt t next ≡ ended t
    received-ended attempt (thrown e r) next h f = refl
    received-ended attempt (running r) next h f =
        ap
          (λ decision.
            export_decided (net.wait_interrupted attempt) decision r.state (next r.state))
          (ends_well su client attempt (net.reply attempt) r h f)

    -- The answer.
    answers :
        (fuel attempt : ℕ) (s : S)
        → net.is_interrupted attempt ≡ false
        → is_success (net.reply attempt).status ≡ true
        → (net.reply attempt).failure ≡ none
        → export_from su client consumer net (suc fuel) attempt s
          ≡ ended (receive consumer true (net.reply attempt).chunks (receiving s))
    unfolding export_from
    answers fuel attempt s i h f =
        if_false _ _ i
        ∙ received-ended attempt _ _ h f
        ∙ ap (λ success. ended (receive consumer success (net.reply attempt).chunks (receiving s)))
            h

    -- From an attempt before it, the loop comes to attempt `n`.
    pub Attempting-export_from :
        (n : ℕ)
        → Attempting client net n
        → (fuel attempt left : ℕ) (s : S) → left + attempt ≡ n
        → left < fuel
        → (rest : ℕ) × ((export_from su client consumer net fuel attempt s).0.outcome
            ≡ (export_from su client consumer net (suc rest) n s).0.outcome)
          × ((export_from su client consumer net fuel attempt s).1
              ≡ (export_from su client consumer net (suc rest) n s).1)
    Attempting-export_from n h zero attempt left s e b = absurd (omega arith)
    Attempting-export_from n h (suc fuel) attempt zero s e b =
        let here : attempt ≡ n = omega arith in
        (
          fuel,
          ap (λ k. (export_from su client consumer net (suc fuel) k s).0.outcome) here,
          ap (λ k. (export_from su client consumer net (suc fuel) k s).1) here,
        )
    Attempting-export_from n h (suc fuel) attempt (suc left) s e b =
        let before : attempt < n = omega arith in
        let (seconds, round) =
          retries_on fuel attempt s (h.uninterrupted attempt) (h.slept attempt)
            (h.fails attempt before) (let m = h.allowed in omega arith)
            (let m = h.representable in omega arith) in
        let (rest, outcome, state) =
          Attempting-export_from n h fuel (attempt + 1) left s (omega arith) (omega arith) in
        (
          rest,
          ap (λ (t : Exported S). t.0.outcome) round ∙ outcome,
          ap (λ (t : Exported S). t.1) round ∙ state,
        )

    attempting : (n : ℕ) → Recovers client net n → Attempting client net n
    attempting n h = record {
      allowed = h.allowed;
      representable = h.representable;
      uninterrupted = h.uninterrupted;
      slept = h.slept;
      fails = h.fails;
    }

    -- The loop comes to the answer.
    pub Recovers-export_from :
        (n : ℕ)
        → Recovers client net n
        → (fuel attempt left : ℕ) (s : S) → left + attempt ≡ n
        → left < fuel
        → ((export_from su client consumer net fuel attempt s).0.outcome
            ≡ (ended (receive consumer true (net.reply n).chunks (receiving s))).0.outcome)
          × ((export_from su client consumer net fuel attempt s).1
              ≡ (ended (receive consumer true (net.reply n).chunks (receiving s))).1)
    Recovers-export_from n h fuel attempt left s e b =
        let (rest, outcome, state) =
          Attempting-export_from n (attempting n h) fuel attempt left s e b in
        let end = answers rest n s (h.uninterrupted n) h.succeeds h.whole in
        (
          outcome ∙ ap (λ (t : Exported S). t.0.outcome) end,
          state ∙ ap (λ (t : Exported S). t.1) end,
        )
