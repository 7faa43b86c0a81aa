-- ===== src/Client/Transfer/Once.antt =====
-- The consumer sees the bytes of one response at most.
use duckdb_splunk.Prelude.{
  ℕ, zero, suc, ◌+◌, ◌≤◌, ◌<◌, ◌≡◌, ◌⊎◌, refl, ap, ◌∙◌, sym, Bool, true, false, Option, none, some,
  List, [], ◌∷◌, Bytes, length, All, arith, Bool-cases, inl, inr, if_true, if_false, subst,
  if◌then◌else◌,
}
use duckdb_splunk.External.{StringUtil}
use duckdb_splunk.Errors.{Run, running, thrown, interrupted}
use duckdb_splunk.Client.Connection.{SplunkClient}
use duckdb_splunk.Client.Retry.{
  TransportError, Decision, finish, wait, Network, unsent, raised, returned,
}
use duckdb_splunk.Client.Transfer.{
  Exchange, Consumer, Receiving, receiving, is_success, receive, decide_export, decide_status,
  decide_end, decide_failure, Exported, export_wait, export_decided, export_received, export_from,
  export_search,
}
use duckdb_splunk.Client.Transfer.Receive.{total, feed, feed-nil, IsReceived, receive-IsReceived}

-- The HTTP library calls its receiver with a byte at least.
abbrev pub NoEmptyChunk : List Bytes → Type 0
NoEmptyChunk = All (λ chunk. 0 < length chunk)

abbrev state_of_run : {S : Type 0} → Run (Receiving S) → S
state_of_run (running r) = r.state
state_of_run (thrown e r) = r.state

module _ {S : Type 0} (su : StringUtil) (client : SplunkClient) (consumer : Consumer S) where
  total-pos : (chunks : List Bytes) → NoEmptyChunk chunks → total chunks ≤ 0 → chunks ≡ []
  total-pos [] h b = refl
  total-pos (chunk ∷ chunks) h b = absurd (let first = h.0 in omega arith)

  -- A retry is decided on only if the consumer has not been fed.
  end_unfed :
      (attempt : ℕ) (x : Exchange) (r : Receiving S) (f : Option TransportError) (d : Option ℕ)
      → decide_end su client attempt x r f ≡ wait d
      → (is_success x.status ≡ false) ⊎ (r.success_bytes ≤ 0)
  unfolding decide_end decide_failure decide_status
  end_unfed attempt x r none d h = inl (ground arith)
  end_unfed attempt x r (some e) d h = inr (ground arith)

  wait_unfed :
      (attempt : ℕ) (x : Exchange) (r : Receiving S) (d : Option ℕ)
      → decide_export su client attempt x r ≡ wait d
      → (r.stopped_by_consumer ≡ false) × ((is_success x.status ≡ false) ⊎ (r.success_bytes ≤ 0))
  unfolding decide_export
  wait_unfed attempt x r d h = elim (Bool-cases r.stopped_by_consumer) [
    | inl stop ↦ absurd (not_wait (sym (if_true _ _ stop) ∙ h))
    | inr go ↦ (go, end_unfed attempt x r x.failure d (sym (if_false _ _ go) ∙ h))
  ]
    where
      not_wait : finish (returned tt) ≡ wait d → ⊥
      not_wait e = cc

  -- The consumer is where it was, or where the chunks of one attempt take it.
  abbrev pub FedOnce : Network Exchange → S → S → Type 0
  FedOnce net before after =
      (after ≡ before)
      ⊎ ((n : ℕ) × (n ≤ client.retries) × (after ≡ feed consumer (net.reply n).chunks before))

  IsReceived-state :
      (chunks : List Bytes) (success : Bool) (s : S) (t : Run (Receiving S))
      → IsReceived consumer chunks success s t
      → (state_of_run t ≡ s) ⊎ (state_of_run t ≡ feed consumer chunks s)
  IsReceived-state chunks true s (thrown e r) h = inr h
  IsReceived-state chunks true s (running r) h = inr h.0
  IsReceived-state chunks false s (thrown e r) h = absurd h
  IsReceived-state chunks false s (running r) h = inl h.0

  -- What is retried has not moved the consumer.
  IsReceived-unmoved :
      (chunks : List Bytes) (success : Bool) (s : S) (r : Receiving S)
      → NoEmptyChunk chunks
      → IsReceived consumer chunks success s (running r)
      → r.stopped_by_consumer ≡ false
      → (success ≡ false) ⊎ (r.success_bytes ≤ 0)
      → r.state ≡ s
  IsReceived-unmoved chunks false s r n h o u = h.0
  IsReceived-unmoved chunks true s r n h o (inl e) = absurd (let e' : true ≡ false = e in cc)
  IsReceived-unmoved chunks true s r n h o (inr b) =
      let none_left = total-pos chunks n (let counted = h.1 o in omega arith) in
      h.0 ∙ ap (λ cs. feed consumer cs s) none_left ∙ feed-nil consumer s

  module _ (net : Network Exchange) (whole : (n : ℕ) → NoEmptyChunk (net.reply n).chunks) where
    export_wait-FedOnce :
        (stopped : Bool) (d : Option ℕ) (before s : S) (next : Exported S)
        → s ≡ before
        → FedOnce net before next.1
        → FedOnce net before (export_wait stopped d s next).1
    export_wait-FedOnce stopped none before s next e f = inl e
    export_wait-FedOnce true (some d) before s next e f = inl e
    export_wait-FedOnce false (some d) before s next e f = f

    -- One attempt has fed the consumer, or not.
    attempt-FedOnce :
        (attempt : ℕ) (before : S) (t : Run (Receiving S))
        → attempt ≤ client.retries
        → IsReceived consumer
            (net.reply attempt).chunks
            (is_success (net.reply attempt).status)
            before
            t
        → FedOnce net before (state_of_run t)
    attempt-FedOnce attempt before t b h =
        elim (IsReceived-state (net.reply attempt).chunks _ before t h) [
          | inl same ↦ inl same
          | inr fed ↦ inr (attempt, b, fed)
        ]

    decided-FedOnce :
        (attempt : ℕ) (before : S) (r : Receiving S) (next : S → Exported S)
        (d : Decision (Unit {0}))
        → decide_export su client attempt (net.reply attempt) r ≡ d
        → attempt ≤ client.retries
        → IsReceived consumer
            (net.reply attempt).chunks
            (is_success (net.reply attempt).status)
            before
            (running r)
        → FedOnce net before (next before).1
        → FedOnce net before
            (export_decided (net.wait_interrupted attempt) d r.state (next r.state)).1
    decided-FedOnce attempt before r next (finish o) e b h f =
        attempt-FedOnce attempt before (running r) b h
    decided-FedOnce attempt before r next (wait delay) e b h f =
        let (open_end, unfed) = wait_unfed attempt (net.reply attempt) r delay e in
        let unmoved =
          IsReceived-unmoved (net.reply attempt).chunks _ before r (whole attempt) h open_end
            unfed in
        export_wait-FedOnce (net.wait_interrupted attempt) delay before r.state (next r.state)
          unmoved (subst (λ s. FedOnce net before (next s).1) (sym unmoved) f)

    received-FedOnce :
        (attempt : ℕ) (before : S) (t : Run (Receiving S)) (next : S → Exported S)
        → attempt ≤ client.retries
        → IsReceived consumer
            (net.reply attempt).chunks
            (is_success (net.reply attempt).status)
            before
            t
        → FedOnce net before (next before).1
        → FedOnce net before (export_received su client consumer net attempt t next).1
    received-FedOnce attempt before (thrown e r) next b h f =
        attempt-FedOnce attempt before (thrown e r) b h
    received-FedOnce attempt before (running r) next b h f =
        decided-FedOnce attempt before r next _ refl b h f

    -- One round, with the rest of the loop as a function.
    abbrev round : ℕ → S → (S → Exported S) → Exported S
    round attempt before next =
        if net.is_interrupted attempt
        then (unsent (raised interrupted), before)
        else export_received su client consumer net attempt
            (receive consumer (is_success (net.reply attempt).status) (net.reply attempt).chunks
              (receiving before))
            next

    round-FedOnce :
        (attempt : ℕ) (before : S) (next : S → Exported S)
        → attempt ≤ client.retries
        → FedOnce net before (next before).1
        → FedOnce net before (round attempt before next).1
    round-FedOnce attempt before next b f = elim (Bool-cases (net.is_interrupted attempt)) [
      | inl stop ↦ inl (ap (λ (t : Exported S). t.1) (if_true _ _ stop))
      | inr go ↦
          subst (λ (t : Exported S). FedOnce net before t.1) (sym (if_false _ _ go))
            (received-FedOnce attempt before _ next b
              (receive-IsReceived consumer (is_success (net.reply attempt).status)
                (net.reply attempt).chunks before)
              f)
    ]

    export_from-round :
        (fuel attempt : ℕ) (before : S)
        → export_from su client consumer net (suc fuel) attempt before
          ≡ round attempt before (export_from su client consumer net fuel (attempt + 1))
    unfolding export_from
    export_from-round fuel attempt before = refl

    export_from-end :
        (attempt : ℕ) (before : S)
        → (export_from su client consumer net 0 attempt before).1 ≡ before
    unfolding export_from
    export_from-end attempt before = refl

    export_from-FedOnce :
        (fuel attempt : ℕ) (before : S)
        → fuel + attempt ≤ client.retries + 1
        → FedOnce net before (export_from su client consumer net fuel attempt before).1
    export_from-FedOnce zero attempt before h = inl (export_from-end attempt before)
    export_from-FedOnce (suc fuel) attempt before h =
        subst (λ (t : Exported S). FedOnce net before t.1)
          (sym (export_from-round fuel attempt before))
          (round-FedOnce attempt before _ (omega arith)
            (export_from-FedOnce fuel (attempt + 1) before (omega arith)))

    -- If the HTTP library hands over no empty chunk, then the consumer's state at the end of
    -- an export, however it ends, is the state before it, or what the chunks of exactly one
    -- of the attempts 0 to `retries` make of that: a retry never feeds the consumer a second
    -- time.
    pub export_search-FedOnce :
        (before : S) → FedOnce net before (export_search su client consumer net before).1
    unfolding export_search
    export_search-FedOnce before = export_from-FedOnce (client.retries + 1) 0 before (omega arith)
