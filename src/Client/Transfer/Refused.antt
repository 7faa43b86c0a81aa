-- ===== src/Client/Transfer/Refused.antt =====
-- An export that the server refuses.
use duckdb_splunk.Prelude.{
  ℕ, suc, ◌+◌, ◌-◌, ◌≤◌, ◌<◌, ◌≡◌, ◌≢◌, ◌⊎◌, refl, ap, ap₂, ◌∙◌, sym, inl, inr, true, false, none,
  List, [], ◌∷◌, ◌++◌, Bytes, length, take, min, flatten, length-append, append-nil, append_assoc,
  take-nil, take-append_min, arith, ltb, Bool-cases, if_true, if_false, if◌then◌else◌,
}
use duckdb_splunk.External.{StringUtil}
use duckdb_splunk.Errors.{Exception, http_status, running, and_then}
use duckdb_splunk.Client.Connection.{SplunkClient}
use duckdb_splunk.Client.Retry.{Network, finish, raised, last_attempt}
use duckdb_splunk.Client.Transfer.{
  Exchange, Consumer, Receiving, receiving, is_success, content_receiver, receive, decide_export,
  Exported, export_decided, export_received, export_from,
}
use duckdb_splunk.Client.Transfer.Receive.{receive-nil}
use duckdb_splunk.Client.Transfer.Recovery.{Attempting, Attempting-export_from}

abbrev pub error_body_limit : ℕ
error_body_limit = 4096

module _ {S : Type 0} (consumer : Consumer S) where
  -- The body of an error: its first bytes are kept, and the consumer sees nothing of it.
  record Keeps (chunks : List Bytes) (r q : Receiving S) : Type 0 where
    pub kept :
        q.error_body
        ≡ r.error_body ++ take (error_body_limit - length r.error_body) (flatten chunks)
    pub same_state : q.state ≡ r.state
    pub still_open : q.stopped_by_consumer ≡ r.stopped_by_consumer

  -- One chunk.
  abbrev keep : Bytes → Receiving S → Receiving S
  keep chunk r = record r {
    error_body =
        r.error_body ++ take (min (length chunk) (error_body_limit - length r.error_body)) chunk;
  }

  Keeps_full :
      (chunks : List Bytes) (r : Receiving S)
      → error_body_limit ≤ length r.error_body
      → Keeps chunks r r
  Keeps_full chunks r h = record {
    kept =
        sym (append-nil r.error_body)
        ∙ ap (λ m. r.error_body ++ take m (flatten chunks))
            (let nothing : 0 ≡ error_body_limit - length r.error_body = omega arith in nothing);
    same_state = refl;
    still_open = refl;
  }

  Keeps-keep :
      (chunk : Bytes) (chunks : List Bytes) (r q : Receiving S)
      → Keeps chunks (keep chunk r) q
      → Keeps (chunk ∷ chunks) r q
  Keeps-keep chunk chunks r q k =
      let room = error_body_limit - length r.error_body in
      let front = take (min (length chunk) room) chunk in
      record {
        kept =
            k.kept
            ∙ append_assoc r.error_body front _
            ∙ ap (◌++◌ r.error_body) (
                ap (λ m. front ++ take m (flatten chunks))
                  (let same : error_body_limit - length (r.error_body ++ front)
                        ≡ room - length front =
                      omega (arith, length-append r.error_body front) in
                    same)
                ∙ sym (take-append_min room chunk (flatten chunks)));
        same_state = k.same_state;
        still_open = k.still_open;
      }

  receive_step :
      (chunk : Bytes) (chunks : List Bytes) (r r' : Receiving S)
      → content_receiver consumer false chunk r ≡ running r'
      → r'.stopped_by_consumer ≡ false
      → receive consumer false (chunk ∷ chunks) r ≡ receive consumer false chunks r'
  unfolding receive
  receive_step chunk chunks r r' h o =
      ap
        (λ t.
          and_then t
            (λ q. if q.stopped_by_consumer then running q else receive consumer false chunks q))
        h
      ∙ if_false _ _ o

  receives_keep :
      (chunk : Bytes) (r : Receiving S)
      → ltb (length r.error_body) error_body_limit ≡ true
      → content_receiver consumer false chunk r ≡ running (keep chunk r)
  unfolding content_receiver
  receives_keep chunk r h = if_true _ _ h

  receives_full :
      (chunk : Bytes) (r : Receiving S)
      → ltb (length r.error_body) error_body_limit ≡ false
      → content_receiver consumer false chunk r ≡ running r
  unfolding content_receiver
  receives_full chunk r h = if_false _ _ h

  receive-Keeps :
      (chunks : List Bytes) (r : Receiving S)
      → r.stopped_by_consumer ≡ false
      → (q : Receiving S) × (receive consumer false chunks r ≡ running q) × Keeps chunks r q
  receive-Keeps [] r o = (
    r,
    receive-nil consumer false r,
    record {
      kept =
          sym (append-nil r.error_body)
          ∙ ap (◌++◌ r.error_body) (sym (take-nil (error_body_limit - length r.error_body)));
      same_state = refl;
      still_open = refl;
    },
  )
  receive-Keeps (chunk ∷ chunks) r o =
      elim (Bool-cases (ltb (length r.error_body) error_body_limit)) [
        | inl fits ↦
            let (q, run, k) = receive-Keeps chunks (keep chunk r) o in
            (
              q,
              receive_step chunk chunks r (keep chunk r) (receives_keep chunk r fits) o ∙ run,
              Keeps-keep chunk chunks r q k,
            )
        | inr full ↦
            let (q, run, k) = receive-Keeps chunks r o in
            let long : error_body_limit ≤ length r.error_body = ground arith in
            let all = Keeps_full (chunk ∷ chunks) r long in
            let rest = Keeps_full chunks r long in
            (
              q,
              receive_step chunk chunks r r (receives_full chunk r full) o ∙ run,
              record {
                kept = k.kept ∙ sym rest.kept ∙ all.kept;
                same_state = k.same_state;
                still_open = k.still_open;
              },
            )
      ]

-- Attempt `n` is answered in full, with a status that is no success and, unless it is the last
-- attempt, one that is not retried.
pub record Refuses (client : SplunkClient) (net : Network Exchange) (n : ℕ) : Type 0 where
  pub attempting : Attempting client net n
  pub fails : is_success (net.reply n).status ≡ false
  pub whole : (net.reply n).failure ≡ none
  pub settled : (n ≡ client.retries) ⊎ (((net.reply n).status ≢ 429) × ((net.reply n).status < 500))

module _ {S : Type 0} (su : StringUtil) (client : SplunkClient) (consumer : Consumer S)
    (net : Network Exchange) where
  -- What is reported of the answer to attempt `n`.
  abbrev pub refusal_of : ℕ → Exception
  refusal_of n =
      http_status (net.reply n).status (take error_body_limit (flatten (net.reply n).chunks))

  decides_refused :
      (attempt : ℕ) (x : Exchange) (r : Receiving S)
      → x.failure ≡ none
      → is_success x.status ≡ false
      → (attempt ≡ client.retries) ⊎ ((x.status ≢ 429) × (x.status < 500))
      → r.stopped_by_consumer ≡ false
      → decide_export su client attempt x r ≡ finish (raised (http_status x.status r.error_body))
  unfolding decide_export
  decides_refused attempt x r w f (inl last) o = rw w (ground arith)
  decides_refused attempt x r w f (inr final) o = rw w (ground arith)

  round-refused :
      (fuel n : ℕ) (s : S)
      → Refuses client net n
      → export_from su client consumer net (suc fuel) n s
        ≡ (last_attempt (raised (refusal_of n)), s)
  unfolding export_from
  round-refused fuel n s h =
      let (q, run, k) = receive-Keeps consumer (net.reply n).chunks (receiving s) refl in
      if_false _ _ (h.attempting.uninterrupted n)
      ∙ ap
          (λ success.
            export_received su client consumer net n
              (receive consumer success (net.reply n).chunks (receiving s))
              (λ s'. export_from su client consumer net fuel (n + 1) s'))
          h.fails
      ∙ ap
          (λ t.
            export_received su client consumer net n t
              (λ s'. export_from su client consumer net fuel (n + 1) s'))
          run
      ∙ ap
          (λ d.
            export_decided (net.wait_interrupted n) d q.state
              (export_from su client consumer net fuel (n + 1) q.state))
          (decides_refused n (net.reply n) q h.whole h.fails h.settled k.still_open)
      ∙ ap₂ (λ body s'. (last_attempt (raised (http_status (net.reply n).status body)), s')) k.kept
          k.same_state

  -- From the first attempt, the loop comes to the refusal.
  pub Refuses-export_from :
      (n : ℕ) (s : S)
      → Refuses client net n
      → ((export_from su client consumer net (client.retries + 1) 0 s).0.outcome
          ≡ raised (refusal_of n))
        × ((export_from su client consumer net (client.retries + 1) 0 s).1 ≡ s)
  Refuses-export_from n s h =
      let m = h.attempting.allowed in
      let (rest, outcome, state) =
        Attempting-export_from su client consumer net n h.attempting (client.retries + 1) 0 n s
          (omega arith) (omega arith) in
      let end = round-refused rest n s h in
      (outcome ∙ ap (λ (t : Exported S). t.0.outcome) end, state ∙ ap (λ (t : Exported S). t.1) end)
