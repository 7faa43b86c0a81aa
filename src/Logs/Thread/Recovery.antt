-- ===== src/Logs/Thread/Recovery.antt =====
-- A thread whose server answers after failures that are retried.
use duckdb_splunk.Prelude.{
  ℕ, ◌+◌, ◌≡◌, refl, ap, ap₂, ◌∙◌, sym, true, false, none, some, List, [], ◌∷◌, Bytes, arith,
  Bool-cases, inl, inr, if_true, if_false, if◌then◌else◌,
}
use duckdb_splunk.External.{StringUtil}
use duckdb_splunk.Errors.{Run, running, thrown, and_then}
use duckdb_splunk.Client.Connection.{SplunkClient}
use duckdb_splunk.Client.Retry.{Network}
use duckdb_splunk.Client.Transfer.{Exchange, Receiving, receiving, consumed, receive, export_search}
use duckdb_splunk.Client.Transfer.Recovery.{Recovers, ended, Recovers-export_from}
use duckdb_splunk.Client.Transfer.Receive.{
  receive_rest, receive_rest_open, receive_rest_stop, receive-nil, receive-cons,
}
use duckdb_splunk.Logs.Stream.{
  Producer, Export, idle, on_chunk, on_chunks, after_chunks, run_export,
}
use duckdb_splunk.Logs.Thread.{line_consumer, after_export, start_export}

-- The thread's consumer, fed through the client, does what it does with the bare chunks.
module _ (x : Export) where
  abbrev pub state_of : Run (Receiving (Bytes × Producer)) → Run (Bytes × Producer)
  state_of (running r) = running r.state
  state_of (thrown e r) = thrown e r.state

  -- Behind one chunk.
  consumed-on_chunks :
      (chunk : Bytes) (chunks : List Bytes) (r : Receiving (Bytes × Producer))
      (c : Run (Bytes × Producer))
      → r.stopped_by_consumer ≡ false
      → ((r' : Receiving (Bytes × Producer))
          → r'.stopped_by_consumer ≡ false
          → state_of (receive (line_consumer x) true chunks r') ≡ on_chunks x chunks r'.state)
      → state_of
          (and_then (consumed (line_consumer x) chunk r c) (receive_rest (line_consumer x) chunks))
        ≡ and_then c
            (λ state. if state.1.limit_reached then running state else on_chunks x chunks state)
  consumed-on_chunks chunk chunks r (thrown e s) o ih = refl
  consumed-on_chunks chunk chunks r (running s) o ih = elim (Bool-cases s.1.limit_reached) [
    | inl stop ↦
        ap (λ q. state_of (receive_rest (line_consumer x) chunks q)) (if_true _ _ stop)
        ∙ ap state_of (receive_rest_stop (line_consumer x) chunks _ refl)
        ∙ sym (if_true _ _ stop)
    | inr go ↦
        ap (λ q. state_of (receive_rest (line_consumer x) chunks q)) (if_false _ _ go)
        ∙ ap state_of (receive_rest_open (line_consumer x) chunks _ o)
        ∙ ih _ o
        ∙ sym (if_false _ _ go)
  ]

  on_chunks-cons :
      (chunk : Bytes) (chunks : List Bytes) (state : Bytes × Producer)
      → on_chunks x (chunk ∷ chunks) state
        ≡ and_then
            (on_chunk x chunk state)
            (λ state'. if state'.1.limit_reached then running state' else on_chunks x chunks state')
  unfolding on_chunks
  on_chunks-cons chunk chunks state = refl

  on_chunks-nil : (state : Bytes × Producer) → on_chunks x [] state ≡ running state
  unfolding on_chunks
  on_chunks-nil state = refl

  pub receive-on_chunks :
      (chunks : List Bytes) (r : Receiving (Bytes × Producer))
      → r.stopped_by_consumer ≡ false
      → state_of (receive (line_consumer x) true chunks r) ≡ on_chunks x chunks r.state
  receive-on_chunks [] r o =
      ap state_of (receive-nil (line_consumer x) true r) ∙ sym (on_chunks-nil r.state)
  receive-on_chunks (chunk ∷ chunks) r o =
      ap state_of (receive-cons (line_consumer x) chunk chunks r)
      ∙ consumed-on_chunks chunk chunks r (on_chunk x chunk r.state) o (receive-on_chunks chunks)
      ∙ sym (on_chunks-cons chunk chunks r.state)

module _ (su : StringUtil) (client : SplunkClient) (x : Export) (net : Network Exchange) where
  -- What the thread makes of the received bytes.
  after_export-ended :
      (t : Run (Receiving (Bytes × Producer)))
      → (let end = ended su client (line_consumer x) net t in after_export x end.0.outcome end.1)
        ≡ some (after_chunks x none (state_of x t))
  unfolding after_chunks
  after_export-ended (running r) = refl
  after_export-ended (thrown e r) = refl

  -- If the server answers attempt `n` in full, with a status from 200 to 299, after answers of
  -- 429 or of 500 and above and connections that break before the body, `n` is at most
  -- `retries` and at most 64, and nobody interrupts the query, then the producer thread, with
  -- its retries, does what a single run over the chunks of that answer does, an exception of
  -- its lines included.
  pub start_export-Recovers :
      (n : ℕ)
      → Recovers client net n
      → start_export su client x net ≡ some (run_export x (net.reply n).chunks none)
  unfolding start_export export_search run_export
  start_export-Recovers n h =
      let (outcome, state) =
        Recovers-export_from su client (line_consumer x) net n h (client.retries + 1) 0 n ([], idle)
          (omega arith) (let m = h.allowed in omega arith) in
      ap₂ (after_export x) outcome state
      ∙ after_export-ended
          (receive (line_consumer x) true (net.reply n).chunks (receiving ([], idle)))
      ∙ ap (λ t. some (after_chunks x none t))
          (receive-on_chunks x (net.reply n).chunks (receiving ([], idle)) refl)
