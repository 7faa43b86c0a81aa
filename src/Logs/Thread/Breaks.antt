-- ===== src/Logs/Thread/Breaks.antt =====
-- A scan whose response breaks off.
use duckdb_splunk.Prelude.{
  ℕ, ◌<◌, ◌≡◌, refl, ap, ap₂, ◌∙◌, sym, true, false, some, List, [], Bytes, flatten, map, length,
  arith, Bool-cases, inl, inr, if_true, if_false, subst,
}
use duckdb_splunk.External.{Json, StringUtil}
use duckdb_splunk.Errors.{Exception, ok, export_failed, Run, running, thrown}
use duckdb_splunk.Client.Connection.{SplunkClient, normalize_url}
use duckdb_splunk.Client.Retry.{TransportError, error_code, Network}
use duckdb_splunk.Client.Transfer.{Exchange, Receiving, receiving, export_search}
use duckdb_splunk.Client.Transfer.Receive.{total}
use duckdb_splunk.Client.Transfer.Counts.{Counts, receive-Counts}
use duckdb_splunk.Client.Transfer.Breaks.{Breaks, broken_off, Breaks-export_from}
use duckdb_splunk.Logs.Row.{map_event}
use duckdb_splunk.Logs.Stream.{Producer, Export, idle, flush, after_chunks, run_export}
use duckdb_splunk.Logs.Stream.Room.{events_of}
use duckdb_splunk.Logs.Stream.Cap.{Undisturbed}
use duckdb_splunk.Logs.Stream.Fails.{HasRoomFor}
use duckdb_splunk.Logs.Stream.Cut.{complete_lines, run_export-cut_off}
use duckdb_splunk.Logs.Scan.{Scan, Reaches}
use duckdb_splunk.Logs.Thread.{
  line_consumer, after_export, start_export, pushed_rows, raised_exception,
}
use duckdb_splunk.Logs.Thread.Recovery.{state_of, receive-on_chunks}
use duckdb_splunk.Logs.Thread.Delivery.{ReachesExport}
use duckdb_splunk.Logs.Thread.Failure.{EndsWith, Reaches-EndsWith}

module _ (su : StringUtil) (client : SplunkClient) (x : Export) (net : Network Exchange) where
  -- The exception of an answer to attempt `n` that breaks off.
  abbrev pub break_of : ℕ → TransportError → Exception
  break_of n error =
      export_failed (normalize_url su client.url) (total (net.reply n).chunks) (error_code error)

  flush_full :
      (rest : Bytes) (s : Producer) → s.limit_reached ≡ true → flush x (rest, s) ≡ running s
  unfolding flush
  flush_full rest s h = ground arith

  -- What the thread makes of the bytes that have come.
  after_export-broken_off :
      (n : ℕ) (error : TransportError) (t : Run (Receiving (Bytes × Producer)))
      → Counts (line_consumer x) (net.reply n).chunks (receiving ([], idle)) t
      → (let end = broken_off su client (line_consumer x) net error t in
          after_export x end.0.outcome end.1)
        ≡ some (after_chunks x (some (break_of n error)) (state_of x t))
  unfolding after_chunks
  after_export-broken_off n error (thrown e r) c = refl
  after_export-broken_off n error (running r) c = elim (Bool-cases r.stopped_by_consumer) [
    | inl stop ↦
        let full : r.state.1.limit_reached ≡ true = sym c.0 ∙ stop in
        ap (λ o. after_export x o r.state) (if_true _ _ stop)
        ∙ ap some (flush_full r.state.0 r.state.1 full ∙ sym (if_true _ _ full))
    | inr go ↦
        let room : r.state.1.limit_reached ≡ false = sym c.0 ∙ go in
        let bytes : r.success_bytes ≡ total (net.reply n).chunks = omega (arith, c.1 go) in
        ap (λ o. after_export x o r.state) (if_false _ _ go)
        ∙ ap
            (λ k.
              some (
                thrown (export_failed (normalize_url su client.url) k (error_code error))
                  r.state.1))
            bytes
        ∙ ap some (sym (if_false _ _ room))
  ]

  -- If the answer to attempt `n` breaks off, behind failures that are retried, then the producer
  -- thread does what a single run over the chunks of that answer does, which then throws the
  -- exception of the transfer, with the number of the bytes that have come.
  pub start_export-Breaks :
      (n : ℕ) (error : TransportError)
      → Breaks client net n error
      → start_export su client x net
        ≡ some (run_export x (net.reply n).chunks (some (break_of n error)))
  unfolding start_export export_search run_export
  start_export-Breaks n error b =
      let (outcome, state) =
        Breaks-export_from su client (line_consumer x) net n error ([], idle) b refl in
      ap₂ (after_export x) outcome state
      ∙ after_export-broken_off n error _
          (receive-Counts (line_consumer x) (net.reply n).chunks (receiving ([], idle)) refl refl)
      ∙ ap (λ t. some (after_chunks x (some (break_of n error)) t))
          (receive-on_chunks x (net.reply n).chunks (receiving ([], idle)) refl)

  module _ (vector_size : ℕ) (positive : 0 < vector_size) where
    -- If the answer to attempt `n` is a success that breaks off, behind a byte at least, or
    -- with no retry left, or with an error that is not retried, and the attempts before it
    -- failed and are retried, `n` is at most `retries` and at most 64, nobody interrupts the
    -- query, a vector holds a row at least, the complete lines of what has come parse, and
    -- the cap is off or not below the number of their events, then the scan ends with the
    -- exception of the transfer, with the number of its bytes, whatever its two threads have
    -- done without a cancellation or giving up: a state with a finished producer has the
    -- exception, some steps lead to a state that has it, and the rows put out there are a
    -- front part of the rows of those events. What follows the last newline is dropped.
    pub start_export-cut_off :
        (n : ℕ) (error : TransportError) (es : List Json) {t : Scan}
        → Breaks client net n error
        → Undisturbed x
        → events_of x (complete_lines [] (flatten (net.reply n).chunks)) ≡ ok es
        → HasRoomFor x 0 (length es)
        → ReachesExport su client x net vector_size positive t
        → t.cancelled ≡ false
        → t.gave_up ≡ false
        → EndsWith vector_size
            (map (λ e. map_event x.platform e x.column_ids) es)
            (break_of n error)
            t
    start_export-cut_off n error es {t} b u parsed room reached c g =
        let (p, run, rows) =
          run_export-cut_off x (break_of n error) (net.reply n).chunks es u parsed room in
        let runs = start_export-Breaks n error b ∙ ap some run in
        let reached' : Reaches vector_size p.rows (some (break_of n error)) t =
          subst (λ ends. Reaches vector_size (pushed_rows ends) (raised_exception ends) t) runs
            reached in
        subst (λ all. EndsWith vector_size all (break_of n error) t) rows
          (Reaches-EndsWith vector_size positive p.rows (break_of n error) reached' c g)
