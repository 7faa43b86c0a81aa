-- ===== src/Logs/Bound/Native.antt =====
-- A bound scan of the native build, from its request to its rows.
use duckdb_splunk.Prelude.{
  ℕ, ◌<◌, ◌≡◌, ap, ◌∙◌, Bool, false, none, List, [], Bytes, flatten, map, arith,
}
use duckdb_splunk.External.{Json, StringUtil, Platform}
use duckdb_splunk.Errors.{ok}
use duckdb_splunk.Client.Retry.{Network}
use duckdb_splunk.Client.Transfer.{Exchange, ExportRequest, export_request}
use duckdb_splunk.Client.Transfer.Recovery.{Recovers}
use duckdb_splunk.Bind.{SplunkLogsBindData}
use duckdb_splunk.Logs.Row.{map_event}
use duckdb_splunk.Logs.Stream.Lines.{lines_from}
use duckdb_splunk.Logs.Stream.Room.{events_of, capped}
use duckdb_splunk.Logs.Scan.{Scan, Reaches}
use duckdb_splunk.Logs.Scan.Completion.{Leads, HasEnded}
use duckdb_splunk.Logs.Thread.{pushed_rows, raised_exception}
use duckdb_splunk.Logs.Thread.Delivery.{start_export-delivers}
use duckdb_splunk.Logs.Bound.{scan_client, row_cap, export_form, scan_export, start_scan, wanted}

module _ (su : StringUtil) (bind : SplunkLogsBindData) (platform : Platform) (column_ids : List ℕ)
    (halts : ℕ → Bool) where
  -- The cap of the producer leaves the events that the query asks for.
  pub capped-wanted :
      (es : List Json)
      → capped (scan_export su bind platform column_ids halts) es ≡ wanted bind.max_rows es
  unfolding row_cap
  capped-wanted es = ground arith

  module _ (server : ExportRequest → Network Exchange) (vector_size : ℕ)
      (positive : 0 < vector_size) where
    -- The states that the two threads of the scan can come to.
    abbrev pub ReachesScan : Scan → Type 0
    ReachesScan t =
        let run = start_scan su bind (scan_export su bind platform column_ids halts) server in
        Reaches vector_size (pushed_rows run) (raised_exception run) t

    -- What the server answers to attempt `n` at the request of the scan.
    abbrev pub answer : ℕ → Bytes
    answer n = flatten ((server (export_request (export_form su bind))).reply n).chunks

    -- If the server answers attempt `n` at the request of a bound scan in full, with a status
    -- from 200 to 299, after answers of 429 or of 500 and above and connections that break
    -- before the body, `n` is at most `retries` and at most 64, nobody interrupts the query,
    -- every line of that answer parses, and a vector holds a row at least, then the scan, in
    -- whatever state its two threads have come to without a cancellation or giving up, can go
    -- on to an end, with no error, and with the rows of the events of all lines put out, in
    -- order: the first `max_rows` of them, or all if that is not positive.
    pub start_scan-delivers :
        (n : ℕ) (es : List Json) {t : Scan}
        → Recovers (scan_client bind) (server (export_request (export_form su bind))) n
        → ((k : ℕ) → halts k ≡ false)
        → events_of (scan_export su bind platform column_ids halts) (lines_from [] (answer n))
          ≡ ok es
        → ReachesScan t
        → t.cancelled ≡ false
        → t.gave_up ≡ false
        → (u : Scan) × Leads vector_size t u
          × HasEnded u
          × (u.error ≡ none)
          × (u.output ≡ map (λ e. map_event platform e column_ids) (wanted bind.max_rows es))
    start_scan-delivers n es r undisturbed parsed reached c g =
        let (u, leads, ended, error, output) =
          start_export-delivers su (scan_client bind)
            (scan_export su bind platform column_ids halts)
            (server (export_request (export_form su bind))) vector_size positive n es r undisturbed
            parsed reached c g in
        (
          u,
          leads,
          ended,
          error,
          output ∙ ap (map (λ e. map_event platform e column_ids)) (capped-wanted es),
        )
