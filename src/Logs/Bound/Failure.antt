-- ===== src/Logs/Bound/Failure.antt =====
-- Bound scans of both builds, whose search fails behind its first rows.
use duckdb_splunk.Prelude.{
  ℕ, suc, ◌<◌, ◌≡◌, ap, ◌∙◌, Bool, true, false, Option, some, List, [], Bytes, length, map,
}
use duckdb_splunk.External.{Json, StringUtil, Platform}
use duckdb_splunk.Errors.{Exception, throw}
use duckdb_splunk.Client.Retry.{Network}
use duckdb_splunk.Client.Transfer.{Exchange, ExportRequest, export_request}
use duckdb_splunk.Client.Transfer.Recovery.{Recovers}
use duckdb_splunk.Client.Browser.{HttpResponse, BrowserRequest}
use duckdb_splunk.Bind.{SplunkLogsBindData}
use duckdb_splunk.Logs.Row.{map_event}
use duckdb_splunk.Logs.Stream.Lines.{lines_from}
use duckdb_splunk.Logs.Stream.Fails.{BreaksAt, HasRoomFor}
use duckdb_splunk.Logs.Scan.{Scan}
use duckdb_splunk.Logs.Thread.Failure.{EndsWith, start_export-EndsWith}
use duckdb_splunk.Logs.Browser.{unfetched, browser_scans}
use duckdb_splunk.Logs.Browser.Fails.{browser_scans-throws}
use duckdb_splunk.Logs.Bound.{scan_client, export_form, scan_export, browser_response}
use duckdb_splunk.Logs.Bound.Native.{ReachesScan, answer}
use duckdb_splunk.Logs.Bound.Browser.{scan_request, browser_response-body}

module _ (su : StringUtil) (bind : SplunkLogsBindData) (platform : Platform) (column_ids : List ℕ)
    (halts : ℕ → Bool) where
  module _ (server : ExportRequest → Network Exchange) (vector_size : ℕ)
      (positive : 0 < vector_size) where
    -- If the server answers attempt `n` at the request of a bound scan in full, with a status
    -- from 200 to 299, after answers of 429 or of 500 and above and connections that break
    -- before the body, `n` is at most `retries` and at most 64, nobody interrupts the query,
    -- a vector holds a row at least, and a line of that answer reports a failed search,
    -- behind lines that parse and whose events are no more than `max_rows`, if that is
    -- positive, then the scan ends with that exception, whatever its two threads have done
    -- without a cancellation or giving up: a state with a finished producer has the
    -- exception, some steps lead to a state that has it, and the rows put out there are a
    -- front part of the rows of the events in front of it.
    pub start_scan-EndsWith :
        (n : ℕ) (es : List Json) (e : Exception) {t : Scan}
        → Recovers (scan_client bind) (server (export_request (export_form su bind))) n
        → ((k : ℕ) → halts k ≡ false)
        → BreaksAt
            (scan_export su bind platform column_ids halts)
            (lines_from [] (answer su bind platform column_ids halts server vector_size positive n))
            es
            e
        → HasRoomFor (scan_export su bind platform column_ids halts) 0 (length es)
        → ReachesScan su bind platform column_ids halts server vector_size positive t
        → t.cancelled ≡ false
        → t.gave_up ≡ false
        → EndsWith vector_size (map (λ e. map_event platform e column_ids) es) e t
    start_scan-EndsWith =
        start_export-EndsWith vector_size positive su (scan_client bind)
          (scan_export su bind platform column_ids halts)
          (server (export_request (export_form su bind)))

  -- If the HTTP library answers the request of a bound scan of the browser build with a
  -- success, a line of it reports a failed search, behind lines that parse and whose events are
  -- fewer than `max_rows`, if that is positive, the query is not interrupted, and a vector
  -- holds a row at least, then calling the scan ends with that exception, after at most one
  -- call more than there are events in front of it.
  pub browser_scans-fail :
      (to_base64 : Bytes → Bytes) (http : BrowserRequest → Option HttpResponse)
      (vector_size calls : ℕ) (r : HttpResponse) (es : List Json) (e : Exception)
      → 0 < vector_size
      → http (scan_request su bind to_base64 http) ≡ some r
      → r.success ≡ true
      → BreaksAt (scan_export su bind platform column_ids halts) (lines_from [] r.body) es e
      → HasRoomFor (scan_export su bind platform column_ids halts) 0 (suc (length es))
      → length es < calls
      → browser_scans
          (scan_export su bind platform column_ids halts)
          vector_size
          calls
          (browser_response su bind to_base64 http false)
          unfetched
        ≡ some (throw e)
  browser_scans-fail to_base64 http vector_size calls r es e positive h s b room enough =
      let x = scan_export su bind platform column_ids halts in
      ap (λ response. browser_scans x vector_size calls response unfetched)
        (browser_response-body su bind to_base64 http r h s)
      ∙ browser_scans-throws x vector_size positive calls r.body es e b room enough
