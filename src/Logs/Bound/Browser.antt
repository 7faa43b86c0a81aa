-- ===== src/Logs/Bound/Browser.antt =====
-- A bound scan of the browser build, from its request to its rows.
use duckdb_splunk.Prelude.{
  ℕ, ◌<◌, ◌≡◌, refl, ap, ◌∙◌, sym, Bool, true, false, Option, some, List, [], ◌∷◌, Bytes, length,
  map, is_empty, subst, if◌then◌else◌,
}
use duckdb_splunk.External.{Json, StringUtil, Platform}
use duckdb_splunk.Errors.{ok}
use duckdb_splunk.Client.Browser.{
  HttpResponse, BrowserRequest, browser_request, browser_reply, browser_authenticated_request,
  browser_export_search, export_path,
}
use duckdb_splunk.Bind.{SplunkLogsBindData}
use duckdb_splunk.Logs.Row.{map_event}
use duckdb_splunk.Logs.Stream.Lines.{lines_from}
use duckdb_splunk.Logs.Stream.Room.{events_of}
use duckdb_splunk.Logs.Browser.{unfetched, browser_scans}
use duckdb_splunk.Logs.Browser.Complete.{browser_scans-rows}
use duckdb_splunk.Logs.Bound.{scan_client, export_form, scan_export, browser_response, wanted}
use duckdb_splunk.Logs.Bound.Native.{capped-wanted}

module _ (su : StringUtil) (bind : SplunkLogsBindData) (to_base64 : Bytes → Bytes)
    (http : BrowserRequest → Option HttpResponse) where
  -- The request of the scan.
  abbrev pub scan_request : BrowserRequest
  scan_request =
      browser_request su to_base64 (scan_client bind) export_path (some (export_form su bind))

  -- A success is fetched as it stands.
  pub browser_response-body :
      (r : HttpResponse)
      → http scan_request ≡ some r
      → r.success ≡ true
      → browser_response su bind to_base64 http false ≡ ok r.body
  unfolding browser_response browser_export_search browser_authenticated_request browser_reply
  browser_response-body r h s = rw h (rw s (whole r.body))
    where
      whole : (body : Bytes) → (if is_empty body then ok [] else ok body) ≡ ok body
      whole [] = refl
      whole (c ∷ body) = refl

  module _ (platform : Platform) (column_ids : List ℕ) (halts : ℕ → Bool) where
    -- If the HTTP library answers the request of a bound scan of the browser build with a
    -- success, all its lines parse, the query is not interrupted, and a vector holds a row at
    -- least, then calling the scan until it puts out no row ends after at most one call more
    -- than there are rows, and the vectors together are the rows of the events of all lines,
    -- in order: the first `max_rows` of them, or all if that is not positive.
    pub browser_scans-answer :
        (vector_size calls : ℕ) (r : HttpResponse) (es : List Json)
        → 0 < vector_size
        → http scan_request ≡ some r
        → r.success ≡ true
        → events_of (scan_export su bind platform column_ids halts) (lines_from [] r.body) ≡ ok es
        → length (wanted bind.max_rows es) < calls
        → browser_scans
            (scan_export su bind platform column_ids halts)
            vector_size
            calls
            (browser_response su bind to_base64 http false)
            unfetched
          ≡ some (ok (map (λ e. map_event platform e column_ids) (wanted bind.max_rows es)))
    browser_scans-answer vector_size calls r es positive h s parsed enough =
        let x = scan_export su bind platform column_ids halts in
        let same = capped-wanted su bind platform column_ids halts es in
        ap (λ response. browser_scans x vector_size calls response unfetched)
          (browser_response-body r h s)
        ∙ browser_scans-rows x vector_size positive calls r.body es parsed
            (subst (λ rows. length rows < calls) (sym same) enough)
        ∙ ap (λ rows. some (ok (map (λ e. map_event platform e column_ids) rows))) same
