-- ===== src/Tests/Searches.antt =====
-- Scans of a query that asks for two rows, in both builds.
use duckdb_splunk.Prelude.{
  ◌≡◌, refl, inl, inr, true, false, Option, none, some, [], ◌∷◌, Bytes, map, flatten, pos, arith,
}
use duckdb_splunk.Errors.{ok}
use duckdb_splunk.Client.Connection.{copy_config_to}
use duckdb_splunk.Client.Retry.{Network}
use duckdb_splunk.Client.Transfer.{Exchange, ExportRequest}
use duckdb_splunk.Client.Transfer.Recovery.{Recovers}
use duckdb_splunk.Client.Browser.{HttpResponse, BrowserRequest}
use duckdb_splunk.Bind.{SplunkLogsBindData, default_bind_data}
use duckdb_splunk.Logs.Row.{map_event}
use duckdb_splunk.Logs.Scan.{Scan, start, starts}
use duckdb_splunk.Logs.Scan.Completion.{Leads, HasEnded}
use duckdb_splunk.Logs.Thread.{pushed_rows, raised_exception}
use duckdb_splunk.Logs.Browser.{unfetched, browser_scans}
use duckdb_splunk.Logs.Bound.{
  scan_client, row_cap, scan_export, start_scan, browser_response, wanted,
}
use duckdb_splunk.Logs.Bound.Native.{start_scan-delivers}
use duckdb_splunk.Logs.Bound.Browser.{browser_scans-answer}
use duckdb_splunk.Logs.Bound.Agreement.{SameAnswer, EndsAlike, builds-EndsAlike}
use duckdb_splunk.Tests.Samples.{ascii}
use duckdb_splunk.Tests.Streams.{two_rows, chunks, events, events-parsed}
use duckdb_splunk.Tests.Threads.{recovering}

abbrev bind : SplunkLogsBindData
bind = record default_bind_data { max_rows = pos 2 }

-- A server that recovers, whatever it is asked.
abbrev server : ExportRequest → Network Exchange
server request = recovering

second-Recovers : Recovers (scan_client bind) recovering 1
unfolding copy_config_to
second-Recovers = record {
  allowed = omega arith;
  representable = omega arith;
  uninterrupted = λ k. refl;
  slept = λ k. refl;
  fails = λ k before. inl (inl (ground arith), refl);
  succeeds = refl;
  whole = refl;
}

-- The scan before its first step.
abbrev begun : Scan
begun =
    let run =
      start_scan ascii bind (scan_export ascii bind two_rows.platform (10 ∷ []) (λ n. false))
        server in
    start (pushed_rows run) (raised_exception run)

start_scan-delivers_example :
    (u : Scan) × Leads 2048 begun u
    × HasEnded u
    × (u.error ≡ none)
    × (u.output ≡ map (λ e. map_event two_rows.platform e (10 ∷ [])) (wanted bind.max_rows events))
unfolding row_cap
start_scan-delivers_example =
    start_scan-delivers ascii bind two_rows.platform (10 ∷ []) (λ n. false) server 2048
      (omega arith) 1 events second-Recovers (λ n. refl) events-parsed starts refl refl

-- The same answer in one piece.
abbrev answered : HttpResponse
answered = record { status = 200; success = true; body = flatten chunks; error = [] }

abbrev http : BrowserRequest → Option HttpResponse
http request = some answered

abbrev plain : Bytes → Bytes
plain s = s

-- Vectors of one row: two calls put out a row each, and a third one none.
browser_scans-answer_example :
    browser_scans
      (scan_export ascii bind two_rows.platform (10 ∷ []) (λ n. false))
      1
      3
      (browser_response ascii bind plain http false)
      unfetched
    ≡ some (ok (map (λ e. map_event two_rows.platform e (10 ∷ [])) (wanted bind.max_rows events)))
unfolding row_cap
browser_scans-answer_example =
    browser_scans-answer ascii bind plain http two_rows.platform (10 ∷ []) (λ n. false) 1 3 answered
      events (omega arith) refl refl events-parsed (omega arith)

-- The two builds on the same bytes.
chunks-SameAnswer :
    SameAnswer ascii bind two_rows.platform
      (10 ∷ [])
      (λ n. false)
      server
      plain
      http
      1
      (omega arith)
      1
      answered
chunks-SameAnswer = record {
  recovers = second-Recovers;
  undisturbed = λ k. refl;
  answered = refl;
  success = refl;
  same_bytes = refl;
}

builds-EndsAlike_example :
    EndsAlike ascii bind two_rows.platform
      (10 ∷ [])
      (λ n. false)
      server
      plain
      http
      1
      (omega arith)
      begun
unfolding row_cap
builds-EndsAlike_example =
    builds-EndsAlike ascii bind two_rows.platform (10 ∷ []) (λ n. false) server plain http 1
      (omega arith) 1 answered chunks-SameAnswer (inr (events, events-parsed)) starts refl refl
