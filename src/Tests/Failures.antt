-- ===== src/Tests/Failures.antt =====
-- Scans that end with an exception: a failed search, a response that breaks off, a refusal.
use duckdb_splunk.Prelude.{
  ◌≡◌, refl, inl, inr, true, false, Option, none, some, List, [], ◌∷◌, Bytes, codes, map, ltb,
  arith, equal, flatten, if◌then◌else◌,
}
use duckdb_splunk.External.{Json, str, arr, obj, nil, cons, end, field, Platform}
use duckdb_splunk.Errors.{Exception, search_error, ok, throw}
use duckdb_splunk.Client.Connection.{default_client, copy_config_to}
use duckdb_splunk.Client.Retry.{Network, other_error}
use duckdb_splunk.Client.Transfer.{Exchange, ExportRequest}
use duckdb_splunk.Client.Transfer.Recovery.{Recovers}
use duckdb_splunk.Client.Transfer.Breaks.{Breaks}
use duckdb_splunk.Client.Transfer.Refused.{Refuses, refusal_of}
use duckdb_splunk.Client.Browser.{HttpResponse, BrowserRequest}
use duckdb_splunk.Bind.{SplunkLogsBindData, default_bind_data}
use duckdb_splunk.Logs.Export.{parse_export_line}
use duckdb_splunk.Logs.Row.{map_event}
use duckdb_splunk.Logs.Stream.{Export}
use duckdb_splunk.Logs.Stream.Room.{events_of}
use duckdb_splunk.Logs.Stream.Lines.{lines_from}
use duckdb_splunk.Logs.Stream.Fails.{BreaksAt}
use duckdb_splunk.Logs.Stream.Cut.{complete_lines}
use duckdb_splunk.Logs.Scan.{Scan, start, starts}
use duckdb_splunk.Logs.Thread.{line_consumer, start_export, pushed_rows, raised_exception}
use duckdb_splunk.Logs.Thread.Failure.{EndsWith}
use duckdb_splunk.Logs.Thread.Breaks.{break_of, start_export-cut_off}
use duckdb_splunk.Logs.Thread.Refused.{start_export-refused}
use duckdb_splunk.Logs.Browser.{unfetched, browser_scans}
use duckdb_splunk.Logs.Bound.{scan_client, row_cap, scan_export, start_scan, browser_response}
use duckdb_splunk.Logs.Bound.Failure.{start_scan-EndsWith, browser_scans-fail}
use duckdb_splunk.Tests.Samples.{ascii, sample_platform}
use duckdb_splunk.Tests.Streams.{two_rows, chunks}

-- The line `a` holds an event, and the line `x` a message of a failed search.
abbrev event : Json
event = obj (field (codes "_raw") (str (codes "first")) end)

abbrev message : Json
message =
    obj (field (codes "type") (str (codes "fatal")) (field (codes "text") (str (codes "bad")) end))

abbrev documents : List (Bytes × Json)
documents =
    (codes "a", obj (field (codes "result") event end))
    ∷ (codes "x", obj (field (codes "messages") (arr (cons message nil)) end))
    ∷ []

abbrev platform : Platform
platform = sample_platform documents

abbrev failure : Exception
failure = search_error (codes "fatal") (codes "bad")

abbrev bind : SplunkLogsBindData
bind = default_bind_data

abbrev export : Export
export = scan_export ascii bind platform (10 ∷ []) (λ n. false)

-- An event, the message, and another event.
abbrev response : List Bytes
response = codes "a" ∷ (b'\n' ∷ codes "x") ∷ (b'\n' ∷ codes "a") ∷ []

response-BreaksAt : BreaksAt export (lines_from [] (flatten response)) (event ∷ []) failure
unfolding events_of lines_from parse_export_line equal row_cap
    duckdb_splunk.Logs.Export.throw_if_search_error duckdb_splunk.External.assoc
    duckdb_splunk.External.members duckdb_splunk.Logs.Export.extract_events
    duckdb_splunk.Logs.Export.check_messages duckdb_splunk.Logs.Lookup.get_str
    duckdb_splunk.External.elements duckdb_splunk.Prelude.c_string duckdb_splunk.Prelude.lower_byte
response-BreaksAt = record {
  before = codes "a" ∷ [];
  line = codes "x";
  after = codes "a" ∷ [];
  split = refl;
  parsed = refl;
  throws = refl;
}

-- Busy at first; then the answer.
abbrev recovering : Network Exchange
recovering = record {
  is_interrupted = λ n. false;
  reply = λ n. record {
    status = if ltb n 1 then 503 else 200;
    retry_after = none;
    chunks = response;
    failure = none;
  };
  wait_interrupted = λ n. false;
}

abbrev server : ExportRequest → Network Exchange
server request = recovering

second-Recovers : Recovers (scan_client bind) recovering 1
unfolding copy_config_to
second-Recovers = record {
  allowed = omega arith;
  representable = omega arith;
  uninterrupted = λ k. refl;
  slept = λ k. refl;
  fails = λ k before. inl (inl (ground arith), refl);
  succeeds = refl;
  whole = refl;
}

abbrev begun : Scan
begun =
    let run = start_scan ascii bind export server in start (pushed_rows run) (raised_exception run)

start_scan-EndsWith_example :
    EndsWith 2048 (map (λ e. map_event platform e (10 ∷ [])) (event ∷ [])) failure begun
unfolding row_cap
start_scan-EndsWith_example =
    start_scan-EndsWith ascii bind platform (10 ∷ []) (λ n. false) server 2048 (omega arith) 1
      (event ∷ []) failure second-Recovers (λ n. refl) response-BreaksAt (inl refl) starts refl refl

abbrev answered : HttpResponse
answered = record { status = 200; success = true; body = flatten response; error = [] }

abbrev http : BrowserRequest → Option HttpResponse
http request = some answered

abbrev plain : Bytes → Bytes
plain s = s

-- Vectors of one row: the first call puts out a row, and the second one throws.
browser_scans-fail_example :
    browser_scans export 1 2 (browser_response ascii bind plain http false) unfetched
    ≡ some (throw failure)
unfolding row_cap
browser_scans-fail_example =
    browser_scans-fail ascii bind platform (10 ∷ []) (λ n. false) plain http 1 2 answered
      (event ∷ []) failure (omega arith) refl refl response-BreaksAt (inl refl) (omega arith)

-- A connection that breaks in the third line, behind an answer of 503.
abbrev broken : Network Exchange
broken = record recovering {
  reply = λ n. record {
    status = if ltb n 1 then 503 else 200;
    retry_after = none;
    chunks = chunks;
    failure = if ltb n 1 then none else some (other_error 4);
  };
}

second-Breaks : Breaks default_client broken 1 (other_error 4)
second-Breaks = record {
  attempting = record {
    allowed = omega arith;
    representable = omega arith;
    uninterrupted = λ k. refl;
    slept = λ k. refl;
    fails = λ k before. inl (inl (ground arith), ground arith);
  };
  succeeds = refl;
  broken = refl;
  told = inl (omega arith);
}

abbrev two_events : List Json
two_events = event ∷ obj (field (codes "_raw") (str (codes "second")) end) ∷ []

two_events-parsed : events_of two_rows (complete_lines [] (flatten chunks)) ≡ ok two_events
unfolding events_of complete_lines parse_export_line equal
    duckdb_splunk.Logs.Export.throw_if_search_error duckdb_splunk.External.assoc
    duckdb_splunk.External.members duckdb_splunk.Logs.Export.extract_events
two_events-parsed = refl

abbrev begun_on : Network Exchange → Scan
begun_on net =
    let run = start_export ascii default_client two_rows net in
    start (pushed_rows run) (raised_exception run)

start_export-cut_off_example :
    EndsWith 2048
      (map (λ e. map_event two_rows.platform e two_rows.column_ids) two_events)
      (break_of ascii default_client two_rows broken 1 (other_error 4))
      (begun_on broken)
start_export-cut_off_example =
    start_export-cut_off ascii default_client two_rows broken 2048 (omega arith) 1 (other_error 4)
      two_events second-Breaks (λ n. refl) two_events-parsed (inr (omega arith)) starts refl refl

-- A token that the server does not know.
abbrev refusing : Network Exchange
refusing = record recovering {
  reply = λ n. record {
    status = 401;
    retry_after = none;
    chunks = codes "call not properly authenticated" ∷ [];
    failure = none;
  };
}

first-Refuses : Refuses default_client refusing 0
first-Refuses = record {
  attempting = record {
    allowed = omega arith;
    representable = omega arith;
    uninterrupted = λ k. refl;
    slept = λ k. refl;
    fails = λ k before. absurd (omega arith);
  };
  fails = refl;
  whole = refl;
  settled = inr (λ e. omega (arith, e), omega arith);
}

start_export-refused_example :
    EndsWith 2048 []
      (refusal_of ascii default_client (line_consumer two_rows) refusing 0)
      (begun_on refusing)
start_export-refused_example =
    start_export-refused ascii default_client two_rows refusing 2048 (omega arith) 0 first-Refuses
      starts refl refl
