-- ===== src/Tests/Streams.antt =====
-- The export stream.
use duckdb_splunk.Prelude.{◌≡◌, refl, false, none, List, [], ◌∷◌, Bytes, codes, flatten, equal}
use duckdb_splunk.External.{Json, str, obj, Fields, end, field}
use duckdb_splunk.Errors.{ok}
use duckdb_splunk.Logs.Stream.{Export, run_export}
use duckdb_splunk.Logs.Stream.Lines.{lines_from}
use duckdb_splunk.Logs.Stream.Chunks.{run_export-chunking}
use duckdb_splunk.Logs.Stream.Room.{events_of}
use duckdb_splunk.Tests.Samples.{sample_platform}

abbrev line_of : Bytes → Json
line_of body = obj (field (codes "result") (obj (field (codes "_raw") (str body) end)) end)

abbrev event_of : Bytes → Json
event_of body = obj (field (codes "_raw") (str body) end)

-- A scan of the body that stops after two rows; the lines `a`, `b` and `c` hold an event each.
abbrev pub two_rows : Export
two_rows = record {
  platform = sample_platform (
      (codes "a", line_of (codes "first"))
      ∷ (codes "b", line_of (codes "second"))
      ∷ (codes "c", line_of (codes "third"))
      ∷ []);
  column_ids = 10 ∷ [];
  cap = 2;
  halts = λ n. false;
}

-- Three lines in three chunks, cut in the middle of a line.
abbrev pub chunks : List Bytes
chunks = codes "a" ∷ (b'\n' ∷ codes "b") ∷ (b'\n' ∷ codes "c") ∷ []

abbrev pub events : List Json
events = event_of (codes "first") ∷ event_of (codes "second") ∷ event_of (codes "third") ∷ []

pub events-parsed : events_of two_rows (lines_from [] (flatten chunks)) ≡ ok events
unfolding events_of lines_from duckdb_splunk.Logs.Export.parse_export_line equal
    duckdb_splunk.Logs.Export.throw_if_search_error duckdb_splunk.External.assoc
    duckdb_splunk.External.members duckdb_splunk.Logs.Export.extract_events
events-parsed = refl

run_export-chunking_example :
    run_export two_rows chunks none ≡ run_export two_rows (flatten chunks ∷ []) none
run_export-chunking_example = run_export-chunking two_rows chunks (flatten chunks ∷ []) none refl
