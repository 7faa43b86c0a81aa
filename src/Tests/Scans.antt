-- ===== src/Tests/Scans.antt =====
-- A scan with its two threads.
use duckdb_splunk.Prelude.{
  ℕ, ◌+◌, ◌*◌, ◌≤◌, ◌<◌, ◌≡◌, ◌≢◌, ◌⊎◌, refl, ap, sym, arith, Bool, true, false, Option, none, some,
  List, [], ◌∷◌, ◌++◌, Bytes, codes, map, length, equal,
}
use duckdb_splunk.External.{Json}
use duckdb_splunk.Errors.{Exception, running}
use duckdb_splunk.Logs.Row.{Value, varchar, map_event}
use duckdb_splunk.Logs.Stream.{Producer, run_export}
use duckdb_splunk.Logs.Scan.{
  Row, Scan, start, push_row, finish, must_wait, may_push, fill_output, pushes, finishes, scans,
  Reaches, starts, steps,
}
use duckdb_splunk.Logs.Scan.Handover.{IsConsistent, Reaches-IsConsistent}
use duckdb_splunk.Logs.Scan.Progress.{Changes, unchanged, change, Changes-bounded}
use duckdb_splunk.Logs.Scan.Completion.{Leads, HasEnded, Reaches-completes}
use duckdb_splunk.Tests.Streams.{two_rows, chunks}

abbrev pub first : Row
first = varchar (codes "first") ∷ []

abbrev pub second : Row
second = varchar (codes "second") ∷ []

abbrev pub rows : List Row
rows = first ∷ second ∷ []

abbrev pushed : Producer
pushed = record { produced = 2; limit_reached = true; rows = rows }

runs : run_export two_rows chunks none ≡ running pushed
unfolding run_export duckdb_splunk.Logs.Stream.on_chunks duckdb_splunk.Logs.Stream.on_chunk
    duckdb_splunk.Logs.Stream.drain duckdb_splunk.Logs.Stream.find_newline
    duckdb_splunk.Logs.Stream.parse_line duckdb_splunk.Logs.Stream.on_events
    duckdb_splunk.Logs.Stream.on_event duckdb_splunk.Logs.Stream.flush
    duckdb_splunk.Logs.Stream.after_chunks duckdb_splunk.Logs.Export.parse_export_line
    duckdb_splunk.Logs.Export.throw_if_search_error duckdb_splunk.Logs.Export.extract_events equal
    duckdb_splunk.External.assoc duckdb_splunk.External.members map_event
    duckdb_splunk.Logs.Row.map_columns duckdb_splunk.Logs.Row.map_column
    duckdb_splunk.Logs.Row.lookup_in_event duckdb_splunk.Logs.Lookup.lookup_str
    duckdb_splunk.Logs.Lookup.get_str duckdb_splunk.Logs.Row.Raw.parse_raw_object
    duckdb_splunk.Logs.Row.Raw.read_object duckdb_splunk.Logs.Row.Raw.fields_object
    duckdb_splunk.Prelude.c_string
runs = refl

-- Both rows are pushed, the producer ends, and the scan takes them.
abbrev pushing : Scan
pushing = push_row false second [] (push_row false first (second ∷ []) (start rows none))

abbrev done : Scan
done = fill_output 2048 (finish pushing)

Reaches-pushing : Reaches 2048 rows none pushing
unfolding push_row may_push
Reaches-pushing =
    steps (steps starts (pushes false first (second ∷ []) refl refl))
      (pushes false second [] refl refl)

Reaches-done : Reaches 2048 rows none done
unfolding push_row finish must_wait
Reaches-done = steps (steps Reaches-pushing (finishes refl refl)) (scans refl refl)

Reaches-IsConsistent_example : IsConsistent 2048 rows none pushing
Reaches-IsConsistent_example = Reaches-IsConsistent 2048 rows none Reaches-pushing

-- One row, which is put out.
abbrev filled : Scan
filled = fill_output 2048 (push_row false first [] (start (first ∷ []) none))

pushes_and_scans : Changes 2048 2 (start (first ∷ []) none) filled
unfolding push_row may_push fill_output must_wait
pushes_and_scans =
    change (pushes false first [] refl refl) (λ e. no_cons (ap Scan.pending (sym e)))
      (change (scans refl refl) (λ e. no_cons (ap Scan.buffer (sym e))) unchanged)
  where
    no_cons : {row : Row} {rows : List Row} → (row ∷ rows) ≢ []
    no_cons e = cc

Changes-bounded_example : 2 ≤ 2 * length (first ∷ []) + 4
Changes-bounded_example = Changes-bounded 2048 (first ∷ []) none (omega arith) pushes_and_scans

abbrev no_failure : Option Exception
no_failure = none

Reaches-completes_example :
    (t : Scan) × Leads 2048 pushing t
    × HasEnded t
    × (t.error ≡ no_failure)
    × ((no_failure ≢ none) ⊎ (t.output ≡ rows))
unfolding push_row
Reaches-completes_example =
    Reaches-completes 2048 (omega arith) rows no_failure Reaches-pushing refl refl
