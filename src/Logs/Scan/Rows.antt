-- ===== src/Logs/Scan/Rows.antt =====
-- A scan from the bytes of the response to its output.
use duckdb_splunk.Prelude.{ℕ, ◌≡◌, ap, ◌∙◌, sym, true, false, none, List, [], Bytes, flatten, map}
use duckdb_splunk.External.{Json}
use duckdb_splunk.Errors.{ok, running}
use duckdb_splunk.Logs.Row.{map_event}
use duckdb_splunk.Logs.Stream.{Producer, Export, run_export}
use duckdb_splunk.Logs.Stream.Lines.{lines_from}
use duckdb_splunk.Logs.Stream.Room.{events_of, capped}
use duckdb_splunk.Logs.Stream.Cap.{Undisturbed, run_export-rows}
use duckdb_splunk.Logs.Scan.{Scan, Reaches}
use duckdb_splunk.Logs.Scan.Handover.{Reaches-complete}

-- If every line of the response parses, the producer is neither cancelled nor interrupted, and
-- the response ends normally, then a scan with these rows that has come, by any interleaving of
-- its two threads, to a finished producer and an empty buffer, without being cancelled or giving
-- up, has put out the rows of the events of all lines, in order, the first `cap` of them if there
-- is a cap, and has no error.
pub Reaches-rows :
    (x : Export) (vector_size : ℕ) (chunks : List Bytes) (es : List Json) (p : Producer) {s : Scan}
    → Undisturbed x
    → events_of x (lines_from [] (flatten chunks)) ≡ ok es
    → run_export x chunks none ≡ running p
    → Reaches vector_size p.rows none s
    → s.finished ≡ true
    → s.cancelled ≡ false
    → s.gave_up ≡ false
    → s.buffer ≡ []
    → (s.output ≡ map (λ e. map_event x.platform e x.column_ids) (capped x es)) × (s.error ≡ none)
Reaches-rows x vector_size chunks es p u parsed run reached f c g b =
    let (q, run', rows) = run_export-rows x chunks es u parsed in
    let (output, error) = Reaches-complete vector_size p.rows none reached f c g b in
    let same : p ≡ q = same_producer p q (sym run ∙ run') in
    (output ∙ ap (λ r. r.rows) same ∙ rows, error)
  where
    same_producer : (p q : Producer) → running p ≡ running q → p ≡ q
    same_producer p q e = cc
