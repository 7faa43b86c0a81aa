-- ===== src/Logs/Browser.antt =====
-- src/logs_table.cpp: FetchBrowserResponse and SplunkLogsScan of the browser build, which decodes
-- a completed response as far as each output vector has room.
pub mod Lines
pub mod Scans
pub mod Filled
pub mod Complete
pub mod Takes
pub mod Short
pub mod Fails
use duckdb_splunk.Prelude.{
  ℕ, zero, suc, ◌+◌, Bool, true, false, not, ◌&&◌, Option, none, some, List, [], ◌∷◌, ◌++◌, Bytes,
  length, take, drop, ltb, leb, is_empty, if◌then◌else◌,
}
use duckdb_splunk.External.{Json}
use duckdb_splunk.Errors.{Exception, Result, ok, throw, ◌>>=◌}
use duckdb_splunk.Logs.Row.{map_event}
use duckdb_splunk.Logs.Export.{parse_export_line}
use duckdb_splunk.Logs.Stream.{Export, find_newline}
use duckdb_splunk.Logs.Scan.{Row, no_rows}

-- The state of a browser scan. `rest` is the response from `response_offset` on.
pub record BrowserScan : Type 0 where
  pub rest : Bytes
  pub produced : ℕ
  pub buffer : List Row
  pub fetched : Bool

abbrev pub unfetched : BrowserScan
unfetched = record { rest = []; produced = 0; buffer = []; fetched = false }

-- One call of the scan: its state, and the rows of the output vector, `count` of them.
pub record Filling : Type 0 where
  pub scan : BrowserScan
  pub vector : List Row

-- `FetchBrowserResponse`; `response` is what `ExportSearch` ends with.
unfoldable pub fetch_browser_response : Result Bytes → BrowserScan → Result BrowserScan
fetch_browser_response response s =
    response >>= λ text. ok (record s { rest = text; fetched = true })

-- The line at the front of the response, and what follows it.
unfoldable pub next_line : Bytes → Bytes × Bytes
next_line rest = elim (find_newline rest) [ none ↦ (rest, []) | some (line, after) ↦ (line, after) ]

-- `bind.max_rows > 0 && state.produced >= bind.max_rows`.
unfoldable pub at_cap : Export → BrowserScan → Bool
at_cap x s = ltb 0 x.cap && leb x.cap s.produced

-- Behind the cap: the rest of the response is skipped.
abbrev pub skip_rest : Filling → Filling
skip_rest f = record f { scan = record f.scan { rest = [] } }

module _ (x : Export) (vector_size : ℕ) where
  -- The loop over the rows that an earlier call left.
  unfoldable pub drain_buffer : BrowserScan → Filling
  drain_buffer s = record {
    scan = record s { buffer = drop vector_size s.buffer };
    vector = take vector_size s.buffer;
  }

  -- The callback of `ParseExportLine`: the row goes to the output while that has room.
  unfoldable pub add_row : Json → Filling → Filling
  add_row event f =
      let row = map_event x.platform event x.column_ids in
      let s = record f.scan { produced = f.scan.produced + 1 } in
      if at_cap x f.scan
      then f
      else if ltb (length f.vector) vector_size
      then record { scan = s; vector = f.vector ++ row ∷ [] }
      else record { scan = record s { buffer = s.buffer ++ row ∷ [] }; vector = f.vector }

  unfoldable pub add_rows : List Json → Filling → Filling
  add_rows [] f = f
  add_rows (event ∷ events) f = add_rows events (add_row event f)

  -- The condition of the loop over lines.
  unfoldable pub wants_line : Filling → Bool
  wants_line f = ltb (length f.vector) vector_size && not (is_empty f.scan.rest)

  -- The loop over lines. Its fuel, one more than the bytes at hand, is enough.
  unfoldable pub fill_lines : ℕ → Filling → Result Filling
  fill_lines zero f = ok f
  fill_lines (suc fuel) f =
      let line = (next_line f.scan.rest).0 in
      let after = (next_line f.scan.rest).1 in
      let parsed = parse_export_line x.platform line >>= λ events.
      let g = add_rows events f in
      fill_lines fuel (record g { scan = record g.scan { rest = after } }) in
      if not (wants_line f) then ok f else if at_cap x f.scan then ok (skip_rest f) else parsed

  -- `SplunkLogsScan`.
  unfoldable pub browser_scan : Result Bytes → BrowserScan → Result Filling
  browser_scan response s =
      (if s.fetched then ok s else fetch_browser_response response s) >>= λ s'.
      let f = drain_buffer s' in fill_lines (suc (length s'.rest)) f

  -- DuckDB calls the scan until it puts out no row.
  unfoldable pub browser_scans : ℕ → Result Bytes → BrowserScan → Option (Result (List Row))
  browser_scans zero response s = none
  browser_scans (suc calls) response s = elim (browser_scan response s) [
    | throw e ↦ some (throw e)
    | ok f ↦
        (let later = browser_scans calls response f.scan in
          if no_rows f.vector
          then some (ok [])
          else elim later [ none ↦ none | some r ↦ some (r >>= λ rows. ok (f.vector ++ rows)) ])
  ]
