-- ===== src/Logs/Stream.antt =====
-- src/logs_table.cpp, StartExport: what the producer thread does with the chunks of the response.
-- Waiting for space is Logs/Scan's; here a push goes through or finds the scan given up.
pub mod Lines
pub mod Chunks
pub mod Whole
pub mod Room
pub mod Cap
pub mod Fails
pub mod Cut
use duckdb_splunk.Prelude.{
  ℕ, zero, suc, ◌+◌, Bool, true, false, not, ◌&&◌, Option, none, some, List, [], ◌∷◌, ◌++◌, Bytes,
  length, ◌==◌, ltb, leb, is_empty, if◌then◌else◌,
}
use duckdb_splunk.External.{Json, Platform}
use duckdb_splunk.Errors.{Exception, Result, ok, throw, Run, running, thrown, and_then}
use duckdb_splunk.Logs.Row.{Value, map_event}
use duckdb_splunk.Logs.Export.{parse_export_line}

-- `produced` and `limit_reached`, and every row pushed so far, in order.
pub record Producer : Type 0 where
  pub produced : ℕ
  pub limit_reached : Bool
  pub rows : List (List Value)

abbrev pub idle : Producer
idle = record { produced = 0; limit_reached = false; rows = [] }

-- `pending.find('\n', start)`, on the text from `start`: the line, and what follows it.
unfoldable pub find_newline : Bytes → Option (Bytes × Bytes)
find_newline [] = none
find_newline (c ∷ s) =
    let found = find_newline s in
    if c == b'\n'
    then some ([], s)
    else elim found [ none ↦ none | some (line, after) ↦ some (c ∷ line, after) ]

-- What one scan fixes: the libraries, the projection, the row cap (0 = none), and at which number
-- of rows a wait for space finds the scan cancelled or interrupted.
pub record Export : Type 0 where
  pub platform : Platform
  pub column_ids : List ℕ
  pub cap : ℕ
  pub halts : ℕ → Bool

-- What follows a parsed line. An exception destroys `pending`, a local variable.
abbrev pub after_line : Run Producer → (Producer → Run (Bytes × Producer)) → Run (Bytes × Producer)
after_line (running s) f = f s
after_line (thrown e s) f = thrown e ([], s)

module _ (x : Export) where
  -- The callback of `ParseExportLine`.
  unfoldable pub on_event : Json → Producer → Producer
  on_event event s =
      if s.limit_reached
      then s
      else if ltb 0 x.cap && leb x.cap s.produced
      then record s { limit_reached = true }
      else if x.halts s.produced
      then record s { limit_reached = true }
      else record s {
        rows = s.rows ++ map_event x.platform event x.column_ids ∷ [];
        produced = s.produced + 1;
      }

  unfoldable pub on_events : List Json → Producer → Producer
  on_events [] s = s
  on_events (event ∷ events) s = on_events events (on_event event s)

  after_parse : Result (List Json) → Producer → Run Producer
  after_parse (ok events) s = running (on_events events s)
  after_parse (throw e) s = thrown e s

  -- `parse_line`.
  unfoldable pub parse_line : Bytes → Producer → Run Producer
  unfolding after_parse
  parse_line line s = after_parse (parse_export_line x.platform line) s

  -- The loop over complete lines, on the text from `start`; what it leaves is `pending`.
  unfoldable pub drain : ℕ → Bytes → Producer → Run (Bytes × Producer)
  drain zero rest s = running (rest, s)
  drain (suc fuel) rest s =
      if s.limit_reached then running (rest, s) else elim (find_newline rest) [
        | none ↦ running (rest, s)
        | some (line, after) ↦ after_line (parse_line line s) (λ s'. drain fuel after s')
      ]

  -- The callback of `ExportSearch`. Its fuel, one more than the bytes at hand, is enough.
  unfoldable pub on_chunk : Bytes → Bytes × Producer → Run (Bytes × Producer)
  on_chunk chunk (pending, s) =
      let pending' = pending ++ chunk in drain (suc (length pending')) pending' s

  -- `ExportSearch` hands over the chunks until the callback returns false.
  unfoldable pub on_chunks : List Bytes → Bytes × Producer → Run (Bytes × Producer)
  on_chunks [] state = running state
  on_chunks (chunk ∷ chunks) state = and_then (on_chunk chunk state) (λ state'.
      let rest = on_chunks chunks state' in if state'.1.limit_reached then running state' else rest)

  -- The last line, which may lack its newline.
  unfoldable pub flush : Bytes × Producer → Run Producer
  flush (pending, s) =
      if not s.limit_reached && not (is_empty pending) then parse_line pending s else running s

  end_export : Option Exception → Bytes × Producer → Run Producer
  end_export none state = flush state
  end_export (some e) (pending, s) = if s.limit_reached then running s else thrown e s

  unfoldable pub after_chunks : Option Exception → Run (Bytes × Producer) → Run Producer
  unfolding end_export
  after_chunks failure (running state) = end_export failure state
  after_chunks failure (thrown e (pending, s)) = thrown e s

  -- The body of the thread's `try`: the response's chunks, and then the end of the response or
  -- an exception of `ExportSearch`, which a consumer that stops does not see.
  unfoldable pub run_export : List Bytes → Option Exception → Run Producer
  unfolding after_chunks
  run_export chunks failure = after_chunks failure (on_chunks chunks ([], idle))
