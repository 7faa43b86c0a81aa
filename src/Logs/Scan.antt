-- ===== src/Logs/Scan.antt =====
-- src/logs_table.cpp: the buffer between the producer thread of StartExport and the native
-- SplunkLogsScan. Each step is a critical section of one of the two threads, in any order.
pub mod Handover
pub mod Rows
pub mod Progress
pub mod Completion
pub mod Join
pub mod Wakeup
use duckdb_splunk.Prelude.{
  ℕ, ◌*◌, Bool, true, false, not, ◌&&◌, ◌||◌, Option, none, some, List, [], ◌∷◌, ◌++◌, ◌≡◌, length,
  take, drop, ltb, if◌then◌else◌,
}
use duckdb_splunk.Errors.{Exception}
use duckdb_splunk.Logs.Row.{Value}

abbrev pub Row : Type 0
Row = List Value

-- The shared state, with the local state of the producer: the rows that it has yet to push, and
-- the exception that then ends its work; and all rows that the scan has put out. `gave_up` is
-- `limit_reached` as the wait for space sets it; the row cap only ends the rows to push.
pub record Scan : Type 0 where
  pub pending : List Row
  pub failure : Option Exception
  pub gave_up : Bool
  pub buffer : List Row
  pub error : Option Exception
  pub finished : Bool
  pub cancelled : Bool
  pub output : List Row

abbrev pub start : List Row → Option Exception → Scan
start rows failure = record {
  pending = rows;
  failure = failure;
  gave_up = false;
  buffer = [];
  error = none;
  finished = false;
  cancelled = false;
  output = [];
}

abbrev pub no_rows : List Row → Bool
no_rows [] = true
no_rows (row ∷ rows) = false

abbrev pub no_error : Option Exception → Bool
no_error none = true
no_error (some e) = false

-- Behind the wait for space: `interrupted` is `context.interrupted`.
unfoldable pub push_row : Bool → Row → List Row → Scan → Scan
push_row interrupted row rest s =
    if s.cancelled || interrupted
    then record s { gave_up = true; pending = []; failure = none }
    else record s { buffer = s.buffer ++ row ∷ []; pending = rest }

-- A transfer that `SplunkClient::Cancel` has stopped throws, and the handler does not keep the
-- exception. A stop before the first byte may only end the attempt: the retry then brings the rows,
-- and the producer goes on with them. The producer is in the transfer, not in its wait for space.
unfoldable pub abort : Scan → Scan
abort s = record s { gave_up = true; pending = []; failure = none }

-- The handler of an exception.
unfoldable pub report : Exception → Scan → Scan
report e s = record s { error = if s.cancelled then s.error else some e; failure = none }

unfoldable pub finish : Scan → Scan
finish s = record s { finished = true }

-- An interrupted wait of the scan, and the destructor of its state.
unfoldable pub cancel : Scan → Scan
cancel s = record s { cancelled = true }

-- The condition of the scan's wait.
unfoldable pub must_wait : Scan → Bool
must_wait s = no_rows s.buffer && (not s.finished && no_error s.error)

-- `MaxThreads`: one thread of DuckDB scans.
abbrev pub max_threads : ℕ
max_threads = 1

-- `SPLUNK_BUFFER_CAPACITY`, of DuckDB's `STANDARD_VECTOR_SIZE`.
abbrev pub buffer_capacity : ℕ → ℕ
buffer_capacity vector_size = vector_size * 2

-- `vector_size` is DuckDB's `STANDARD_VECTOR_SIZE`.
module _ (vector_size : ℕ) where
  -- The condition under which the wait for space ends.
  unfoldable pub may_push : Bool → Scan → Bool
  may_push interrupted s =
      s.cancelled || (interrupted || ltb (length s.buffer) (buffer_capacity vector_size))

  -- The loop that fills the output.
  unfoldable pub fill_output : Scan → Scan
  fill_output s = record s {
    output = s.output ++ take vector_size s.buffer;
    buffer = drop vector_size s.buffer;
  }

  pub data Step (s : Scan) : Scan → Type 0 where
    pushes :
        (interrupted : Bool) (row : Row) (rest : List Row)
        → s.pending ≡ row ∷ rest
        → may_push interrupted s ≡ true
        → Step s (push_row interrupted row rest s)
    fails : (e : Exception) → s.pending ≡ [] → s.failure ≡ some e → Step s (report e s)
    finishes : s.pending ≡ [] → s.failure ≡ none → Step s (finish s)
    scans : must_wait s ≡ false → s.error ≡ none → Step s (fill_output s)
    stops : must_wait s ≡ true → Step s (cancel s)
    closes : Step s (cancel s)
    aborts : s.cancelled ≡ true → Step s (abort s)

  -- The states that a scan can come to.
  pub data Reaches (rows : List Row) (failure : Option Exception) : Scan → Type 0 where
    starts : Reaches rows failure (start rows failure)
    steps : {s t : Scan} → Reaches rows failure s → Step s t → Reaches rows failure t
