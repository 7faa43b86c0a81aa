-- ===== src/Logs/Scan/Wakeup.antt =====
-- src/logs_table.cpp: the wait of the producer for space, and who wakes it. The scan's own wait is
-- `wait_for`, which ends by itself after 100 milliseconds; the producer's has no such end.
pub mod Served
pub mod Joined
use duckdb_splunk.Prelude.{
  ℕ, ◌*◌, ◌≤◌, ◌<◌, ◌≡◌, ◌≢◌, refl, ◌∙◌, sym, Bool, true, false, not, ◌&&◌, ◌||◌, Option, none,
  List, [], ◌∷◌, length, ltb, arith, if_true, if_false, ◌⊎◌, inl, inr,
}
use duckdb_splunk.Errors.{Exception}
use duckdb_splunk.Logs.Scan.{
  Row, Scan, start, push_row, cancel, must_wait, may_push, buffer_capacity, fill_output, no_rows,
  no_error, report, finish, abort, Step, pushes, fails, finishes, scans, stops, closes, aborts,
  Reaches, starts, steps,
}
use duckdb_splunk.Logs.Scan.Handover.{Reaches-IsConsistent}
use duckdb_splunk.Logs.Scan.Progress.{length-drop-lt}
use duckdb_splunk.Logs.Scan.Join.{Produces, pushing, failing, finishing, aborting, Produces-Step}

-- The steps of DuckDB's thread: a call of the scan that takes rows, one that finds the query
-- interrupted, and the destructor.
pub data Consumes (vector_size : ℕ) (s : Scan) : Scan → Type 0 where
  scanning :
      must_wait s ≡ false → s.error ≡ none → Consumes vector_size s (fill_output vector_size s)
  stopping : must_wait s ≡ true → Consumes vector_size s (cancel s)
  closing : Consumes vector_size s (cancel s)

-- Whether `space_available` is notified behind the step.
unfoldable pub notifies_space : {vector_size : ℕ} {s t : Scan} → Consumes vector_size s t → Bool
notifies_space (scanning w e) = true
notifies_space (stopping w) = true
notifies_space closing = true

-- The shared state, whether the producer sleeps in its wait for space, and whether DuckDB's thread
-- is between a step and the notification behind it, which it sends without the lock.
pub record Watched : Type 0 where
  pub scan : Scan
  pub asleep : Bool
  pub notifying : Bool

-- A producer that finds no space goes to sleep, with its test and the beginning of the sleep under
-- one lock; it wakes on a notification, or for no reason.
pub data Watches (vector_size : ℕ) (w : Watched) : Watched → Type 0 where
  producing :
      {t : Scan}
      → w.asleep ≡ false
      → Produces vector_size w.scan t
      → Watches vector_size w (record { scan = t; asleep = false; notifying = w.notifying })
  sleeping :
      (row : Row) (rest : List Row)
      → w.asleep ≡ false
      → w.scan.pending ≡ row ∷ rest
      → may_push vector_size false w.scan ≡ false
      → Watches vector_size w (record { scan = w.scan; asleep = true; notifying = w.notifying })
  waking : Watches vector_size w (record { scan = w.scan; asleep = false; notifying = w.notifying })
  consuming :
      {t : Scan}
      → w.notifying ≡ false
      → (c : Consumes vector_size w.scan t)
      → Watches vector_size w (record { scan = t; asleep = w.asleep; notifying = notifies_space c })
  notified :
      w.notifying ≡ true
      → Watches vector_size w (record { scan = w.scan; asleep = false; notifying = false })

pub data Arises (vector_size : ℕ) (rows : List Row) (failure : Option Exception)
    : Watched → Type 0 where
  arises_first :
      Arises vector_size rows failure
        (record { scan = start rows failure; asleep = false; notifying = false })
  arises :
      {w v : Watched}
      → Arises vector_size rows failure w
      → Watches vector_size w v
      → Arises vector_size rows failure v
