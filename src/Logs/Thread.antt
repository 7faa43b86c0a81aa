-- ===== src/Logs/Thread.antt =====
-- src/logs_table.cpp, StartExport: the body of the producer thread, whose export goes through the
-- client's retries.
pub mod Recovery
pub mod Delivery
pub mod Failure
pub mod Breaks
pub mod Refused
use duckdb_splunk.Prelude.{Option, none, some, List, [], Bytes}
use duckdb_splunk.External.{StringUtil}
use duckdb_splunk.Errors.{Exception, Run, running, thrown}
use duckdb_splunk.Client.Connection.{SplunkClient}
use duckdb_splunk.Client.Retry.{Network, Outcome, returned, raised, undefined_shift, out_of_fuel}
use duckdb_splunk.Client.Transfer.{Exchange, Consumer, Exported, export_search}
use duckdb_splunk.Logs.Scan.{Row}
use duckdb_splunk.Logs.Stream.{Producer, Export, idle, on_chunk, flush}

-- The callback of `ExportSearch`, and its result.
abbrev pub line_consumer : Export → Consumer (Bytes × Producer)
line_consumer x = record { consume = on_chunk x; has_stopped = λ state. state.1.limit_reached }

-- Behind `ExportSearch`; `none` is a run into undefined behaviour.
abbrev pub after_export : Export → Outcome (Unit {0}) → Bytes × Producer → Option (Run Producer)
after_export x (returned done) state = some (flush x state)
after_export x (raised e) state = some (thrown e state.1)
after_export x undefined_shift state = none
after_export x out_of_fuel state = none

-- The body of the thread.
unfoldable pub start_export :
    StringUtil → SplunkClient → Export → Network Exchange → Option (Run Producer)
start_export su client x net =
    let exported : Exported (Bytes × Producer) =
      export_search su client (line_consumer x) net ([], idle) in
    after_export x exported.0.outcome exported.1

-- What the thread hands over: its rows, and the exception that ends it.
abbrev pub pushed_rows : Option (Run Producer) → List Row
pushed_rows none = []
pushed_rows (some (running s)) = s.rows
pushed_rows (some (thrown e s)) = s.rows

abbrev pub raised_exception : Option (Run Producer) → Option Exception
raised_exception none = none
raised_exception (some (running s)) = none
raised_exception (some (thrown e s)) = some e
