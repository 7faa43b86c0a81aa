-- ===== src/Logs/Bound.antt =====
-- src/logs_table.cpp: what StartExport and FetchBrowserResponse make of the bind data: the client,
-- the form, the row cap, and the search that is sent.
pub mod Native
pub mod Browser
pub mod Table
pub mod Failure
pub mod Agreement
pub mod Attached
use duckdb_splunk.Prelude.{
  ℕ, Bool, true, Option, List, [], ◌++◌, take, Bytes, ℤ, pos, pos_part, ltb_ℤ, if◌then◌else◌,
}
use duckdb_splunk.External.{StringUtil, Json, Platform}
use duckdb_splunk.Errors.{Result, Run}
use duckdb_splunk.Client.Connection.{SplunkClient, default_client, copy_config_to}
use duckdb_splunk.Client.Retry.{Network}
use duckdb_splunk.Client.Transfer.{Exchange, ExportRequest, export_request}
use duckdb_splunk.Client.Browser.{HttpResponse, BrowserRequest, browser_export_search}
use duckdb_splunk.Bind.{SplunkLogsBindData}
use duckdb_splunk.Logs.Query.{build_export_body}
use duckdb_splunk.Logs.Stream.{Producer, Export}
use duckdb_splunk.Logs.Thread.{start_export}

-- The client of the scan: `CopyConfigTo` into a new one.
abbrev pub scan_client : SplunkLogsBindData → SplunkClient
scan_client bind = copy_config_to bind.client default_client

-- `bind.max_rows > 0 ? static_cast<idx_t>(bind.max_rows) : 0`.
unfoldable pub row_cap : ℤ → ℕ
row_cap max_rows = if ltb_ℤ (pos 0) max_rows then pos_part max_rows else 0

abbrev pub export_form : StringUtil → SplunkLogsBindData → Bytes
export_form su bind = build_export_body su bind.query bind.earliest bind.latest bind.max_rows

module _ (su : StringUtil) (bind : SplunkLogsBindData) where
  -- What the scan of a query fixes. `halts` says at which number of rows a wait for space finds
  -- the scan cancelled or interrupted.
  abbrev pub scan_export : Platform → List ℕ → (ℕ → Bool) → Export
  scan_export platform column_ids halts = record {
    platform = platform;
    column_ids = column_ids;
    cap = row_cap bind.max_rows;
    halts = halts;
  }

  -- `StartExport`, with a server that answers a request.
  abbrev pub start_scan : Export → (ExportRequest → Network Exchange) → Option (Run Producer)
  start_scan x server =
      start_export su (scan_client bind) x (server (export_request (export_form su bind)))

  -- What `FetchBrowserResponse` has in `response`: its callback appends, and wants more.
  unfoldable pub browser_response :
      (Bytes → Bytes) → (BrowserRequest → Option HttpResponse) → Bool → Result Bytes
  browser_response to_base64 http is_interrupted =
      browser_export_search su to_base64 (scan_client bind) http is_interrupted
        (export_form su bind) (λ chunk response. (response ++ chunk, true)) []

-- The events that a query asks for: the first `max_rows`, or all where that is 0 or less.
abbrev pub wanted : ℤ → List Json → List Json
wanted max_rows es = if ltb_ℤ (pos 0) max_rows then take (pos_part max_rows) es else es
