-- ===== src/Logs/Schema.antt =====
-- src/logs_table.cpp, GetSplunkLogsSchema: the columns of the OpenTelemetry log schema.
pub mod Fit
use duckdb_splunk.Prelude.{ℕ, Option, List, [], ◌∷◌, Bytes, codes, get_elem?}

-- The types among DuckDB's `LogicalType` that the extension uses.
pub data LogicalType : Type 0 where
  timestamp_ns varchar integer bigint boolean : LogicalType

abbrev pub column_count : ℕ
column_count = 18

abbrev pub column_names : List Bytes
column_names =
    codes "time_unix_nano"
    ∷ codes "observed_time_unix_nano"
    ∷ codes "trace_id"
    ∷ codes "span_id"
    ∷ codes "service_name"
    ∷ codes "service_namespace"
    ∷ codes "service_instance_id"
    ∷ codes "severity_number"
    ∷ codes "severity_text"
    ∷ codes "event_name"
    ∷ codes "body"
    ∷ codes "resource_attributes"
    ∷ codes "scope_name"
    ∷ codes "scope_version"
    ∷ codes "scope_attributes"
    ∷ codes "log_attributes"
    ∷ codes "dropped_attributes_count"
    ∷ codes "flags"
    ∷ []

unfoldable pub column_types : List LogicalType
column_types =
    timestamp_ns ∷ timestamp_ns ∷ varchar ∷ varchar ∷ varchar ∷ varchar ∷ varchar ∷ integer
    ∷ varchar ∷ varchar ∷ varchar ∷ varchar ∷ varchar ∷ varchar ∷ varchar ∷ varchar ∷ integer
    ∷ integer ∷ []

-- The type of a column, if the schema has the column.
abbrev pub column_type : ℕ → Option LogicalType
column_type c = get_elem? column_types c
