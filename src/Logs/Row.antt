-- ===== src/Logs/Row.antt =====
-- src/logs_table.cpp, ParseRawObject and MapEvent: one event to the projected columns of a row.
pub mod Raw
pub mod Columns
use duckdb_splunk.Prelude.{
  ℕ, Bool, true, false, Option, none, some, List, [], ◌∷◌, Bytes, codes, ℤ, ◌==◌, ◌||◌,
  if◌then◌else◌,
}
use duckdb_splunk.External.{Json, Platform, StringUtil}
use duckdb_splunk.Logs.Severity.{severity_to_number}
use duckdb_splunk.Logs.Lookup.{lookup_str}
use duckdb_splunk.Logs.Time.{parse_splunk_time_to_nanos}
use duckdb_splunk.Logs.Attributes.{build_resource_attributes, build_log_attributes}
use Raw.{parse_raw_object, fields_object}

-- The `COL_*` constants.
abbrev pub col_time : ℕ
col_time = 0

abbrev pub col_observed_time : ℕ
col_observed_time = 1

abbrev pub col_trace_id : ℕ
col_trace_id = 2

abbrev pub col_span_id : ℕ
col_span_id = 3

abbrev pub col_service_name : ℕ
col_service_name = 4

abbrev pub col_severity_number : ℕ
col_severity_number = 7

abbrev pub col_severity_text : ℕ
col_severity_text = 8

abbrev pub col_body : ℕ
col_body = 10

abbrev pub col_resource_attrs : ℕ
col_resource_attrs = 11

abbrev pub col_log_attrs : ℕ
col_log_attrs = 15

-- The DuckDB values that a row holds.
pub data Value : Type 0 where
  null_value : Value
  varchar : Bytes → Value
  integer : ℕ → Value
  timestamp_ns : ℤ → Value

-- The local variables of `MapEvent` that its three lambdas share.
pub record Memo : Type 0 where
  pub raw_parsed : Bool
  pub raw_cache : Option Json
  pub severity_done : Bool
  pub severity_cache : Option Bytes
  pub time_done : Bool
  pub time_cache : Value

abbrev pub fresh : Memo
fresh = record {
  raw_parsed = false;
  raw_cache = none;
  severity_done = false;
  severity_cache = none;
  time_done = false;
  time_cache = null_value;
}

-- `row[c] = Value(string(v))` where there is a string.
abbrev pub text_value : Option Bytes → Value
text_value none = null_value
text_value (some v) = varchar v

-- `Value(attributes)` unless the text is empty.
abbrev pub attributes_value : Bytes → Value
attributes_value [] = null_value
attributes_value (c ∷ s) = varchar (c ∷ s)

abbrev pub time_value : Option ℤ → Value
time_value none = null_value
time_value (some nanos) = timestamp_ns nanos

-- `Value::INTEGER(SeverityToNumber(s))` where there is a severity.
abbrev pub severity_value : StringUtil → Option Bytes → Value
severity_value su none = null_value
severity_value su (some s) = integer (severity_to_number su s)

abbrev pub severity_keys : List Bytes
severity_keys = codes "level" ∷ codes "severity" ∷ codes "status" ∷ []

module _ (p : Platform) (event : Json) where
  open p use {json}

  -- The lambda `raw`.
  unfoldable pub raw : Memo → Option Json × Memo
  raw m =
      let parsed = parse_raw_object json event in
      if m.raw_parsed
      then (m.raw_cache, m)
      else (parsed, record m { raw_cache = parsed; raw_parsed = true })

  -- `LookupStr({event, fields, raw()}, keys)`.
  unfoldable pub lookup_in_event : List Bytes → Memo → Option Bytes × Memo
  unfolding raw
  lookup_in_event keys m =
      let (r, m') = raw m in
      (lookup_str json (some event ∷ fields_object json event ∷ r ∷ []) keys, m')

  -- The lambda `severity`.
  unfoldable pub severity : Memo → Option Bytes × Memo
  unfolding lookup_in_event
  severity m =
      let (found, m') = lookup_in_event severity_keys m in
      if m.severity_done
      then (m.severity_cache, m)
      else (found, record m' { severity_cache = found; severity_done = true })

  -- The lambda `timestamp`.
  unfoldable pub timestamp : Memo → Value × Memo
  timestamp m =
      let parsed =
        time_value (
          parse_splunk_time_to_nanos p.doubles p.timestamps (json.obj_get event (codes "_time"))) in
      if m.time_done
      then (m.time_cache, m)
      else (parsed, record m { time_cache = parsed; time_done = true })

  text_column : List Bytes → Memo → Value × Memo
  text_column keys m = let (found, m') = lookup_in_event keys m in (text_value found, m')

  severity_number_column : Memo → Value × Memo
  severity_number_column m = let (s, m') = severity m in (severity_value p.strings s, m')

  severity_text_column : Memo → Value × Memo
  severity_text_column m = let (s, m') = severity m in (text_value s, m')

  log_attributes_column : Memo → Value × Memo
  log_attributes_column m =
      let (r, m') = raw m in (attributes_value (build_log_attributes json event r), m')

  -- The `switch` over one column.
  unfoldable pub map_column : ℕ → Memo → Value × Memo
  unfolding text_column severity_number_column severity_text_column log_attributes_column
  map_column c m =
      if c == col_time || c == col_observed_time
      then timestamp m
      else if c == col_trace_id
      then text_column (codes "trace_id" ∷ []) m
      else if c == col_span_id
      then text_column (codes "span_id" ∷ []) m
      else if c == col_service_name
      then text_column (codes "service" ∷ codes "service_name" ∷ []) m
      else if c == col_severity_number
      then severity_number_column m
      else if c == col_severity_text
      then severity_text_column m
      else if c == col_body
      then text_column (codes "_raw" ∷ codes "message" ∷ []) m
      else if c == col_resource_attrs
      then (attributes_value (build_resource_attributes json event), m)
      else if c == col_log_attrs
      then log_attributes_column m
      else (null_value, m)

  -- The loop over the columns.
  unfoldable pub map_columns : List ℕ → Memo → List Value × Memo
  map_columns [] m = ([], m)
  map_columns (c ∷ cs) m =
      let (v, m') = map_column c m in let (vs, m'') = map_columns cs m' in (v ∷ vs, m'')

-- `MapEvent`.
unfoldable pub map_event : Platform → Json → List ℕ → List Value
map_event p event column_ids = (map_columns p event column_ids fresh).0
