-- ===== src/Tests/Rows.antt =====
-- Events and rows.
use duckdb_splunk.Prelude.{
  ◌*◌, ◌^◌, ◌≡◌, refl, Option, none, some, List, [], ◌∷◌, Bytes, codes, pos, map, equal, lower_byte,
  c_string, if◌then◌else◌, arith,
}
use duckdb_splunk.External.{
  Json, Members, str, num, uint, obj, arr, Fields, end, field, Items, nil, cons, assoc, members,
  elements,
}
use duckdb_splunk.Logs.Severity.{severity_to_number}
use duckdb_splunk.Logs.Severity.Ranges.{severity_table, table_number, severity_to_number-table}
use duckdb_splunk.Logs.Lookup.{lookup_str}
use duckdb_splunk.Logs.Time.{epoch_to_nanos}
use duckdb_splunk.Logs.Time.Units.{epoch_to_nanos-units}
use duckdb_splunk.Logs.Attributes.{is_internal_field, merge_log_attributes, build_log_attributes}
use duckdb_splunk.Logs.Attributes.Merge.{
  assoc_c, or_else, source_members, KeysOnce, assoc-merged, KeysOnce-merged,
}
use duckdb_splunk.Logs.Attributes.Resource.{metadata, resource_root, resource_attributes-mapping}
use duckdb_splunk.Logs.Row.{Value, null_value, varchar, integer, timestamp_ns, map_event}
use duckdb_splunk.Logs.Row.Columns.{column_value, map_event-columns}
use duckdb_splunk.Logs.Schema.Fit.{RowFits, map_event-RowFits}
use duckdb_splunk.Logs.Export.{throw_if_search_error}
use duckdb_splunk.Logs.Export.Failure.{CheckResult, throw_if_search_error-CheckResult}
use duckdb_splunk.Tests.Samples.{
  ascii, table_json, table_json-laws, naturals, naturals-laws, sample_platform,
}

abbrev text : Bytes → Json
text s = str s

-- The payload of an event, and the event that carries it.
abbrev payload : Json
payload =
    obj
      (field (codes "level") (text (codes "WARN")) (field (codes "marker") (text (codes "m")) end))

abbrev payload_text : Bytes
payload_text = codes " {payload}"

abbrev event : Json
event = obj (
    field (codes "_raw") (text payload_text) (
      field (codes "_time") (num (uint 1720000000)) (
        field (codes "host") (text (codes "web1"))
          (field (codes "marker") (text (codes "top")) end))))

abbrev documents : List (Bytes × Json)
documents = (payload_text, payload) ∷ []

-- Time, severity, body, resource and log attributes of the event.
maps_event :
    map_event (sample_platform documents) event (0 ∷ 7 ∷ 8 ∷ 11 ∷ 15 ∷ 5 ∷ [])
    ≡ timestamp_ns (pos 1720000000000000000)
      ∷ integer 13
      ∷ varchar (codes "WARN")
      ∷ varchar (codes "{host.name,}")
      ∷ varchar (codes "{marker,level,}")
      ∷ null_value
      ∷ []
unfolding map_event duckdb_splunk.Logs.Row.map_columns duckdb_splunk.Logs.Row.map_column
    duckdb_splunk.Logs.Row.timestamp duckdb_splunk.Logs.Row.severity
    duckdb_splunk.Logs.Attributes.build_resource_attributes build_log_attributes
    duckdb_splunk.Logs.Time.parse_splunk_time_to_nanos lookup_str
    duckdb_splunk.Logs.Attributes.write_attributes assoc duckdb_splunk.Logs.Lookup.get_str
    duckdb_splunk.Logs.Attributes.add_resources merge_log_attributes members
    duckdb_splunk.Logs.Attributes.add_resource
    duckdb_splunk.Logs.Attributes.copy_non_internal_fields equal epoch_to_nanos
    duckdb_splunk.Logs.Row.Raw.fields_object duckdb_splunk.Logs.Row.Raw.parse_raw_object
    duckdb_splunk.Logs.Row.Raw.read_object c_string severity_to_number
    duckdb_splunk.Logs.Attributes.copy_fields lower_byte duckdb_splunk.Logs.Attributes.copy_field
    is_internal_field duckdb_splunk.Logs.Attributes.is_resource_key
maps_event = refl

map_event-columns_example :
    map_event (sample_platform documents) event (7 ∷ 0 ∷ 8 ∷ [])
    ≡ map (column_value (sample_platform documents) event) (7 ∷ 0 ∷ 8 ∷ [])
map_event-columns_example = map_event-columns (sample_platform documents) event (7 ∷ 0 ∷ 8 ∷ [])

-- The event's own `marker` stands in front of the one of the payload.
assoc-merged_example :
    assoc (codes "marker") (merge_log_attributes (table_json documents) event (some payload)).0 ≡ (
      if is_internal_field (codes "marker")
      then none
      else or_else (assoc_c (codes "marker") (members event)) (
          assoc_c
            (codes "marker")
            (source_members (table_json documents) (table_json-laws documents) (some payload))))
assoc-merged_example =
    assoc-merged (table_json documents) (table_json-laws documents) event (some payload)
      (codes "marker")

KeysOnce-merged_example :
    KeysOnce (merge_log_attributes (table_json documents) event (some payload)).0
KeysOnce-merged_example =
    KeysOnce-merged (table_json documents) (table_json-laws documents) event (some payload)

abbrev sample_root : Members
sample_root = resource_root (table_json documents) (table_json-laws documents) event

abbrev sample_metadata : Bytes → Option Json
sample_metadata = metadata (table_json documents) (table_json-laws documents) event

resource_attributes-mapping_example :
    (assoc (codes "host.name") sample_root ≡ sample_metadata (codes "host"))
    × (assoc (codes "com.splunk.source") sample_root ≡ sample_metadata (codes "source"))
    × (assoc (codes "com.splunk.sourcetype") sample_root ≡ sample_metadata (codes "sourcetype"))
    × (assoc (codes "com.splunk.index") sample_root ≡ sample_metadata (codes "index"))
    × (assoc (codes "com.splunk.server") sample_root ≡ sample_metadata (codes "splunk_server"))
resource_attributes-mapping_example =
    resource_attributes-mapping (table_json documents) (table_json-laws documents) event

severity_to_number-table_example :
    severity_to_number ascii (codes "Warning")
    ≡ table_number (ascii.lower (codes "Warning")) severity_table
severity_to_number-table_example = severity_to_number-table ascii (codes "Warning")

epoch_to_nanos-units_example :
    (epoch_to_nanos naturals 1720000000 ≡ pos (1720000000 * 10 ^ 9))
    × (epoch_to_nanos naturals (1720000000 * 10 ^ 3) ≡ pos (1720000000 * 10 ^ 9))
    × (epoch_to_nanos naturals (1720000000 * 10 ^ 6) ≡ pos (1720000000 * 10 ^ 9))
    × (epoch_to_nanos naturals (1720000000 * 10 ^ 9) ≡ pos (1720000000 * 10 ^ 9))
epoch_to_nanos-units_example =
    epoch_to_nanos-units naturals naturals-laws 1720000000 (omega arith) (omega arith)

abbrev failed_messages : Items
failed_messages = cons (obj (field (codes "type") (text (codes "INFO")) end)) (
    cons
      (obj (
        field (codes "type") (text (codes "FATAL"))
          (field (codes "text") (text (codes "no such search")) end)))
      nil)

abbrev failed : Fields
failed = field (codes "messages") (arr failed_messages) end

throw_if_search_error-CheckResult_example :
    CheckResult
      (table_json [])
      ascii
      (elements (arr failed_messages))
      (throw_if_search_error (table_json []) ascii (obj failed))
unfolding assoc members equal
throw_if_search_error-CheckResult_example =
    throw_if_search_error-CheckResult (table_json []) ascii failed failed_messages refl

map_event-RowFits_example :
    RowFits (7 ∷ 0 ∷ 99 ∷ []) (map_event (sample_platform documents) event (7 ∷ 0 ∷ 99 ∷ []))
map_event-RowFits_example = map_event-RowFits (sample_platform documents) event (7 ∷ 0 ∷ 99 ∷ [])
