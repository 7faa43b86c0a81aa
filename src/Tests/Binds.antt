-- ===== src/Tests/Binds.antt =====
-- The manager parameters of the table function.
use duckdb_splunk.Prelude.{◌≡◌, refl, List, [], ◌∷◌, Bytes, codes, pos, equal, lower_byte}
use duckdb_splunk.External.{varchar_scalar, other_scalar, null_scalar, DuckValue, scalar, Values}
use duckdb_splunk.Errors.{ok}
use duckdb_splunk.Client.Connection.{default_client}
use duckdb_splunk.Secret.{Secret, SplunkCredentials, create_splunk_secret}
use duckdb_splunk.Bind.{
  SplunkLogsBindData, default_bind_data, with_credentials, splunk_logs_bind, get_scan_function,
}
use duckdb_splunk.Bind.Valid.{IsBound, splunk_logs_bind-IsBound}
use duckdb_splunk.Tests.Samples.{ascii, ascii-laws}
use duckdb_splunk.Logs.Query.{build_index_query}
use duckdb_splunk.Catalog.Entries.{table_entry}
use duckdb_splunk.Catalog.Tables.{Answers}
use duckdb_splunk.Bind.Tables.{Searches}
use duckdb_splunk.Logs.Query.Form.{parse_form}
use duckdb_splunk.Logs.Bound.{export_form}
use duckdb_splunk.Logs.Bound.Table.{index_fields, get_scan_function-form}
use duckdb_splunk.Tests.Catalogs.{manager, prod, indexes, requests, main_table, finds_folded}

-- Shows texts, and takes every other value for its number.
abbrev numbers : Values
numbers = record {
  show = λ v. elim v [ scalar (varchar_scalar s) ↦ s | _ ↦ [] ];
  get_int64 = λ v. elim v [ scalar (other_scalar n) ↦ pos n | _ ↦ pos 0 ];
}

abbrev parameters : List (Bytes × DuckValue)
parameters =
    (codes "Max_Rows", scalar (other_scalar 5))
    ∷ (codes "timeout", scalar (other_scalar 3))
    ∷ (codes "query", scalar null_scalar)
    ∷ []

abbrev bound : SplunkLogsBindData
bound = record default_bind_data {
  max_rows = pos 5;
  client = record default_client {
    token = codes "new";
    token_type = codes "splunk";
    timeout_seconds = 3;
  };
}

binds : splunk_logs_bind ascii numbers manager parameters ≡ ok bound
unfolding splunk_logs_bind duckdb_splunk.Bind.read_parameters duckdb_splunk.Bind.read_parameter
    duckdb_splunk.Bind.set_parameter duckdb_splunk.Bind.set_timeout duckdb_splunk.Bind.bind_with
    duckdb_splunk.Bind.with_credentials equal lower_byte duckdb_splunk.Secret.get_splunk_credentials
    duckdb_splunk.Secret.select_secret duckdb_splunk.Secret.first_splunk
    duckdb_splunk.Secret.create_splunk_secret duckdb_splunk.Secret.splunk_map
    duckdb_splunk.Secret.check_credentials duckdb_splunk.Secret.has_token
    duckdb_splunk.Secret.read_settings duckdb_splunk.Secret.get_setting
    duckdb_splunk.Secret.try_get_value duckdb_splunk.Secret.copy_options
    duckdb_splunk.Secret.copy_option duckdb_splunk.Secret.is_known_option
    duckdb_splunk.Secret.set_value
binds = refl

splunk_logs_bind-IsBound_example : IsBound bound
splunk_logs_bind-IsBound_example =
    splunk_logs_bind-IsBound ascii numbers manager parameters bound binds

abbrev main_search : SplunkLogsBindData
main_search =
    with_credentials prod (record default_bind_data { query = build_index_query (codes "Main") })

scans_table : get_scan_function ascii numbers manager main_table ≡ ok main_search
unfolding table_entry duckdb_splunk.Bind.table_scan_bind duckdb_splunk.Bind.with_credentials equal
    lower_byte duckdb_splunk.Secret.get_splunk_credentials duckdb_splunk.Secret.select_secret
    create_splunk_secret duckdb_splunk.Secret.splunk_map duckdb_splunk.Secret.check_credentials
    duckdb_splunk.Secret.has_token duckdb_splunk.Secret.read_settings
    duckdb_splunk.Secret.get_setting duckdb_splunk.Secret.try_get_value
    duckdb_splunk.Secret.copy_options duckdb_splunk.Secret.copy_option
    duckdb_splunk.Secret.is_known_option duckdb_splunk.Secret.set_value
scans_table = refl

get_scan_function-form_example :
    Answers ascii indexes (codes "prod") (codes "MAIN") main_table
    × Searches ascii numbers manager (codes "prod") main_table.index_name main_search
    × (parse_form (export_form ascii main_search)
        ≡ index_fields ascii ascii-laws main_table.index_name)
get_scan_function-form_example =
    get_scan_function-form ascii ascii-laws numbers manager indexes (codes "prod") (codes "MAIN")
      requests main_table main_search finds_folded scans_table
