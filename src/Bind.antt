-- ===== src/Bind.antt =====
-- src/logs_table.cpp: SplunkLogsBindData and SplunkLogsBind, the named parameters of the table
-- function and the credentials of its secret; and the bind data of GetSplunkLogsTableScan.
pub mod Valid
pub mod Tables
use duckdb_splunk.Prelude.{
  ℕ, Bool, true, false, List, [], ◌∷◌, Bytes, codes, equal, ℤ, pos, negsuc, ltb_ℤ, ltb,
  if◌then◌else◌,
}
use duckdb_splunk.External.{StringUtil, null_scalar, DuckValue, scalar, Values}
use duckdb_splunk.Errors.{invalid_input, Result, ok, throw, ◌>>=◌}
use duckdb_splunk.Client.Connection.{SplunkClient, default_client}
use duckdb_splunk.Secret.{SecretManager, SplunkCredentials, get_splunk_credentials}
use duckdb_splunk.Logs.Query.{build_index_query}
use duckdb_splunk.Catalog.Entries.{TableEntry}

pub record SplunkLogsBindData : Type 0 where
  pub query : Bytes
  pub earliest : Bytes
  pub latest : Bytes
  pub max_rows : ℤ
  pub client : SplunkClient

abbrev pub default_bind_data : SplunkLogsBindData
default_bind_data = record {
  query = codes "*";
  earliest = codes "-15m";
  latest = codes "now";
  max_rows = pos 0;
  client = default_client;
}

-- The local variables of the loop: `result`, and `secret_name`.
pub record Parameters : Type 0 where
  pub result : SplunkLogsBindData
  pub secret_name : Bytes

-- `retries`, which must not be negative.
unfoldable pub set_retries : ℤ → Parameters → Result Parameters
set_retries (negsuc n) b = throw (invalid_input (codes "read_splunk_logs: retries must be >= 0"))
set_retries (pos n) b =
    ok (record b { result = record b.result { client = record b.result.client { retries = n } } })

-- `timeout`, which must be positive.
unfoldable pub set_timeout : ℤ → Parameters → Result Parameters
set_timeout (negsuc n) b = throw (invalid_input (codes "read_splunk_logs: timeout must be >= 1"))
set_timeout (pos n) b =
    if ltb n 1
    then throw (invalid_input (codes "read_splunk_logs: timeout must be >= 1"))
    else ok (record b {
      result = record b.result { client = record b.result.client { timeout_seconds = n } };
    })

-- The credentials in the client.
unfoldable pub with_credentials : SplunkCredentials → SplunkLogsBindData → SplunkLogsBindData
with_credentials c d = record d {
  client = record d.client {
    url = c.url;
    username = c.username;
    password = c.password;
    token = c.token;
    token_type = c.token_type;
    insecure_tls = c.insecure_tls;
  };
}

module _ (su : StringUtil) (values : Values) where
  -- The choice by the key; an unknown key is ignored.
  unfoldable pub set_parameter : Bytes → DuckValue → Parameters → Result Parameters
  set_parameter key value b =
      if equal key (codes "query")
      then ok (record b { result = record b.result { query = values.show value } })
      else if equal key (codes "earliest")
      then ok (record b { result = record b.result { earliest = values.show value } })
      else if equal key (codes "latest")
      then ok (record b { result = record b.result { latest = values.show value } })
      else if equal key (codes "max_rows")
      then ok (record b { result = record b.result { max_rows = values.get_int64 value } })
      else if equal key (codes "retries")
      then set_retries (values.get_int64 value) b
      else if equal key (codes "timeout")
      then set_timeout (values.get_int64 value) b
      else if equal key (codes "secret")
      then ok (record b { secret_name = values.show value })
      else ok b

  -- One round of the loop over the named parameters.
  unfoldable pub read_parameter : Bytes × DuckValue → Parameters → Result Parameters
  read_parameter (name, scalar null_scalar) b = ok b
  read_parameter (name, value) b = set_parameter (su.lower name) value b

  unfoldable pub read_parameters : List (Bytes × DuckValue) → Parameters → Result Parameters
  read_parameters [] b = ok b
  read_parameters (parameter ∷ parameters) b =
      read_parameter parameter b >>= read_parameters parameters

module _ (su : StringUtil) (values : Values) (manager : SecretManager) where
  -- Behind the loop.
  unfoldable pub bind_with : Parameters → Result SplunkLogsBindData
  bind_with b =
      if ltb_ℤ b.result.max_rows (pos 0)
      then throw
          (invalid_input (codes "read_splunk_logs: max_rows must be >= 0 (0 means unlimited)"))
      else get_splunk_credentials su values manager b.secret_name >>= λ c.
          ok (with_credentials c b.result)

  -- `SplunkLogsBind`, of the named parameters.
  unfoldable pub splunk_logs_bind : List (Bytes × DuckValue) → Result SplunkLogsBindData
  splunk_logs_bind parameters =
      read_parameters su values parameters (record { result = default_bind_data; secret_name = [] })
      >>= bind_with

  -- The bind data of `GetSplunkLogsTableScan`, for a secret and an index.
  unfoldable pub table_scan_bind : Bytes → Bytes → Result SplunkLogsBindData
  table_scan_bind secret_name index_name =
      get_splunk_credentials su values manager secret_name >>= λ c.
      ok (with_credentials c (record default_bind_data { query = build_index_query index_name }))

  -- `SplunkTableEntry::GetScanFunction`.
  abbrev pub get_scan_function : TableEntry → Result SplunkLogsBindData
  get_scan_function table = table_scan_bind table.secret_name table.index_name
