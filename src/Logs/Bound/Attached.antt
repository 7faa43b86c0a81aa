-- ===== src/Logs/Bound/Attached.antt =====
-- Every index of an attached catalog can be searched by its name.
use duckdb_splunk.Prelude.{◌≡◌, true, some, List, Bytes}
use duckdb_splunk.External.{StringUtil, StringUtilLaws, DuckValue, Values}
use duckdb_splunk.Errors.{ok}
use duckdb_splunk.Client.Connection.{SplunkClient}
use duckdb_splunk.Secret.{SecretManager, SplunkCredentials, get_splunk_credentials}
use duckdb_splunk.Logs.Query.Form.{parse_form}
use duckdb_splunk.Catalog.Entries.{TableEntry, lookup_entry}
use duckdb_splunk.Catalog.Session.{Request}
use duckdb_splunk.Catalog.Given.{SecretGiven}
use duckdb_splunk.Bind.{SplunkLogsBindData, get_scan_function}
use duckdb_splunk.Bind.Tables.{schema_after}
use duckdb_splunk.Logs.Bound.{export_form}
use duckdb_splunk.Logs.Bound.Table.{index_fields}

-- A client that logs in with these credentials.
pub record HasCredentials (client : SplunkClient) (c : SplunkCredentials) : Type 0 where
  pub same_url : client.url ≡ c.url
  pub same_username : client.username ≡ c.username
  pub same_password : client.password ≡ c.password
  pub same_token : client.token ≡ c.token
  pub same_token_type : client.token_type ≡ c.token_type
  pub same_insecure_tls : client.insecure_tls ≡ c.insecure_tls

module _ (su : StringUtil) (laws : StringUtilLaws su) (values : Values)
    (manager : SecretManager) where
  -- A table under a name, its scan with the credentials that the options name, and the fields of the form that the scan posts.
  pub record IsSearchable (options : List (Bytes × DuckValue)) (indexes : List Bytes)
      (secret_name : Bytes) (requests : List Request) (name : Bytes) : Type 0 where
    pub table : TableEntry
    pub found : lookup_entry su true name (schema_after indexes secret_name requests) ≡ some table
    pub scan : SplunkLogsBindData
    pub binds : get_scan_function su values manager table ≡ ok scan
    pub given : Bytes
    pub secret_given : SecretGiven su options given
    pub credentials : SplunkCredentials
    pub credentials_found : get_splunk_credentials su values manager given ≡ ok credentials
    pub logs_in : HasCredentials scan.client credentials
    pub fields : parse_form (export_form su scan) ≡ index_fields su laws name
