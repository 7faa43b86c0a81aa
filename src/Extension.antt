-- ===== src/Extension.antt =====
-- src/splunk_extension.cpp and the functions that it calls to register what the extension brings:
-- RegisterSplunkSecretType, RegisterSplunkCatalog and RegisterSplunkLogsFunction.
pub mod Options
use duckdb_splunk.Prelude.{Bool, true, false, List, [], ◌∷◌, Bytes, codes, equal, if◌then◌else◌}
use duckdb_splunk.Logs.Schema.{LogicalType, varchar, bigint, boolean}

-- DuckDB's `SecretType`, `CreateSecretFunction` and `TableFunction`, as far as they are set.
pub record SecretType : Type 0 where
  pub name : Bytes
  pub default_provider : Bytes

pub record CreateSecretFunction : Type 0 where
  pub secret_type : Bytes
  pub provider : Bytes
  pub named_parameters : List (Bytes × LogicalType)

pub record TableFunction : Type 0 where
  pub name : Bytes
  pub named_parameters : List (Bytes × LogicalType)
  pub projection_pushdown : Bool

-- What a loader has been given, the last first. A storage extension stands for its name.
pub record ExtensionLoader : Type 0 where
  pub secret_types : List SecretType
  pub secret_functions : List CreateSecretFunction
  pub storage_extensions : List Bytes
  pub table_functions : List TableFunction

abbrev pub splunk_secret_type : SecretType
splunk_secret_type = record { name = codes "splunk"; default_provider = codes "config" }

unfoldable pub splunk_secret_function : CreateSecretFunction
splunk_secret_function = record {
  secret_type = codes "splunk";
  provider = codes "config";
  named_parameters =
      (codes "url", varchar)
      ∷ (codes "username", varchar)
      ∷ (codes "password", varchar)
      ∷ (codes "token", varchar)
      ∷ (codes "token_type", varchar)
      ∷ (codes "insecure_tls", boolean)
      ∷ [];
}

unfoldable pub read_splunk_logs : TableFunction
read_splunk_logs = record {
  name = codes "read_splunk_logs";
  named_parameters =
      (codes "query", varchar)
      ∷ (codes "earliest", varchar)
      ∷ (codes "latest", varchar)
      ∷ (codes "max_rows", bigint)
      ∷ (codes "retries", bigint)
      ∷ (codes "timeout", bigint)
      ∷ (codes "secret", varchar)
      ∷ [];
  projection_pushdown = true;
}

-- The function of `GetSplunkLogsTableScan`, which DuckDB is not to call by name: it has no
-- parameters.
abbrev pub splunk_logs_scan : TableFunction
splunk_logs_scan = record {
  name = codes "splunk_logs_scan";
  named_parameters = [];
  projection_pushdown = true;
}

-- `SplunkExtension::Name`.
abbrev pub extension_name : Bytes
extension_name = codes "splunk"

-- `RegisterSplunkSecretType`.
unfoldable pub register_splunk_secret_type : ExtensionLoader → ExtensionLoader
register_splunk_secret_type loader = record loader {
  secret_types = splunk_secret_type ∷ loader.secret_types;
  secret_functions = splunk_secret_function ∷ loader.secret_functions;
}

-- `RegisterSplunkCatalog`.
unfoldable pub register_splunk_catalog : ExtensionLoader → ExtensionLoader
register_splunk_catalog loader = record loader {
  storage_extensions = codes "splunk" ∷ loader.storage_extensions;
}

-- `RegisterSplunkLogsFunction`.
unfoldable pub register_splunk_logs_function : ExtensionLoader → ExtensionLoader
register_splunk_logs_function loader = record loader {
  table_functions = read_splunk_logs ∷ loader.table_functions;
}

-- `LoadInternal`.
unfoldable pub load_internal : ExtensionLoader → ExtensionLoader
load_internal loader =
    register_splunk_logs_function (register_splunk_catalog (register_splunk_secret_type loader))

-- Whether a function has a parameter of that name.
unfoldable pub has_parameter : Bytes → List (Bytes × LogicalType) → Bool
has_parameter name [] = false
has_parameter name ((n, t) ∷ parameters) =
    if equal name n then true else has_parameter name parameters
