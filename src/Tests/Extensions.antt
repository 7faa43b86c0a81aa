-- ===== src/Tests/Extensions.antt =====
-- Loading the extension.
use duckdb_splunk.Prelude.{◌≡◌, refl, [], length}
use duckdb_splunk.Bind.{Parameters, default_bind_data}
use duckdb_splunk.Extension.{ExtensionLoader}
use duckdb_splunk.Logs.Schema.{column_count, column_names, column_types}

abbrev empty_loader : ExtensionLoader
empty_loader = record {
  secret_types = [];
  secret_functions = [];
  storage_extensions = [];
  table_functions = [];
}

abbrev no_parameters : Parameters
no_parameters = record { result = default_bind_data; secret_name = [] }

-- A name and a type for each column.
schema-lengths : (length column_names ≡ column_count) × (length column_types ≡ column_count)
unfolding column_types
schema-lengths = (refl, refl)
