-- ===== src/Catalog/Entries.antt =====
-- src/splunk_catalog.cpp: the entries of an attached catalog: SplunkTableEntry, SplunkSchemaEntry
-- and SplunkCatalog, with their lookups and scans.
use duckdb_splunk.Prelude.{
  Bool, not, Option, none, some, List, [], ◌∷◌, Bytes, codes, map, equal, if◌then◌else◌,
}
use duckdb_splunk.External.{StringUtil}
use duckdb_splunk.Errors.{no_schema, Result, ok, throw}
use duckdb_splunk.Logs.Schema.{LogicalType, column_names, column_types}

-- `SplunkTableEntry`: `name` and `columns` are those of DuckDB's `TableCatalogEntry`.
pub record TableEntry : Type 0 where
  pub name : Bytes
  pub columns : List (Bytes × LogicalType)
  pub index_name : Bytes
  pub secret_name : Bytes

pub record SchemaEntry : Type 0 where
  pub name : Bytes
  pub tables : List TableEntry

pub record SplunkCatalog : Type 0 where
  pub logs_schema : SchemaEntry

-- The loop of `CreateInfo`: each name with the type at its place.
unfoldable pub add_columns : List Bytes → List LogicalType → List (Bytes × LogicalType)
add_columns (n ∷ names) (t ∷ types) = (n, t) ∷ add_columns names types
add_columns _ _ = []

unfoldable pub table_entry : Bytes → Bytes → TableEntry
table_entry secret_name index_name = record {
  name = index_name;
  columns = add_columns column_names column_types;
  index_name = index_name;
  secret_name = secret_name;
}

-- The constructor of `SplunkSchemaEntry`, and its `CreateInfo`.
unfoldable pub schema_entry : List Bytes → Bytes → SchemaEntry
schema_entry indexes secret_name = record {
  name = codes "logs";
  tables = map (table_entry secret_name) indexes;
}

abbrev pub splunk_catalog : List Bytes → Bytes → SplunkCatalog
splunk_catalog indexes secret_name = record { logs_schema = schema_entry indexes secret_name }

-- `GetCatalogType`.
abbrev pub catalog_type : Bytes
catalog_type = codes "splunk"

-- `SplunkSchemaEntry::Scan`: the callback, on its own state, for each table. The flag says
-- whether the scan is for tables.
unfoldable pub scan_tables {ℓ} : {S : Type ℓ} → (TableEntry → S → S) → List TableEntry → S → S
scan_tables callback [] s = s
scan_tables callback (table ∷ tables) s = scan_tables callback tables (callback table s)

abbrev pub schema_scan {ℓ} : {S : Type ℓ} → Bool → (TableEntry → S → S) → SchemaEntry → S → S
schema_scan is_table callback schema s =
    if not is_table then s else scan_tables callback schema.tables s

-- A loop that returns the first table that passes its test.
unfoldable pub first_table : (TableEntry → Bool) → List TableEntry → Option TableEntry
first_table test [] = none
first_table test (table ∷ tables) = if test table then some table else first_table test tables

-- The two loops of `LookupEntry`.
abbrev pub find_exact : Bytes → List TableEntry → Option TableEntry
find_exact name tables = first_table (λ table. equal table.name name) tables

abbrev pub find_ci : StringUtil → Bytes → List TableEntry → Option TableEntry
find_ci su name tables = first_table (λ table. su.ci_equals table.name name) tables

-- `SplunkSchemaEntry::LookupEntry`. The flag says whether the lookup is for a table.
unfoldable pub lookup_entry : StringUtil → Bool → Bytes → SchemaEntry → Option TableEntry
lookup_entry su is_table name schema =
    if not is_table then none else elim (find_exact name schema.tables) [
      | some table ↦ some table
      | none ↦ find_ci su name schema.tables
    ]

-- `SplunkCatalog::LookupSchema`. The flag says whether a missing schema is an error.
unfoldable pub lookup_schema :
    StringUtil → Bytes → Bool → SplunkCatalog → Result (Option SchemaEntry)
lookup_schema su name must_exist catalog =
    if su.ci_equals name (codes "logs")
    then ok (some catalog.logs_schema)
    else if must_exist
    then throw (no_schema name)
    else ok none
