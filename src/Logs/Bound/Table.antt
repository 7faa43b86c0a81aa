-- ===== src/Logs/Bound/Table.antt =====
-- The search of a table of an attached catalog, from its name to the form that is posted.
use duckdb_splunk.Prelude.{◌≡◌, ap, ◌∙◌, true, some, List, [], ◌∷◌, ◌++◌, Bytes, codes, pos}
use duckdb_splunk.External.{StringUtil, StringUtilLaws, Values}
use duckdb_splunk.Errors.{ok}
use duckdb_splunk.Secret.{SecretManager, SplunkCredentials}
use duckdb_splunk.Logs.Query.{build_index_query}
use duckdb_splunk.Logs.Query.Form.{parse_form, parse_form-build}
use duckdb_splunk.Logs.Query.Index.{normalize-build_index_query}
use duckdb_splunk.Catalog.Entries.{TableEntry, lookup_entry}
use duckdb_splunk.Catalog.Session.{Request}
use duckdb_splunk.Catalog.Tables.{Answers}
use duckdb_splunk.Bind.{SplunkLogsBindData, default_bind_data, with_credentials, get_scan_function}
use duckdb_splunk.Bind.Tables.{schema_after, Searches, get_scan_function-Searches}
use duckdb_splunk.Logs.Bound.{export_form}

module _ (su : StringUtil) (laws : StringUtilLaws su) where
  -- The fields of the form that a scan of one index posts.
  abbrev pub index_fields : Bytes → List (Bytes × Bytes)
  index_fields index =
      (codes "search", su.url_encode (codes "search " ++ build_index_query index))
      ∷ (codes "earliest_time", su.url_encode (codes "-15m"))
      ∷ (codes "latest_time", su.url_encode (codes "now"))
      ∷ (codes "output_mode", codes "json")
      ∷ []

  pub index_form :
      (c : SplunkCredentials) (index : Bytes)
      → parse_form (
          export_form su
            (with_credentials c (record default_bind_data { query = build_index_query index })))
        ≡ index_fields index
  unfolding with_credentials
  index_form c index =
      parse_form-build su laws (build_index_query index) (codes "-15m") (codes "now") (pos 0)
      ∙ ap
          (λ search.
            (codes "search", su.url_encode search)
            ∷ (codes "earliest_time", su.url_encode (codes "-15m"))
            ∷ (codes "latest_time", su.url_encode (codes "now"))
            ∷ (codes "output_mode", codes "json")
            ∷ [])
          (normalize-build_index_query su laws index)

  -- If a name finds a table in an attached catalog, after whatever requests, and its scan
  -- binds, then the table stands for one of the attached indexes, which has that name or
  -- differs from it in case only; and the scan has usable credentials, of the secret pinned by
  -- the catalog, and searches that index and nothing else: a reader of Splunk string literals
  -- reads its name back from the query. If the string functions work on bytes as documented,
  -- the form that the scan posts has the fields of that search, of the default times and of the
  -- output mode, each encoded under its own name, and no other field.
  pub get_scan_function-form :
      (values : Values) (manager : SecretManager) (indexes : List Bytes) (secret_name name : Bytes)
      (requests : List Request) (table : TableEntry) (d : SplunkLogsBindData)
      → lookup_entry su true name (schema_after indexes secret_name requests) ≡ some table
      → get_scan_function su values manager table ≡ ok d
      → Answers su indexes secret_name name table
        × Searches su values manager secret_name table.index_name d
        × (parse_form (export_form su d) ≡ index_fields table.index_name)
  get_scan_function-form values manager indexes secret_name name requests table d found bound =
      let (answers, searches) =
        get_scan_function-Searches su values manager indexes secret_name name requests table d found
          bound in
      (
        answers,
        searches,
        ap (λ bind. parse_form (export_form su bind)) searches.bound
            ∙ index_form searches.credentials table.index_name,
      )
