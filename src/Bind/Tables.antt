-- ===== src/Bind/Tables.antt =====
-- From the name of a table to the search that its scan sends.
use duckdb_splunk.Prelude.{◌≡◌, refl, ap, ◌∙◌, sym, true, some, List, [], Bytes, append-nil, subst}
use duckdb_splunk.External.{StringUtil, Values}
use duckdb_splunk.Errors.{ok, >>=-eq-ok}
use duckdb_splunk.Secret.{SecretManager, SplunkCredentials, get_splunk_credentials}
use duckdb_splunk.Secret.Usable.{IsUsable, get_splunk_credentials-IsUsable}
use duckdb_splunk.Logs.Query.{build_index_query}
use duckdb_splunk.Logs.Query.Literal.{read_index_query, read-build_index_query}
use duckdb_splunk.Catalog.Entries.{
  TableEntry, SchemaEntry, SplunkCatalog, splunk_catalog, lookup_entry,
}
use duckdb_splunk.Catalog.Session.{Request, serve_all, attach}
use duckdb_splunk.Catalog.Session.Stable.{serve_all-catalog}
use duckdb_splunk.Catalog.Tables.{Answers, lookup_entry-Answers}
use duckdb_splunk.Bind.{
  SplunkLogsBindData, default_bind_data, with_credentials, table_scan_bind, get_scan_function,
}

-- The schema of a catalog that has served requests.
abbrev pub schema_after : List Bytes → Bytes → List Request → SchemaEntry
schema_after indexes secret_name requests =
    (serve_all requests (attach (splunk_catalog indexes secret_name))).catalog.logs_schema

module _ (su : StringUtil) (values : Values) (manager : SecretManager) where
  -- The search for one index, with the credentials of the catalog's secret.
  pub record Searches (secret_name index : Bytes) (d : SplunkLogsBindData) : Type 0 where
    pub credentials : SplunkCredentials
    pub pinned_secret : get_splunk_credentials su values manager secret_name ≡ ok credentials
    pub usable : IsUsable su credentials
    pub bound :
        d
        ≡ with_credentials credentials
            (record default_bind_data { query = build_index_query index })
    pub searched : read_index_query d.query ≡ some (index, [])

  query_of :
      (c : SplunkCredentials) (index : Bytes)
      → (with_credentials c (record default_bind_data { query = build_index_query index })).query
        ≡ build_index_query index
  unfolding with_credentials
  query_of c index = refl

  query-reads : (index : Bytes) → read_index_query (build_index_query index) ≡ some (index, [])
  query-reads index =
      ap read_index_query (sym (append-nil (build_index_query index)))
      ∙ read-build_index_query index []

  table_scan_bind-Searches :
      (secret_name index : Bytes) (d : SplunkLogsBindData)
      → table_scan_bind su values manager secret_name index ≡ ok d
      → Searches secret_name index d
  unfolding table_scan_bind
  table_scan_bind-Searches secret_name index d h =
      let (c, found, made) = >>=-eq-ok (get_splunk_credentials su values manager secret_name) _ h in
      let same = same_data made in
      record {
        credentials = c;
        pinned_secret = found;
        usable = get_splunk_credentials-IsUsable su values manager secret_name c found;
        bound = same;
        searched =
            ap read_index_query (ap SplunkLogsBindData.query same ∙ query_of c index)
            ∙ query-reads index;
      }
    where
      same_data : {d' : SplunkLogsBindData} → ok d' ≡ ok d → d ≡ d'
      same_data e = cc

  secret_of :
      (indexes : List Bytes) (secret_name name : Bytes) (table : TableEntry)
      → Answers su indexes secret_name name table
      → table.secret_name ≡ secret_name
  unfolding duckdb_splunk.Catalog.Entries.table_entry
  secret_of indexes secret_name name table answers = ap TableEntry.secret_name answers.2

  -- If a name finds a table in an attached catalog, after whatever requests, and its scan
  -- binds, then the table stands for one of the attached indexes, which has that name or
  -- differs from it in case only; and the scan has usable credentials, of the secret pinned by
  -- the catalog, and searches that index and nothing else: a reader of Splunk string literals
  -- reads its name back from the query.
  pub get_scan_function-Searches :
      (indexes : List Bytes) (secret_name name : Bytes) (requests : List Request)
      (table : TableEntry) (d : SplunkLogsBindData)
      → lookup_entry su true name (schema_after indexes secret_name requests) ≡ some table
      → get_scan_function su values manager table ≡ ok d
      → Answers su indexes secret_name name table × Searches secret_name table.index_name d
  get_scan_function-Searches indexes secret_name name requests table d found bound =
      let unchanged = serve_all-catalog requests (attach (splunk_catalog indexes secret_name)) in
      let answers = lookup_entry-Answers su indexes secret_name name table (
        ap (λ (c : SplunkCatalog). lookup_entry su true name c.logs_schema) (sym unchanged)
        ∙ found) in
      (
        answers,
        subst (λ s. Searches s table.index_name d)
            (secret_of indexes secret_name name table answers)
            (table_scan_bind-Searches table.secret_name table.index_name d bound),
      )
