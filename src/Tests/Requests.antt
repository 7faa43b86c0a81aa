-- ===== src/Tests/Requests.antt =====
-- Requests: the query, the form, and the index restriction.
use duckdb_splunk.Prelude.{◌≡◌, refl, ◌++◌, codes, some, pos, equal, lower_byte}
use duckdb_splunk.Logs.Query.{normalize_search_query, build_export_body, build_index_query}
use duckdb_splunk.Logs.Query.Form.{parse_form, export_fields, parse_form-build}
use duckdb_splunk.Logs.Query.Literal.{read_index_query, read-build_index_query}
use duckdb_splunk.Tests.Samples.{ascii, ascii-laws}

normalizes :
    (normalize_search_query ascii (codes "  index=main ") ≡ codes "search index=main")
    × (normalize_search_query ascii (codes "SEARCH x") ≡ codes "SEARCH x")
    × (normalize_search_query ascii (codes "| tstats count") ≡ codes "| tstats count")
    × (normalize_search_query ascii (codes " ") ≡ codes "search *")
unfolding normalize_search_query equal lower_byte
normalizes = (refl, refl, refl, refl)

-- The command alone is taken for a search term.
normalizes_bare_command : normalize_search_query ascii (codes "search") ≡ codes "search search"
unfolding normalize_search_query equal lower_byte
normalizes_bare_command = refl

escapes : build_index_query (codes "a\"b") ≡ codes "index=\"a\\\"b\""
unfolding build_index_query
escapes = refl

parse_form-build_example :
    parse_form (build_export_body ascii (codes "a&b") (codes "-15m") (codes "now") (pos 10))
    ≡ export_fields ascii (codes "a&b") (codes "-15m") (codes "now") (pos 10)
parse_form-build_example =
    parse_form-build ascii ascii-laws (codes "a&b") (codes "-15m") (codes "now") (pos 10)

read-build_index_query_example :
    read_index_query (build_index_query (codes "a\"b\\") ++ codes " | head")
    ≡ some (codes "a\"b\\", codes " | head")
read-build_index_query_example = read-build_index_query (codes "a\"b\\") (codes " | head")
