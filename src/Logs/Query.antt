-- ===== src/Logs/Query.antt =====
-- src/logs_table.cpp, "Request building": the body of the export request.
pub mod Normal
pub mod Form
pub mod Literal
pub mod Index
use duckdb_splunk.Prelude.{
  ℕ, Bool, true, false, ◌||◌, [], ◌∷◌, ◌++◌, Bytes, codes, ◌==◌, if◌then◌else◌, to_string, ℤ, pos,
  negsuc, ltb_ℤ, pos_part,
}
use duckdb_splunk.External.{StringUtil}

-- `trimmed[0] == '|'`.
abbrev pub begins_with : ℕ → Bytes → Bool
begins_with b [] = false
begins_with b (c ∷ s) = c == b

module _ (su : StringUtil) where
  -- The part of `NormalizeSearchQuery` behind the trim.
  unfoldable pub normalize_trimmed : Bytes → Bytes
  normalize_trimmed [] = codes "search *"
  normalize_trimmed (c ∷ s) =
      let trimmed = c ∷ s in
      if begins_with b'|' trimmed
      then trimmed
      else if su.starts_with (su.lower trimmed) (codes "search ")
      then trimmed
      else codes "search " ++ trimmed

  -- `NormalizeSearchQuery`.
  unfoldable pub normalize_search_query : Bytes → Bytes
  unfolding normalize_trimmed
  normalize_search_query query = normalize_trimmed (su.trim query)

  -- `BuildExportBody`; `count` is sent only when rows are capped.
  unfoldable pub build_export_body : Bytes → Bytes → Bytes → ℤ → Bytes
  build_export_body query earliest latest max_rows =
      let body = codes "search=" ++ su.url_encode (normalize_search_query query) in
      let body' = body ++ (codes "&earliest_time=" ++ su.url_encode earliest) in
      let body'' = body' ++ (codes "&latest_time=" ++ su.url_encode latest) in
      let body''' = body'' ++ codes "&output_mode=json" in
      if ltb_ℤ (pos 0) max_rows
      then body''' ++ (codes "&count=" ++ to_string (pos_part max_rows))
      else body'''

-- The loop of `BuildIndexQuery`.
unfoldable pub escape_index : Bytes → Bytes
escape_index [] = []
escape_index (ch ∷ s) =
    if ch == b'\\' || ch == b'"' then b'\\' ∷ ch ∷ escape_index s else ch ∷ escape_index s

-- `BuildIndexQuery`.
unfoldable pub build_index_query : Bytes → Bytes
unfolding escape_index
build_index_query index_name = codes "index=\"" ++ (escape_index index_name ++ codes "\"")
