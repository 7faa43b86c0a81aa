-- ===== src/Logs/Lookup.antt =====
-- src/logs_table.cpp, GetStr and LookupStr: string fields by priority of source, then of key.
pub mod First
use duckdb_splunk.Prelude.{Option, none, some, List, [], ◌∷◌, Bytes, c_string}
use duckdb_splunk.External.{Json, Yyjson, str}

-- `(v && yyjson_is_str(v)) ? yyjson_get_str(v) : nullptr`.
unfoldable pub string_of : Option Json → Option Bytes
string_of (some (str s)) = some (c_string s)
string_of _ = none

module _ (y : Yyjson) where
  -- `GetStr`; `none` is the null pointer.
  unfoldable pub get_str : Option Json → Bytes → Option Bytes
  unfolding string_of
  get_str none key = none
  get_str (some source) key = string_of (y.obj_get source key)

  -- The inner loop of `LookupStr`, over the keys of one source.
  unfoldable pub lookup_keys : Option Json → List Bytes → Option Bytes
  lookup_keys source [] = none
  lookup_keys source (key ∷ keys) =
      let later = lookup_keys source keys in
      elim (get_str source key) [ some v ↦ some v | none ↦ later ]

  -- `LookupStr`.
  unfoldable pub lookup_str : List (Option Json) → List Bytes → Option Bytes
  unfolding lookup_keys
  lookup_str [] keys = none
  lookup_str (source ∷ sources) keys =
      let later = lookup_str sources keys in
      elim (lookup_keys source keys) [ some v ↦ some v | none ↦ later ]
