-- ===== src/Logs/Row/Raw.antt =====
-- src/logs_table.cpp, ParseRawObject: the JSON object that `_raw` may hold.
use duckdb_splunk.Prelude.{
  ◌||◌, ◌==◌, Option, none, some, [], ◌∷◌, Bytes, codes, if◌then◌else◌, Bool, false,
}
use duckdb_splunk.External.{Json, obj, Yyjson}
use duckdb_splunk.Logs.Lookup.{get_str}

-- The loop over leading white space.
unfoldable pub skip_space : Bytes → Bytes
skip_space [] = []
skip_space (c ∷ s) =
    if c == b' ' || (c == b'\t' || (c == b'\n' || c == b'\r')) then skip_space s else c ∷ s

-- `*p == '{'`.
abbrev opens_object : Bytes → Bool
opens_object [] = false
opens_object (c ∷ s) = c == b'{'

-- `(root && yyjson_is_obj(root)) ? root : nullptr`.
unfoldable pub only_object : Option Json → Option Json
only_object (some (obj fs)) = some (obj fs)
only_object _ = none

module _ (y : Yyjson) where
  -- What `ParseRawObject` does with a text.
  unfoldable pub read_object : Bytes → Option Json
  unfolding skip_space only_object
  read_object text = if opens_object (skip_space text) then only_object (y.read text) else none

  -- `ParseRawObject`.
  unfoldable pub parse_raw_object : Json → Option Json
  parse_raw_object event = elim (get_str y (some event) (codes "_raw")) [
    | none ↦ none
    | some text ↦ read_object text
  ]

  -- The nested object `fields` of an event.
  unfoldable pub fields_object : Json → Option Json
  unfolding only_object
  fields_object event = only_object (y.obj_get event (codes "fields"))
