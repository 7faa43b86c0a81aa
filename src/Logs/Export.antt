-- ===== src/Logs/Export.antt =====
-- src/logs_table.cpp, ExtractEventsFromRoot, ThrowIfSearchError and ParseExportLine: one line of
-- the newline-delimited JSON that the export API answers with.
pub mod Events
pub mod Failure
use duckdb_splunk.Prelude.{
  ℕ, Bool, true, false, ◌&&◌, ◌||◌, Option, none, some, List, [], ◌∷◌, Bytes, codes, ◌==◌,
  drop_back, if◌then◌else◌,
}
use duckdb_splunk.External.{Json, bool, obj, arr, elements, Yyjson, StringUtil, Platform}
use duckdb_splunk.Errors.{Result, ok, throw, search_error, ◌>>=◌}
use duckdb_splunk.Logs.Lookup.{get_str}

abbrev pub is_some {ℓ} : {A : Type ℓ} → Option A → Bool
is_some none = false
is_some (some a) = true

-- `preview && yyjson_is_bool(preview) && yyjson_get_bool(preview)`.
abbrev pub is_true : Option Json → Bool
is_true (some (bool b)) = b
is_true _ = false

-- The loop over `results`, which calls `on_event` on objects only.
unfoldable pub objects_of : List Json → List Json
objects_of [] = []
objects_of (obj fs ∷ items) = obj fs ∷ objects_of items
objects_of (_ ∷ items) = objects_of items

module _ (y : Yyjson) where
  -- The flat event, behind the test for an event-ish field.
  unfoldable pub flat_events : Json → List Json
  flat_events root =
      if is_some (y.obj_get root (codes "_time"))
        || (is_some (y.obj_get root (codes "_raw")) || is_some (y.obj_get root (codes "message")))
      then root ∷ []
      else []

  -- Behind the test of `result`.
  unfoldable pub listed_events : Option Json → Json → List Json
  unfolding objects_of flat_events
  listed_events (some (arr js)) root = objects_of (elements (arr js))
  listed_events _ root = flat_events root

  -- Behind the test of `preview`.
  unfoldable pub result_events : Option Json → Json → List Json
  unfolding listed_events
  result_events (some (obj fs)) root = obj fs ∷ []
  result_events _ root = listed_events (y.obj_get root (codes "results")) root

  -- `ExtractEventsFromRoot`: the values that `on_event` is called on, in order.
  unfoldable pub extract_events : Json → List Json
  unfolding result_events
  extract_events (obj fs) =
      if is_true (y.obj_get (obj fs) (codes "preview"))
      then []
      else result_events (y.obj_get (obj fs) (codes "result")) (obj fs)
  extract_events _ = []

module _ (y : Yyjson) (su : StringUtil) where
  -- `CIEquals(type, "FATAL") || CIEquals(type, "ERROR")`.
  abbrev pub is_failure_type : Bytes → Bool
  is_failure_type type = su.ci_equals type (codes "FATAL") || su.ci_equals type (codes "ERROR")

  -- `text ? text : "(no detail)"`.
  abbrev pub detail : Option Bytes → Bytes
  detail (some text) = text
  detail none = codes "(no detail)"

  -- One round of the loop over `messages`.
  unfoldable pub check_message : Json → Result (Unit {0})
  check_message msg = elim (get_str y (some msg) (codes "type")) [
    | none ↦ ok tt
    | some type ↦
        if is_failure_type type
        then throw (search_error type (detail (get_str y (some msg) (codes "text"))))
        else ok tt
  ]

  unfoldable pub check_messages : List Json → Result (Unit {0})
  unfolding check_message
  check_messages [] = ok tt
  check_messages (msg ∷ msgs) = check_message msg >>= λ _. check_messages msgs

  check_listed : Option Json → Result (Unit {0})
  check_listed (some (arr js)) = check_messages (elements (arr js))
  check_listed _ = ok tt

  -- `ThrowIfSearchError`.
  unfoldable pub throw_if_search_error : Json → Result (Unit {0})
  unfolding check_listed
  throw_if_search_error (obj fs) = check_listed (y.obj_get (obj fs) (codes "messages"))
  throw_if_search_error _ = ok tt

-- The loop that drops carriage returns at the end of a line.
unfoldable pub strip_cr : Bytes → Bytes
unfolding drop_back
strip_cr = drop_back b'\r'

module _ (p : Platform) where
  parse_record : Bytes → Result (List Json)
  parse_record [] = ok []
  parse_record (c ∷ s) = elim (p.json.read (c ∷ s)) [
    | none ↦ ok []
    | some root ↦
        throw_if_search_error p.json p.strings root >>= λ _. ok (extract_events p.json root)
  ]

  -- `ParseExportLine`: the events of a line, for `on_event` in order.
  unfoldable pub parse_export_line : Bytes → Result (List Json)
  unfolding parse_record strip_cr
  parse_export_line line = parse_record (strip_cr line)
