-- ===== src/Logs/Row/Columns.antt =====
-- The memoised row is the row of the columns one by one.
use duckdb_splunk.Prelude.{
  ℕ, Bool, true, false, ◌≡◌, refl, Option, some, List, [], ◌∷◌, Bytes, codes, ◌==◌, ◌||◌,
  if◌then◌else◌, arith, map, ap, ap₂,
}
use duckdb_splunk.External.{Json, Platform}
use duckdb_splunk.Logs.Lookup.{lookup_str}
use duckdb_splunk.Logs.Time.{parse_splunk_time_to_nanos}
use duckdb_splunk.Logs.Attributes.{build_resource_attributes, build_log_attributes}
use duckdb_splunk.Logs.Row.Raw.{parse_raw_object, fields_object}
use duckdb_splunk.Logs.Row.{
  Value, null_value, Memo, fresh, text_value, attributes_value, time_value, severity_keys,
  severity_value, raw, lookup_in_event, severity, timestamp, map_column, map_columns, map_event,
}

module _ (p : Platform) (event : Json) where
  open p use {json}

  -- The string of an event under one of the keys: in the event itself, in its `fields`, in `_raw`.
  abbrev pub event_text : List Bytes → Option Bytes
  event_text =
      lookup_str json (some event ∷ fields_object json event ∷ parse_raw_object json event ∷ [])

  abbrev pub event_time : Value
  event_time =
      time_value
        (parse_splunk_time_to_nanos p.doubles p.timestamps (json.obj_get event (codes "_time")))

  -- Column by column, with nothing shared. The columns are numbered as in the schema.
  abbrev pub column_value : ℕ → Value
  column_value c =
      if c == 0 || c == 1
      then event_time
      else if c == 2
      then text_value (event_text (codes "trace_id" ∷ []))
      else if c == 3
      then text_value (event_text (codes "span_id" ∷ []))
      else if c == 4
      then text_value (event_text (codes "service" ∷ codes "service_name" ∷ []))
      else if c == 7
      then severity_value p.strings (event_text severity_keys)
      else if c == 8
      then text_value (event_text severity_keys)
      else if c == 10
      then text_value (event_text (codes "_raw" ∷ codes "message" ∷ []))
      else if c == 11
      then attributes_value (build_resource_attributes json event)
      else if c == 15
      then attributes_value (build_log_attributes json event (parse_raw_object json event))
      else null_value

  -- A cache that is marked as filled holds the value that it stands for.
  pub record IsSound (m : Memo) : Type 0 where
    pub raw_sound : m.raw_parsed ≡ true → m.raw_cache ≡ parse_raw_object json event
    pub severity_sound : m.severity_done ≡ true → m.severity_cache ≡ event_text severity_keys
    pub time_sound : m.time_done ≡ true → m.time_cache ≡ event_time

  abbrev Gives {ℓ} : {A : Type ℓ} → A → A × Memo → Type ℓ
  Gives a (b, m) = (b ≡ a) × IsSound m

  raw-Gives : (m : Memo) → IsSound m → Gives (parse_raw_object json event) (raw p event m)
  unfolding raw
  raw-Gives m h = ground (arith, h.raw_sound)

  lookup-Gives :
      (keys : List Bytes) (m : Memo)
      → IsSound m
      → Gives (event_text keys) (lookup_in_event p event keys m)
  lookup-Gives keys m h =
      let (found, sound) = raw-Gives m h in
      unfold lookup_in_event in
      (ap (λ r. lookup_str json (some event ∷ fields_object json event ∷ r ∷ []) keys) found, sound)

  -- A value that is cached, or computed now.
  cached {ℓ} :
      {A : Type ℓ} (b : Bool) {a : A} {x x' : A × Memo}
      → (b ≡ true → Gives a x)
      → Gives a x'
      → Gives a (if b then x else x')
  cached true g g' = g refl
  cached false g g' = g'

  severity-Gives : (m : Memo) → IsSound m → Gives (event_text severity_keys) (severity p event m)
  unfolding severity
  severity-Gives m h =
      cached m.severity_done (λ done. (h.severity_sound done, h))
        (let (found, sound) = lookup-Gives severity_keys m h in
          (
            found,
            record {
              raw_sound = sound.raw_sound;
              severity_sound = λ _. found;
              time_sound = sound.time_sound;
            },
          ))

  timestamp-Gives : (m : Memo) → IsSound m → Gives event_time (timestamp p event m)
  unfolding timestamp
  timestamp-Gives m h = ground arith

  -- Both sides branch on the same test.
  choose {ℓ} :
      {A : Type ℓ} (b : Bool) {a a' : A} {x x' : A × Memo}
      → Gives a x
      → Gives a' x'
      → Gives (if b then a else a') (if b then x else x')
  choose true g g' = g
  choose false g g' = g'

  -- A value computed from what the memo gives.
  after {ℓ κ} :
      {A : Type ℓ} {B : Type κ} (f : A → B) {a : A} {x : A × Memo}
      → Gives a x
      → Gives (f a) (f x.0, x.1)
  after f g = (ap f g.0, g.1)

  map_column-Gives :
      (c : ℕ) (m : Memo) → IsSound m → Gives (column_value c) (map_column p event c m)
  unfolding map_column
  map_column-Gives c m h = choose (c == 0 || c == 1) (timestamp-Gives m h) (
      choose (c == 2) (after text_value (lookup-Gives (codes "trace_id" ∷ []) m h)) (
        choose (c == 3) (after text_value (lookup-Gives (codes "span_id" ∷ []) m h)) (
          choose (c == 4)
            (after text_value (lookup-Gives (codes "service" ∷ codes "service_name" ∷ []) m h))
            (choose (c == 7) (after (severity_value p.strings) (severity-Gives m h)) (
              choose (c == 8) (after text_value (severity-Gives m h)) (
                choose (c == 10)
                  (after text_value (lookup-Gives (codes "_raw" ∷ codes "message" ∷ []) m h))
                  (choose (c == 11) (refl, h)
                    (choose (c == 15)
                      (after (λ r. attributes_value (build_log_attributes json event r))
                        (raw-Gives m h))
                      (refl, h)))))))))

  map_columns-values :
      (cs : List ℕ) (m : Memo) → IsSound m → (map_columns p event cs m).0 ≡ map column_value cs
  unfolding map_columns
  map_columns-values [] m h = refl
  map_columns-values (c ∷ cs) m h =
      let (value, sound) = map_column-Gives c m h in
      ap₂ ◌∷◌ value (map_columns-values cs (map_column p event c m).1 sound)

fresh-IsSound : (p : Platform) (event : Json) → IsSound p event fresh
fresh-IsSound p event = record {
  raw_sound = λ e. cc;
  severity_sound = λ e. cc;
  time_sound = λ e. cc;
}

-- The row that is computed with the memoised payload, severity and time is the list of the
-- projected columns, each computed from the event with nothing shared, whatever columns are
-- projected, in whatever order and however often.
pub map_event-columns :
    (p : Platform) (event : Json) (column_ids : List ℕ)
    → map_event p event column_ids ≡ map (column_value p event) column_ids
unfolding map_event
map_event-columns p event column_ids =
    map_columns-values p event column_ids fresh (fresh-IsSound p event)
