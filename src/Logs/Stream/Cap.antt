-- ===== src/Logs/Stream/Cap.antt =====
-- The rows of an export: one for each event, up to the cap.
use duckdb_splunk.Prelude.{
  ℕ, ◌+◌, ◌≡◌, refl, ap, ◌∙◌, sym, inl, inr, true, false, none, List, [], ◌∷◌, ◌++◌, Bytes, flatten,
  map, ltb, leb, Bool-cases, if_true, if_false, append-nil, append_assoc, ◌&&◌,
}
use duckdb_splunk.External.{Json}
use duckdb_splunk.Errors.{ok, running, and_then}
use duckdb_splunk.Logs.Row.{Value, map_event}
use duckdb_splunk.Logs.Export.{parse_export_line}
use duckdb_splunk.Logs.Stream.{
  Producer, Export, idle, on_event, on_events, parse_line, after_parse, run_export,
}
use duckdb_splunk.Logs.Stream.Room.{
  events_of, capped, row_of, room, room_stop, room_push, room_nil, room_idle, events_of-cons,
  events_of-nil,
}
use duckdb_splunk.Logs.Stream.Lines.{lines_from, run_lines}
use duckdb_splunk.Logs.Stream.Whole.{run_lines_full, run_lines_open, run_export-lines}

module _ (x : Export) where
  -- The scan is neither cancelled nor interrupted.
  abbrev pub Undisturbed : Type 0
  Undisturbed = (n : ℕ) → x.halts n ≡ false

  pub on_events-append :
      (es fs : List Json) (s : Producer)
      → on_events x (es ++ fs) s ≡ on_events x fs (on_events x es s)
  unfolding on_events
  on_events-append [] fs s = refl
  on_events-append (e ∷ es) fs s = on_events-append es fs (on_event x e s)

  on_event_full : (e : Json) (s : Producer) → s.limit_reached ≡ true → on_event x e s ≡ s
  unfolding on_event
  on_event_full e s h = if_true _ _ h

  on_events_full : (es : List Json) (s : Producer) → s.limit_reached ≡ true → on_events x es s ≡ s
  unfolding on_events
  on_events_full [] s h = refl
  on_events_full (e ∷ es) s h = ap (on_events x es) (on_event_full e s h) ∙ on_events_full es s h

  on_event_stop :
      (e : Json) (s : Producer)
      → s.limit_reached ≡ false
      → ltb 0 x.cap && leb x.cap s.produced ≡ true
      → on_event x e s ≡ record s { limit_reached = true }
  unfolding on_event
  on_event_stop e s h k = if_false _ _ h ∙ if_true _ _ k

  pub on_event_push :
      (e : Json) (s : Producer)
      → s.limit_reached ≡ false
      → ltb 0 x.cap && leb x.cap s.produced ≡ false
      → x.halts s.produced ≡ false
      → on_event x e s ≡ record s { rows = s.rows ++ row_of x e ∷ []; produced = s.produced + 1 }
  unfolding on_event
  on_event_push e s h k u = if_false _ _ h ∙ if_false _ _ k ∙ if_false _ _ u

  -- The rows so far, and those to come.
  abbrev with_room : List Json → Producer → List (List Value)
  with_room es s = s.rows ++ map (row_of x) (room x s.limit_reached s.produced es)

  with_room-on_event :
      (e : Json) (es : List Json) (s : Producer)
      → x.halts s.produced ≡ false
      → with_room es (on_event x e s) ≡ with_room (e ∷ es) s
  with_room-on_event e es s u = elim (Bool-cases s.limit_reached) [
    | inl full ↦
        ap (with_room es) (on_event_full e s full)
        ∙ ap (λ taken. s.rows ++ map (row_of x) taken) (if_true _ _ full ∙ sym (if_true _ _ full))
    | inr open_end ↦ elim (Bool-cases (ltb 0 x.cap && leb x.cap s.produced)) [
      | inl stop ↦
          ap (with_room es) (on_event_stop e s open_end stop)
          ∙ ap (λ taken. s.rows ++ map (row_of x) taken)
              (sym (room_stop x s.limit_reached s.produced (e ∷ es) open_end stop))
      | inr go ↦
          ap (with_room es) (on_event_push e s open_end go u)
          ∙ append_assoc s.rows (row_of x e ∷ []) _
          ∙ ap (λ taken. s.rows ++ map (row_of x) taken)
              (sym (room_push x s.limit_reached s.produced e es open_end go))
    ]
  ]

  rows-on_events :
      (es : List Json) (s : Producer) → Undisturbed → (on_events x es s).rows ≡ with_room es s
  unfolding on_events
  rows-on_events [] s u = sym (
      ap (λ taken. s.rows ++ map (row_of x) taken) (room_nil x s.limit_reached s.produced)
      ∙ append-nil s.rows)
  rows-on_events (e ∷ es) s u =
      rows-on_events es (on_event x e s) u ∙ with_room-on_event e es s (u s.produced)

  pub parse_line-on_events :
      (line : Bytes) (s : Producer) (es : List Json)
      → parse_export_line x.platform line ≡ ok es
      → parse_line x line s ≡ running (on_events x es s)
  unfolding parse_line
  parse_line-on_events line s es h = ap (λ r. after_parse x r s) h

  run_lines_end : (s : Producer) → run_lines x [] s ≡ running (on_events x [] s)
  unfolding run_lines on_events
  run_lines_end s = refl

  -- Lines that all parse are the run of their events: at the limit neither does anything.
  pub run_lines-on_events :
      (lines : List Bytes) (s : Producer) (es : List Json)
      → events_of x lines ≡ ok es
      → run_lines x lines s ≡ running (on_events x es s)
  run_lines-on_events [] s es h =
      run_lines_end s ∙ ap (λ t. running (on_events x t s)) (sym (events_of-nil x es h))
  run_lines-on_events (line ∷ lines) s es h =
      let (events, later, p, q, e) = events_of-cons x line lines es h in
      elim (Bool-cases s.limit_reached) [
        | inl full ↦
            run_lines_full x (line ∷ lines) s full ∙ ap running (sym (on_events_full es s full))
        | inr space ↦
            run_lines_open x line lines s space
            ∙ ap (λ r. and_then r (run_lines x lines)) (parse_line-on_events line s events p)
            ∙ run_lines-on_events lines (on_events x events s) later q
            ∙ ap running (sym (on_events-append events later s) ∙ ap (λ t. on_events x t s) (sym e))
      ]

  -- If every line of the response parses and the scan is neither cancelled nor interrupted,
  -- then a response that ends normally, in whatever chunks it comes, leaves the producer with
  -- no exception and with the rows of the events of all lines, in order, each event mapped on
  -- its own: the first `cap` of them, or all where the cap is 0.
  pub run_export-rows :
      (chunks : List Bytes) (es : List Json)
      → Undisturbed
      → events_of x (lines_from [] (flatten chunks)) ≡ ok es
      → (s : Producer) × (run_export x chunks none ≡ running s)
        × (s.rows ≡ map (λ e. map_event x.platform e x.column_ids) (capped x es))
  run_export-rows chunks es u h = (
    on_events x es idle,
    run_export-lines x chunks ∙ run_lines-on_events (lines_from [] (flatten chunks)) idle es h,
    rows-on_events es idle u ∙ ap (map (row_of x)) (room_idle x es),
  )
