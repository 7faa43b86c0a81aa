-- ===== src/Logs/Stream/Fails.antt =====
-- A response with a line that reports a failed search.
use duckdb_splunk.Prelude.{
  ℕ, suc, ◌+◌, ◌≤◌, ◌≡◌, refl, ap, ◌∙◌, sym, ◌⊎◌, inl, inr, false, none, List, [], ◌∷◌, ◌++◌, Bytes,
  flatten, map, length, length-append, ltb, leb, arith, subst, ◌&&◌, append-nil, append_assoc,
}
use duckdb_splunk.External.{Json}
use duckdb_splunk.Errors.{Exception, ok, throw, thrown, and_then}
use duckdb_splunk.Logs.Row.{map_event}
use duckdb_splunk.Logs.Export.{parse_export_line}
use duckdb_splunk.Logs.Stream.{
  Producer, Export, idle, on_events, parse_line, after_parse, run_export,
}
use duckdb_splunk.Logs.Stream.Room.{events_of, row_of, events_of-cons, events_of-nil}
use duckdb_splunk.Logs.Stream.Lines.{lines_from, run_lines}
use duckdb_splunk.Logs.Stream.Whole.{run_lines_open, run_export-lines}
use duckdb_splunk.Logs.Stream.Cap.{
  Undisturbed, on_event_push, on_events-append, parse_line-on_events,
}

-- The lines of a response, up to one that throws: the events of the lines in front of it.
pub record BreaksAt (x : Export) (lines : List Bytes) (es : List Json) (e : Exception)
    : Type 0 where
  pub before : List Bytes
  pub line : Bytes
  pub after : List Bytes
  pub split : lines ≡ before ++ line ∷ after
  pub parsed : events_of x before ≡ ok es
  pub throws : parse_export_line x.platform line ≡ throw e

module _ (x : Export) where
  -- The cap is off, or leaves room for so many rows behind `produced`.
  abbrev pub HasRoomFor : ℕ → ℕ → Type 0
  HasRoomFor produced more = (x.cap ≡ 0) ⊎ (produced + more ≤ x.cap)

  pub HasRoomFor-open :
      (produced more : ℕ)
      → HasRoomFor produced (suc more)
      → ltb 0 x.cap && leb x.cap produced ≡ false
  HasRoomFor-open produced more (inl no_cap) = ground arith
  HasRoomFor-open produced more (inr below) = ground arith

  HasRoomFor-next :
      (produced more : ℕ) → HasRoomFor produced (suc more) → HasRoomFor (produced + 1) more
  HasRoomFor-next produced more (inl no_cap) = inl no_cap
  HasRoomFor-next produced more (inr below) = inr (omega arith)

  -- Some of the events, and those behind them.
  HasRoomFor-some :
      (produced all first later : ℕ)
      → all ≡ first + later
      → HasRoomFor produced all
      → HasRoomFor produced first
  HasRoomFor-some produced all first later e (inl no_cap) = inl no_cap
  HasRoomFor-some produced all first later e (inr below) = inr (omega arith)

  HasRoomFor-later :
      (produced produced' all first later : ℕ)
      → all ≡ first + later
      → produced' ≡ produced + first
      → HasRoomFor produced all
      → HasRoomFor produced' later
  HasRoomFor-later produced produced' all first later e c (inl no_cap) = inl no_cap
  HasRoomFor-later produced produced' all first later e c (inr below) = inr (omega arith)

  -- Events that the cap leaves room for are all pushed, and do not reach it.
  pub record Pushed (es : List Json) (s t : Producer) : Type 0 where
    pub still_open : t.limit_reached ≡ false
    pub counted : t.produced ≡ s.produced + length es
    pub pushed : t.rows ≡ s.rows ++ map (row_of x) es

  pub on_events-Pushed :
      (es : List Json) (s : Producer)
      → Undisturbed x
      → s.limit_reached ≡ false
      → HasRoomFor s.produced (length es)
      → Pushed es s (on_events x es s)
  unfolding on_events
  on_events-Pushed [] s u o h = record {
    still_open = o;
    counted = omega arith;
    pushed = sym (append-nil s.rows);
  }
  on_events-Pushed (e ∷ es) s u o h =
      let step = on_event_push x e s o (HasRoomFor-open s.produced (length es) h) (u s.produced) in
      let next = record s { rows = s.rows ++ row_of x e ∷ []; produced = s.produced + 1 } in
      let later = on_events-Pushed es next u o (HasRoomFor-next s.produced (length es) h) in
      subst (Pushed (e ∷ es) s) (sym (ap (on_events x es) step)) (record {
        still_open = later.still_open;
        counted = omega (arith, later.counted);
        pushed = later.pushed ∙ append_assoc s.rows (row_of x e ∷ []) (map (row_of x) es);
      })

  parse_line-throws :
      (line : Bytes) (s : Producer) (e : Exception)
      → parse_export_line x.platform line ≡ throw e
      → parse_line x line s ≡ thrown e s
  unfolding parse_line
  parse_line-throws line s e h = ap (λ r. after_parse x r s) h

  -- The lines up to the one that throws are read, and nothing behind it.
  run_lines-throws :
      (before : List Bytes) (line : Bytes) (after : List Bytes) (s : Producer) (es : List Json)
      (e : Exception)
      → Undisturbed x
      → s.limit_reached ≡ false
      → HasRoomFor s.produced (length es)
      → events_of x before ≡ ok es
      → parse_export_line x.platform line ≡ throw e
      → run_lines x (before ++ line ∷ after) s ≡ thrown e (on_events x es s)
  run_lines-throws [] line after s es e u o h p t =
      run_lines_open x line after s o
      ∙ ap (λ r. and_then r (run_lines x after)) (parse_line-throws line s e t)
      ∙ ap (thrown e) (nothing s ∙ ap (λ evs. on_events x evs s) (sym (events_of-nil x es p)))
    where
      nothing : (s : Producer) → s ≡ on_events x [] s
      nothing s = unfold on_events in refl
  run_lines-throws (l ∷ before) line after s es e u o h p t =
      let (events, later, q, r, split) = events_of-cons x l before es p in
      let counts : length es ≡ length events + length later =
        ap length split ∙ length-append events later in
      let pushed =
        on_events-Pushed events s u o
          (HasRoomFor-some s.produced _ (length events) (length later) counts h) in
      run_lines_open x l (before ++ line ∷ after) s o
      ∙ ap (λ r. and_then r (run_lines x (before ++ line ∷ after)))
          (parse_line-on_events x l s events q)
      ∙ run_lines-throws before line after (on_events x events s) later e u pushed.still_open
          (HasRoomFor-later s.produced _ _ (length events) (length later) counts pushed.counted h) r
          t
      ∙ ap (thrown e)
          (sym (on_events-append x events later s) ∙ ap (λ t. on_events x t s) (sym split))

  -- If a line of the response reports a failed search, the lines in front of it parse, the scan
  -- is neither cancelled nor interrupted, and the events of those lines are no more than the
  -- cap, if there is one, then the producer of a response that ends normally, in whatever chunks
  -- it comes, ends with the exception of that line, behind the rows of all events in front of it.
  pub run_export-throws :
      (chunks : List Bytes) (es : List Json) (e : Exception)
      → Undisturbed x
      → BreaksAt x (lines_from [] (flatten chunks)) es e
      → HasRoomFor 0 (length es)
      → (s : Producer) × (run_export x chunks none ≡ thrown e s)
        × (s.rows ≡ map (λ e. map_event x.platform e x.column_ids) es)
  run_export-throws chunks es e u b h = (
    on_events x es idle,
    run_export-lines x chunks
        ∙ ap (λ lines. run_lines x lines idle) b.split
        ∙ run_lines-throws b.before b.line b.after idle es e u refl h b.parsed b.throws,
    (on_events-Pushed es idle u refl h).pushed,
  )
