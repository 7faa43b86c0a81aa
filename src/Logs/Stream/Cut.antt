-- ===== src/Logs/Stream/Cut.antt =====
-- A response that breaks off: the complete lines of what has come.
use duckdb_splunk.Prelude.{
  ◌≡◌, refl, ap, ◌∙◌, sym, inl, inr, true, false, some, List, [], ◌∷◌, ◌++◌, Bytes, flatten, map,
  length, ◌==◌, if◌then◌else◌, Bool-cases, if_true, if_false,
}
use duckdb_splunk.External.{Json}
use duckdb_splunk.Errors.{Exception, ok, Run, running, thrown, and_then}
use duckdb_splunk.Logs.Row.{map_event}
use duckdb_splunk.Logs.Stream.{
  Producer, Export, idle, on_events, after_line, parse_line, after_chunks, run_export,
}
use duckdb_splunk.Logs.Stream.Room.{events_of}
use duckdb_splunk.Logs.Stream.Lines.{walk, run_lines, walk-limit}
use duckdb_splunk.Logs.Stream.Whole.{run_lines_full, run_lines_open, walk_end}
use duckdb_splunk.Logs.Stream.Chunks.{run_export-walk, walk_newline, walk_other}
use duckdb_splunk.Logs.Stream.Cap.{Undisturbed, run_lines-on_events}
use duckdb_splunk.Logs.Stream.Fails.{HasRoomFor, on_events-Pushed}

-- The lines of a text that a newline ends, behind the bytes `now`.
unfoldable pub complete_lines : Bytes → Bytes → List Bytes
complete_lines now [] = []
complete_lines now (c ∷ s) =
    let ended = now ∷ complete_lines [] s in
    let longer = complete_lines (now ++ c ∷ []) s in if c == b'\n' then ended else longer

module _ (x : Export) (failure : Exception) where
  -- Behind the complete lines: a producer at its limit does not see the failure.
  abbrev cut_off : Producer → Run Producer
  cut_off s = if s.limit_reached then running s else thrown failure s

  after_line-cut_off :
      (r : Run Producer) (f : Producer → Run (Bytes × Producer)) (g : Producer → Run Producer)
      → ((s : Producer) → after_chunks x (some failure) (f s) ≡ g s)
      → after_chunks x (some failure) (after_line r f) ≡ and_then r g
  unfolding after_chunks
  after_line-cut_off (running s) f g h = h s
  after_line-cut_off (thrown e s) f g h = refl

  end-cut_off :
      (rest : Bytes) (s : Producer) → after_chunks x (some failure) (running (rest, s)) ≡ cut_off s
  unfolding after_chunks
  end-cut_off rest s = refl

  and_then_assoc :
      (r : Run Producer) (f g : Producer → Run Producer)
      → and_then r (λ s. and_then (f s) g) ≡ and_then (and_then r f) g
  and_then_assoc (running s) f g = refl
  and_then_assoc (thrown e s) f g = refl

  -- A walk with its complete lines.
  abbrev Reads : Bytes → Bytes → Producer → Type 0
  Reads now bs s =
      after_chunks x (some failure) (walk x now bs s)
      ≡ and_then (run_lines x (complete_lines now bs) s) cut_off

  full-Reads : (now bs : Bytes) (s : Producer) → s.limit_reached ≡ true → Reads now bs s
  full-Reads now bs s h =
      ap (after_chunks x (some failure)) (walk-limit x now bs s h)
      ∙ end-cut_off (now ++ bs) s
      ∙ ap (λ r. and_then r cut_off) (sym (run_lines_full x (complete_lines now bs) s h))

  end-Reads : (now : Bytes) (s : Producer) → Reads now [] s
  end-Reads now s =
      ap (after_chunks x (some failure)) (walk_end x now s)
      ∙ end-cut_off now s
      ∙ ap (λ r. and_then r cut_off) (sym nothing)
    where
      nothing : run_lines x (complete_lines now []) s ≡ running s
      nothing = unfold complete_lines run_lines in refl

  walk-Reads : (now bs : Bytes) (s : Producer) → Reads now bs s
  walk-Reads now [] s = end-Reads now s
  walk-Reads now (c ∷ cs) s = elim (Bool-cases s.limit_reached) [
    | inl full ↦ full-Reads now (c ∷ cs) s full
    | inr room ↦ elim (Bool-cases (c == b'\n')) [
      | inl ends ↦
          ap (after_chunks x (some failure)) (walk_newline x now cs c s ends room)
          ∙ after_line-cut_off (parse_line x now s) _ _ (λ s'. walk-Reads [] cs s')
          ∙ and_then_assoc (parse_line x now s) (run_lines x (complete_lines [] cs)) cut_off
          ∙ ap (λ r. and_then r cut_off)
              (sym (run_lines_open x now (complete_lines [] cs) s room)
                ∙ ap (λ lines. run_lines x lines s) (sym (ended ends)))
      | inr other ↦
          ap (after_chunks x (some failure)) (walk_other x now cs c s other)
          ∙ walk-Reads (now ++ c ∷ []) cs s
          ∙ ap (λ lines. and_then (run_lines x lines s) cut_off) (sym (longer other))
    ]
  ]
    where
      ended : (c == b'\n') ≡ true → complete_lines now (c ∷ cs) ≡ now ∷ complete_lines [] cs
      ended e = unfold complete_lines in if_true _ _ e

      longer :
          (c == b'\n') ≡ false → complete_lines now (c ∷ cs) ≡ complete_lines (now ++ c ∷ []) cs
      longer e = unfold complete_lines in if_false _ _ e

  -- If a response breaks off with an exception, its complete lines parse, the scan is neither
  -- cancelled nor interrupted, and the cap is off or not below the number of their events, then
  -- the producer ends with that exception, behind the rows of those events, in order. What
  -- follows the last newline is dropped.
  pub run_export-cut_off :
      (chunks : List Bytes) (es : List Json)
      → Undisturbed x
      → events_of x (complete_lines [] (flatten chunks)) ≡ ok es
      → HasRoomFor x 0 (length es)
      → (s : Producer) × (run_export x chunks (some failure) ≡ thrown failure s)
        × (s.rows ≡ map (λ e. map_event x.platform e x.column_ids) es)
  run_export-cut_off chunks es u h room =
      let pushed = on_events-Pushed x es idle u refl room in
      (
        on_events x es idle,
        run_export-walk x chunks (some failure)
            ∙ walk-Reads [] (flatten chunks) idle
            ∙ ap (λ r. and_then r cut_off)
                (run_lines-on_events x (complete_lines [] (flatten chunks)) idle es h)
            ∙ if_false _ _ pushed.still_open,
        pushed.pushed,
      )
