-- ===== src/Logs/Stream/Whole.antt =====
-- The export as a whole: the lines of the response, one after another.
use duckdb_splunk.Prelude.{
  ℕ, ◌++◌, ◌≡◌, refl, ap, ◌∙◌, sym, inl, inr, true, false, none, List, [], ◌∷◌, Bytes, flatten,
  ◌==◌, arith, Bool-cases, if_true, if_false,
}
use duckdb_splunk.Errors.{Run, running, thrown, and_then}
use duckdb_splunk.Logs.Stream.{
  Producer, Export, idle, after_line, parse_line, flush, after_chunks, run_export,
}
use duckdb_splunk.Logs.Stream.Lines.{lines_from, last_line, walk, run_lines, walk-limit}
use duckdb_splunk.Logs.Stream.Chunks.{run_export-walk, walk_newline, walk_other}

pub lines_from_newline :
    (now cs : Bytes) (c : ℕ)
    → (c == b'\n') ≡ true
    → lines_from now (c ∷ cs) ≡ now ∷ lines_from [] cs
unfolding lines_from
lines_from_newline now cs c h = if_true _ _ h

pub lines_from_other :
    (now cs : Bytes) (c : ℕ)
    → (c == b'\n') ≡ false
    → lines_from now (c ∷ cs) ≡ lines_from (now ++ c ∷ []) cs
unfolding lines_from
lines_from_other now cs c h = if_false _ _ h

pub lines_from_end : (now : Bytes) → lines_from now [] ≡ last_line now
unfolding lines_from
lines_from_end now = refl

module _ (x : Export) where
  and_then-running : (r : Run Producer) → r ≡ and_then r (λ s. running s)
  and_then-running (running s) = refl
  and_then-running (thrown e s) = refl

  pub run_lines_full :
      (lines : List Bytes) (s : Producer) → s.limit_reached ≡ true → run_lines x lines s ≡ running s
  unfolding run_lines
  run_lines_full [] s h = refl
  run_lines_full (line ∷ lines) s h = if_true _ _ h

  pub run_lines_open :
      (line : Bytes) (lines : List Bytes) (s : Producer)
      → s.limit_reached ≡ false
      → run_lines x (line ∷ lines) s ≡ and_then (parse_line x line s) (run_lines x lines)
  unfolding run_lines
  run_lines_open line lines s h = if_false _ _ h

  after_chunks_full-running :
      (now : Bytes) (s : Producer)
      → s.limit_reached ≡ true
      → after_chunks x none (running (now, s)) ≡ running s
  unfolding after_chunks flush
  after_chunks_full-running now s h = ground arith

  last-run_lines :
      (now : Bytes) (s : Producer)
      → s.limit_reached ≡ false
      → after_chunks x none (running (now, s)) ≡ run_lines x (last_line now) s
  unfolding after_chunks flush run_lines
  last-run_lines [] s h = ground arith
  last-run_lines (c ∷ now) s h = ground (arith, and_then-running (parse_line x (c ∷ now) s))

  pub walk_end : (now : Bytes) (s : Producer) → walk x now [] s ≡ running (now, s)
  unfolding walk
  walk_end now s = refl

  after_line-and_then :
      (r : Run Producer) (f : Producer → Run (Bytes × Producer)) (g : Producer → Run Producer)
      → ((s : Producer) → after_chunks x none (f s) ≡ g s)
      → after_chunks x none (after_line r f) ≡ and_then r g
  unfolding after_chunks
  after_line-and_then (running s) f g h = h s
  after_line-and_then (thrown e s) f g h = refl

  pub full_walk-run_lines :
      (now bs : Bytes) (s : Producer)
      → s.limit_reached ≡ true
      → after_chunks x none (walk x now bs s) ≡ run_lines x (lines_from now bs) s
  full_walk-run_lines now bs s h =
      ap (after_chunks x none) (walk-limit x now bs s h)
      ∙ after_chunks_full-running (now ++ bs) s h
      ∙ sym (run_lines_full (lines_from now bs) s h)

  walk-run_lines :
      (now bs : Bytes) (s : Producer)
      → after_chunks x none (walk x now bs s) ≡ run_lines x (lines_from now bs) s
  walk-run_lines now [] s = elim (Bool-cases s.limit_reached) [
    | inl full ↦ full_walk-run_lines now [] s full
    | inr room ↦
        ap (after_chunks x none) (walk_end now s)
        ∙ last-run_lines now s room
        ∙ ap (λ lines. run_lines x lines s) (sym (lines_from_end now))
  ]
  walk-run_lines now (c ∷ cs) s = elim (Bool-cases s.limit_reached) [
    | inl full ↦ full_walk-run_lines now (c ∷ cs) s full
    | inr room ↦ elim (Bool-cases (c == b'\n')) [
      | inl ends ↦
          ap (after_chunks x none) (walk_newline x now cs c s ends room)
          ∙ after_line-and_then (parse_line x now s) _ _ (λ s'. walk-run_lines [] cs s')
          ∙ sym (run_lines_open now (lines_from [] cs) s room)
          ∙ ap (λ lines. run_lines x lines s) (sym (lines_from_newline now cs c ends))
      | inr other ↦
          ap (after_chunks x none) (walk_other x now cs c s other)
          ∙ walk-run_lines (now ++ c ∷ []) cs s
          ∙ ap (λ lines. run_lines x lines s) (sym (lines_from_other now cs c other))
    ]
  ]

  -- For a response that ends normally, the run over chunks is the run over the lines of all its
  -- bytes, one `parse_line` after another until the limit is reached or a line throws. The last
  -- line may lack its newline.
  pub run_export-lines :
      (chunks : List Bytes)
      → run_export x chunks none ≡ run_lines x (lines_from [] (flatten chunks)) idle
  run_export-lines chunks = run_export-walk x chunks none ∙ walk-run_lines [] (flatten chunks) idle
