-- ===== src/Logs/Stream/Chunks.antt =====
-- How the response is cut into chunks makes no difference.
use duckdb_splunk.Prelude.{
  ℕ, ◌≡◌, refl, sym, ap, ◌∙◌, ◌⊎◌, inl, inr, true, false, Option, none, some, List, [], ◌∷◌, ◌++◌,
  Bytes, flatten, ◌==◌, if◌then◌else◌, arith, Bool-cases, append_assoc, fun_ext, if_true, if_false,
  Option-cases, subst,
}
use duckdb_splunk.Errors.{Exception, Run, running, thrown, and_then}
use duckdb_splunk.Logs.Stream.{
  Producer, Export, idle, find_newline, after_line, parse_line, on_chunk, on_chunks, flush,
  after_chunks, run_export,
}
use duckdb_splunk.Logs.Stream.Lines.{walk, to_newline, walk-limit, walk-find_newline, drain-walk}

module _ (x : Export) where
  and_then-after_line :
      (r : Run Producer) (f : Producer → Run (Bytes × Producer))
      (k : Bytes × Producer → Run (Bytes × Producer))
      → and_then (after_line r f) k ≡ after_line r (λ s. and_then (f s) k)
  and_then-after_line (running s) f k = refl
  and_then-after_line (thrown e s) f k = refl

  -- Goes on with more bytes.
  abbrev go_on : Bytes → Bytes × Producer → Run (Bytes × Producer)
  go_on ys state = walk x state.0 ys state.1

  walk-append_full :
      (now xs ys : Bytes) (s : Producer)
      → s.limit_reached ≡ true
      → walk x now (xs ++ ys) s ≡ and_then (walk x now xs s) (go_on ys)
  walk-append_full now xs ys s h =
      walk-limit x now (xs ++ ys) s h
      ∙ ap (λ t. running (t, s)) (sym (append_assoc now xs ys))
      ∙ sym (walk-limit x (now ++ xs) ys s h)
      ∙ ap (λ r. and_then r (go_on ys)) (sym (walk-limit x now xs s h))

  pub walk_newline :
      (now cs : Bytes) (c : ℕ) (s : Producer)
      → (c == b'\n') ≡ true
      → s.limit_reached ≡ false
      → walk x now (c ∷ cs) s ≡ after_line (parse_line x now s) (λ s'. walk x [] cs s')
  unfolding walk
  walk_newline now cs c s h o = if_true _ _ h ∙ if_false _ _ o

  pub walk_other :
      (now cs : Bytes) (c : ℕ) (s : Producer)
      → (c == b'\n') ≡ false
      → walk x now (c ∷ cs) s ≡ walk x (now ++ c ∷ []) cs s
  unfolding walk
  walk_other now cs c s h = if_false _ _ h

  walk-append :
      (now xs ys : Bytes) (s : Producer)
      → walk x now (xs ++ ys) s ≡ and_then (walk x now xs s) (go_on ys)
  walk-append now [] ys s = nothing
    where
      nothing : walk x now ys s ≡ and_then (walk x now [] s) (go_on ys)
      nothing = unfold walk in refl
  walk-append now (c ∷ xs) ys s = elim (Bool-cases s.limit_reached) [
    | inl full ↦ walk-append_full now (c ∷ xs) ys s full
    | inr room ↦ elim (Bool-cases (c == b'\n')) [
      | inl ends ↦
          walk_newline now (xs ++ ys) c s ends room
          ∙ ap (after_line (parse_line x now s)) (fun_ext (λ s'. walk-append [] xs ys s'))
          ∙ sym (and_then-after_line (parse_line x now s) (λ s'. walk x [] xs s') (go_on ys))
          ∙ ap (λ r. and_then r (go_on ys)) (sym (walk_newline now xs c s ends room))
      | inr other ↦
          walk_other now (xs ++ ys) c s other
          ∙ walk-append (now ++ c ∷ []) xs ys s
          ∙ ap (λ r. and_then r (go_on ys)) (sym (walk_other now xs c s other))
    ]
  ]

  -- Between two chunks `pending` holds no newline, unless the limit was reached.
  abbrev IsPending : Bytes × Producer → Type 0
  IsPending (pending, s) = (s.limit_reached ≡ true) ⊎ (find_newline pending ≡ none)

  abbrev EndsPending : Run (Bytes × Producer) → Type 0
  EndsPending (running state) = IsPending state
  EndsPending (thrown e state) = Unit

  EndsPending-after_line :
      (r : Run Producer) (f : Producer → Run (Bytes × Producer))
      → ((s : Producer) → EndsPending (f s))
      → EndsPending (after_line r f)
  EndsPending-after_line (running s) f h = h s
  EndsPending-after_line (thrown e s) f h = tt

  find_newline-concat :
      (now : Bytes) (c : ℕ)
      → find_newline now ≡ none
      → (c == b'\n') ≡ false
      → find_newline (now ++ c ∷ []) ≡ none
  unfolding find_newline
  find_newline-concat [] c h k = ground arith
  find_newline-concat (d ∷ now) c h k = elim (Option-cases (find_newline now)) [
    | inl nothing ↦ ground (arith, find_newline-concat now c nothing k)
    | inr (found, e) ↦ ground arith
  ]

  walk-EndsPending :
      (now bs : Bytes) (s : Producer) → find_newline now ≡ none → EndsPending (walk x now bs s)
  walk-EndsPending now [] s h = inr_pending
    where
      inr_pending : EndsPending (walk x now [] s)
      inr_pending = unfold walk in inr h
  walk-EndsPending now (c ∷ cs) s h = elim (Bool-cases s.limit_reached) [
    | inl full ↦ subst EndsPending (sym (walk-limit x now (c ∷ cs) s full)) (inl full)
    | inr room ↦ elim (Bool-cases (c == b'\n')) [
      | inl ends ↦ subst EndsPending (sym (walk_newline now cs c s ends room)) (
          EndsPending-after_line (parse_line x now s) _
            (λ s'. walk-EndsPending [] cs s' none_in_nil))
      | inr other ↦
          subst EndsPending (sym (walk_other now cs c s other))
            (walk-EndsPending (now ++ c ∷ []) cs s (find_newline-concat now c h other))
    ]
  ]
    where
      none_in_nil : find_newline [] ≡ none
      none_in_nil = unfold find_newline in refl

  walk_pending :
      (pending : Bytes) (s : Producer)
      → IsPending (pending, s)
      → walk x [] pending s ≡ running (pending, s)
  walk_pending pending s (inl full) = walk-limit x [] pending s full
  walk_pending pending s (inr whole) = elim (Bool-cases s.limit_reached) [
    | inl full ↦ walk-limit x [] pending s full
    | inr room ↦ walk-find_newline x [] pending s room ∙ ap (λ o. to_newline x [] o pending s) whole
  ]

  on_chunk-walk :
      (chunk pending : Bytes) (s : Producer)
      → IsPending (pending, s)
      → on_chunk x chunk (pending, s) ≡ walk x pending chunk s
  unfolding on_chunk
  on_chunk-walk chunk pending s h =
      drain-walk x _ (pending ++ chunk) s (omega arith)
      ∙ walk-append [] pending chunk s
      ∙ ap (λ r. and_then r (go_on chunk)) (walk_pending pending s h)

  -- A chunk that finds or sets the limit ends the export.
  after_chunks_full :
      (failure : Option Exception) (p q : Bytes) (s : Producer)
      → s.limit_reached ≡ true
      → after_chunks x failure (running (p, s)) ≡ after_chunks x failure (running (q, s))
  unfolding after_chunks flush
  after_chunks_full none p q s h = ground arith
  after_chunks_full (some e) p q s h = refl

  -- What `ExportSearch` does with the callback's answer.
  abbrev next_chunks : List Bytes → Bytes × Producer → Run (Bytes × Producer)
  next_chunks chunks state =
      if state.1.limit_reached then running state else on_chunks x chunks state

  on_chunks_step :
      (failure : Option Exception) (chunks : List Bytes) (r : Run (Bytes × Producer))
      → EndsPending r
      → ((state : Bytes × Producer)
          → IsPending state
          → after_chunks x failure (on_chunks x chunks state)
            ≡ after_chunks x failure (go_on (flatten chunks) state))
      → after_chunks x failure (and_then r (next_chunks chunks))
        ≡ after_chunks x failure (and_then r (go_on (flatten chunks)))
  on_chunks_step failure chunks (thrown e state) h ih = refl
  on_chunks_step failure chunks (running (p, s)) h ih = elim (Bool-cases s.limit_reached) [
    | inl full ↦
        ap (after_chunks x failure) (if_true _ _ full)
        ∙ after_chunks_full failure p (p ++ flatten chunks) s full
        ∙ ap (after_chunks x failure) (sym (walk-limit x p (flatten chunks) s full))
    | inr room ↦ ap (after_chunks x failure) (if_false _ _ room) ∙ ih (p, s) h
  ]

  pending_walk-EndsPending :
      (pending chunk : Bytes) (s : Producer)
      → IsPending (pending, s)
      → EndsPending (walk x pending chunk s)
  pending_walk-EndsPending pending chunk s (inl full) =
      subst EndsPending (sym (walk-limit x pending chunk s full)) (inl full)
  pending_walk-EndsPending pending chunk s (inr whole) = walk-EndsPending pending chunk s whole

  on_chunks-cons :
      (chunk : Bytes) (chunks : List Bytes) (state : Bytes × Producer)
      → on_chunks x (chunk ∷ chunks) state ≡ and_then (on_chunk x chunk state) (next_chunks chunks)
  unfolding on_chunks
  on_chunks-cons chunk chunks state = refl

  on_chunks-nil : (state : Bytes × Producer) → on_chunks x [] state ≡ walk x state.0 [] state.1
  unfolding on_chunks walk
  on_chunks-nil state = refl

  on_chunks-walk :
      (failure : Option Exception) (chunks : List Bytes) (state : Bytes × Producer)
      → IsPending state
      → after_chunks x failure (on_chunks x chunks state)
        ≡ after_chunks x failure (go_on (flatten chunks) state)
  on_chunks-walk failure [] state h = ap (after_chunks x failure) (on_chunks-nil state)
  on_chunks-walk failure (chunk ∷ chunks) (pending, s) h =
      ap (after_chunks x failure) (
        on_chunks-cons chunk chunks (pending, s)
        ∙ ap (λ r. and_then r (next_chunks chunks)) (on_chunk-walk chunk pending s h))
      ∙ on_chunks_step failure chunks (walk x pending chunk s)
          (pending_walk-EndsPending pending chunk s h) (on_chunks-walk failure chunks)
      ∙ ap (after_chunks x failure) (sym (walk-append pending chunk (flatten chunks) s))

  pub run_export-walk :
      (chunks : List Bytes) (failure : Option Exception)
      → run_export x chunks failure ≡ after_chunks x failure (walk x [] (flatten chunks) idle)
  unfolding run_export
  run_export-walk chunks failure = on_chunks-walk failure chunks ([], idle) (inr none_in_nil)
    where
      none_in_nil : find_newline [] ≡ none
      none_in_nil = unfold find_newline in refl

  -- Two lists of chunks with the same bytes give the same run: the same rows, counters and
  -- exception. This holds whatever ends the response, an exception of the transfer included,
  -- and for lines that throw and scans that are given up.
  pub run_export-chunking :
      (chunks chunks' : List Bytes) (failure : Option Exception)
      → flatten chunks ≡ flatten chunks'
      → run_export x chunks failure ≡ run_export x chunks' failure
  run_export-chunking chunks chunks' failure e =
      run_export-walk chunks failure
      ∙ ap (λ bytes. after_chunks x failure (walk x [] bytes idle)) e
      ∙ sym (run_export-walk chunks' failure)
