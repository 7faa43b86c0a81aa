-- ===== src/Logs/Stream/Lines.antt =====
-- A byte-at-a-time reading of the stream, and the loop over `find('\n')` against it.
use duckdb_splunk.Prelude.{
  ℕ, zero, suc, ◌<◌, ◌≡◌, refl, sym, ap, ◌∙◌, inl, inr, true, false, Option, none, some, [], ◌∷◌,
  ◌++◌, Bytes, length, ◌==◌, if◌then◌else◌, arith, Bool-cases, Option-cases, if_true, if_false,
  append-nil, append_assoc, fun_ext, List,
}
use duckdb_splunk.Errors.{Run, running, and_then}
use duckdb_splunk.Logs.Stream.{Producer, Export, find_newline, after_line, parse_line, drain}

-- The lines of a text whose first bytes `now` are read: newlines end lines, and the last line
-- may lack its newline.
abbrev pub last_line : Bytes → List Bytes
last_line [] = []
last_line (c ∷ s) = (c ∷ s) ∷ []

unfoldable pub lines_from : Bytes → Bytes → List Bytes
lines_from now [] = last_line now
lines_from now (c ∷ s) =
    let ended = now ∷ lines_from [] s in
    let longer = lines_from (now ++ c ∷ []) s in if c == b'\n' then ended else longer

module _ (x : Export) where
  -- The stream, byte by byte; `now` is the line so far.
  unfoldable pub walk : Bytes → Bytes → Producer → Run (Bytes × Producer)
  walk now [] s = running (now, s)
  walk now (c ∷ cs) s =
      let parsed = after_line (parse_line x now s) (λ s'. walk [] cs s') in
      let longer = walk (now ++ c ∷ []) cs s in
      if c == b'\n'
      then (if s.limit_reached then running (now ++ c ∷ cs, s) else parsed)
      else longer

  -- Lines one after another, until the limit.
  unfoldable pub run_lines : List Bytes → Producer → Run Producer
  run_lines [] s = running s
  run_lines (line ∷ lines) s =
      let parsed = and_then (parse_line x line s) (λ s'. run_lines lines s') in
      if s.limit_reached then running s else parsed

  pub walk-limit :
      (now bs : Bytes) (s : Producer)
      → s.limit_reached ≡ true
      → walk now bs s ≡ running (now ++ bs, s)
  unfolding walk
  walk-limit now [] s h = ap (λ t. running (t, s)) (sym (append-nil now))
  walk-limit now (c ∷ cs) s h =
      ground (arith, walk-limit (now ++ c ∷ []) cs s h, append_assoc now (c ∷ []) cs)

  -- The step from one newline to the next.
  abbrev pub to_newline : Bytes → Option (Bytes × Bytes) → Bytes → Producer → Run (Bytes × Producer)
  to_newline now none bs s = running (now ++ bs, s)
  to_newline now (some (line, after)) bs s =
      after_line (parse_line x (now ++ line) s) (λ s'. walk [] after s')

  to_newline-shift :
      (now : Bytes) (c : ℕ) (cs : Bytes) (s : Producer) (o : Option (Bytes × Bytes))
      → to_newline (now ++ c ∷ []) o cs s
        ≡ to_newline now
            (elim o [ none ↦ none | some (line, after) ↦ some (c ∷ line, after) ])
            (c ∷ cs)
            s
  to_newline-shift now c cs s none = rw (append_assoc now (c ∷ []) cs)
  to_newline-shift now c cs s (some (line, after)) = rw (append_assoc now (c ∷ []) line)

  pub walk-find_newline :
      (now bs : Bytes) (s : Producer)
      → s.limit_reached ≡ false
      → walk now bs s ≡ to_newline now (find_newline bs) bs s
  unfolding walk find_newline
  walk-find_newline now [] s h = ap (λ t. running (t, s)) (sym (append-nil now))
  walk-find_newline now (c ∷ cs) s h =
      let ih = walk-find_newline (now ++ c ∷ []) cs s h in
      elim (Bool-cases (c == b'\n')) [
        | inl ends ↦ rw (ends, append-nil now) (if_false _ _ h)
        | inr goes_on ↦ rw goes_on (ih ∙ to_newline-shift now c cs s (find_newline cs))
      ]

  find_newline-length :
      (bs line after : Bytes) → find_newline bs ≡ some (line, after) → length after < length bs
  unfolding find_newline
  find_newline-length [] line after e = cc
  find_newline-length (c ∷ cs) line after e = elim (Bool-cases (c == b'\n')) [
    | inl ends ↦ ground arith
    | inr goes_on ↦ elim (Option-cases (find_newline cs)) [
      | inl nothing ↦ ground arith
      | inr (found, h) ↦ ground (arith, find_newline-length cs found.0 found.1 h)
    ]
  ]

  drain_full :
      (fuel : ℕ) (rest : Bytes) (s : Producer)
      → s.limit_reached ≡ true
      → drain x (suc fuel) rest s ≡ running (rest, s)
  unfolding drain
  drain_full fuel rest s h = if_true _ _ h

  -- What the loop does with the next newline, or without one.
  abbrev at_newline : ℕ → Option (Bytes × Bytes) → Bytes → Producer → Run (Bytes × Producer)
  at_newline fuel none rest s = running (rest, s)
  at_newline fuel (some (line, after)) rest s =
      after_line (parse_line x line s) (λ s'. drain x fuel after s')

  drain_open :
      (fuel : ℕ) (rest : Bytes) (s : Producer)
      → s.limit_reached ≡ false
      → drain x (suc fuel) rest s ≡ at_newline fuel (find_newline rest) rest s
  unfolding drain
  drain_open fuel rest s h = if_false _ _ h ∙ cases (find_newline rest)
    where
      cases :
          (o : Option (Bytes × Bytes))
          → elim o [
            | none ↦ running (rest, s)
            | some (line, after) ↦ after_line (parse_line x line s) (λ s'. drain x fuel after s')
          ]
            ≡ at_newline fuel o rest s
      cases none = refl
      cases (some (line, after)) = refl

  -- With more fuel than bytes, the loop reads the stream.
  pub drain-walk :
      (fuel : ℕ) (rest : Bytes) (s : Producer)
      → length rest < fuel
      → drain x fuel rest s ≡ walk [] rest s
  drain-walk zero rest s h = absurd (omega arith)
  drain-walk (suc fuel) rest s h = elim (Bool-cases s.limit_reached) [
    | inl full ↦ drain_full fuel rest s full ∙ sym (walk-limit [] rest s full)
    | inr open_end ↦
        drain_open fuel rest s open_end
        ∙ step (find_newline rest) refl (drain-walk fuel)
        ∙ sym (walk-find_newline [] rest s open_end)
  ]
    where
      step :
          (o : Option (Bytes × Bytes))
          → find_newline rest ≡ o
          → ((after : Bytes) (s' : Producer)
              → length after < fuel
              → drain x fuel after s' ≡ walk [] after s')
          → at_newline fuel o rest s ≡ to_newline [] o rest s
      step none e ih = refl
      step (some (line, after)) e ih =
          ap (after_line (parse_line x line s))
            (fun_ext (λ s'. ih after s' (omega (arith, find_newline-length rest line after e))))
