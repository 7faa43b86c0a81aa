-- ===== src/Logs/Scan/Handover.antt =====
-- No row is lost, repeated or reordered between the threads, and the buffer stays bounded.
use duckdb_splunk.Prelude.{
  ℕ, zero, suc, ◌*◌, ◌≤◌, ◌<◌, ◌≡◌, refl, ap, ◌∙◌, sym, inl, inr, ◌⊎◌, Bool, true, false, ◌||◌,
  Option, none, some, List, [], ◌∷◌, ◌++◌, length, take, drop, take-append-drop, length-append,
  append_assoc, append-nil, arith, Bool-cases, if_true, if_false, subst,
}
use duckdb_splunk.Errors.{Exception}
use duckdb_splunk.Logs.Scan.{
  Row, Scan, start, push_row, abort, report, finish, cancel, may_push, fill_output, Step, pushes,
  fails, finishes, scans, stops, closes, aborts, Reaches, starts, steps,
}

module _ (vector_size : ℕ) (rows : List Row) (failure : Option Exception) where
  -- What holds in every state. `lost` are the rows that a producer which gives up does not push.
  pub record IsConsistent (s : Scan) : Type 0 where
    pub bounded : length s.buffer ≤ vector_size * 2
    pub lost : List Row
    pub in_order : rows ≡ s.output ++ (s.buffer ++ (s.pending ++ lost))
    pub whole : s.gave_up ≡ false → lost ≡ []
    pub ended : s.finished ≡ true → (s.pending ≡ []) × (s.failure ≡ none)
    pub failure_known :
        s.cancelled ≡ false
        → s.gave_up ≡ false
        → ((s.error ≡ none) × (s.failure ≡ failure)) ⊎ ((s.error ≡ failure) × (s.failure ≡ none))

  start-IsConsistent : IsConsistent (start rows failure)
  start-IsConsistent = record {
    bounded = omega arith;
    lost = [];
    in_order = sym (append-nil rows);
    whole = λ h. refl;
    ended = λ h. cc;
    failure_known = λ h k. inl (refl, refl);
  }

  length-drop-le : (n : ℕ) (xs : List Row) → length (drop n xs) ≤ length xs
  length-drop-le zero xs = omega arith
  length-drop-le (suc n) [] = omega arith
  length-drop-le (suc n) (x ∷ xs) = omega (arith, length-drop-le n xs)

  pushed-IsConsistent :
      (row : Row) (rest : List Row) (s : Scan)
      → IsConsistent s
      → s.pending ≡ row ∷ rest
      → length s.buffer < vector_size * 2
      → IsConsistent (record s { buffer = s.buffer ++ row ∷ []; pending = rest })
  pushed-IsConsistent row rest s h e space = record {
    bounded = omega (arith, length-append s.buffer (row ∷ []));
    lost = h.lost;
    in_order =
        h.in_order
        ∙ ap (λ p. s.output ++ (s.buffer ++ (p ++ h.lost))) e
        ∙ ap (◌++◌ s.output) (sym (append_assoc s.buffer (row ∷ []) (rest ++ h.lost)));
    whole = h.whole;
    ended = λ f. absurd (not_nil (sym e ∙ (h.ended f).0));
    failure_known = h.failure_known;
  }
    where
      not_nil : row ∷ rest ≡ [] → ⊥
      not_nil c = cc

  given_up-IsConsistent :
      (s : Scan)
      → IsConsistent s
      → IsConsistent (record s { gave_up = true; pending = []; failure = none })
  given_up-IsConsistent s h = record {
    bounded = h.bounded;
    lost = s.pending ++ h.lost;
    in_order = h.in_order;
    whole = λ c. cc;
    ended = λ f. (refl, refl);
    failure_known = λ c d. cc;
  }

  push_row-IsConsistent :
      (interrupted : Bool) (row : Row) (rest : List Row) (s : Scan)
      → IsConsistent s
      → s.pending ≡ row ∷ rest
      → may_push vector_size interrupted s ≡ true
      → IsConsistent (push_row interrupted row rest s)
  unfolding push_row may_push
  push_row-IsConsistent interrupted row rest s h e may =
      elim (Bool-cases (s.cancelled || interrupted)) [
        | inl stop ↦ subst IsConsistent (sym (if_true _ _ stop)) (given_up-IsConsistent s h)
        | inr go ↦
            subst IsConsistent (sym (if_false _ _ go))
              (pushed-IsConsistent row rest s h e (ground arith))
      ]

  report-IsConsistent :
      (e : Exception) (s : Scan)
      → IsConsistent s
      → s.pending ≡ []
      → s.failure ≡ some e
      → IsConsistent (report e s)
  unfolding report
  report-IsConsistent e s h p q = record {
    bounded = h.bounded;
    lost = h.lost;
    in_order = h.in_order;
    whole = h.whole;
    ended = λ f. (p, refl);
    failure_known = λ c d. inr (if_false _ _ c ∙ reported (h.failure_known c d), refl);
  }
    where
      reported :
          ((s.error ≡ none) × (s.failure ≡ failure)) ⊎ ((s.error ≡ failure) × (s.failure ≡ none))
          → some e ≡ failure
      reported (inl known) = sym q ∙ known.1
      reported (inr known) = absurd (let clash : none ≡ some e = sym known.1 ∙ q in cc)

  fill_output-IsConsistent : (s : Scan) → IsConsistent s → IsConsistent (fill_output vector_size s)
  unfolding fill_output
  fill_output-IsConsistent s h = record {
    bounded = omega (arith, h.bounded, length-drop-le vector_size s.buffer);
    lost = h.lost;
    in_order =
        h.in_order
        ∙ ap (λ b. s.output ++ (b ++ (s.pending ++ h.lost)))
            (sym (take-append-drop vector_size s.buffer))
        ∙ ap (◌++◌ s.output) (
            append_assoc (take vector_size s.buffer) (drop vector_size s.buffer)
              (s.pending ++ h.lost))
        ∙ sym (
            append_assoc s.output (take vector_size s.buffer)
              (drop vector_size s.buffer ++ (s.pending ++ h.lost)));
    whole = h.whole;
    ended = h.ended;
    failure_known = h.failure_known;
  }

  cancel-IsConsistent : (s : Scan) → IsConsistent s → IsConsistent (cancel s)
  unfolding cancel
  cancel-IsConsistent s h = record {
    bounded = h.bounded;
    lost = h.lost;
    in_order = h.in_order;
    whole = h.whole;
    ended = h.ended;
    failure_known = λ c d. cc;
  }

  finish-IsConsistent :
      (s : Scan) → IsConsistent s → s.pending ≡ [] → s.failure ≡ none → IsConsistent (finish s)
  unfolding finish
  finish-IsConsistent s h p q = record {
    bounded = h.bounded;
    lost = h.lost;
    in_order = h.in_order;
    whole = h.whole;
    ended = λ f. (p, q);
    failure_known = h.failure_known;
  }

  Step-IsConsistent : {s t : Scan} → Step vector_size s t → IsConsistent s → IsConsistent t
  Step-IsConsistent {s} (pushes interrupted row rest e may) h =
      push_row-IsConsistent interrupted row rest s h e may
  Step-IsConsistent {s} (fails e p q) h = report-IsConsistent e s h p q
  Step-IsConsistent {s} (finishes p q) h = finish-IsConsistent s h p q
  Step-IsConsistent {s} (scans w e) h = fill_output-IsConsistent s h
  Step-IsConsistent {s} (stops w) h = cancel-IsConsistent s h
  Step-IsConsistent {s} closes h = cancel-IsConsistent s h
  Step-IsConsistent {s} (aborts c) h = unfold abort in given_up-IsConsistent s h

  -- In every state that a scan can come to, by any interleaving: the buffer holds two vectors
  -- of rows at most; the rows put out, then those in the buffer, then those to push, then those
  -- that a producer which gave up does not push, are all rows in order; nothing is given up
  -- unless the producer gave up; a finished producer has nothing left to push or to report; and
  -- while nobody cancelled or gave up, the producer's exception is either still to come or is
  -- the error of the scan.
  pub Reaches-IsConsistent : {s : Scan} → Reaches vector_size rows failure s → IsConsistent s
  Reaches-IsConsistent starts = start-IsConsistent
  Reaches-IsConsistent (steps r t) = Step-IsConsistent t (Reaches-IsConsistent r)

  -- A scan that has come to a finished producer and an empty buffer, and was neither cancelled
  -- nor given up, has put out all rows of the producer in order, and its error is the exception
  -- that ended the producer, if there was one.
  pub Reaches-complete :
      {s : Scan}
      → Reaches vector_size rows failure s
      → s.finished ≡ true
      → s.cancelled ≡ false
      → s.gave_up ≡ false
      → s.buffer ≡ []
      → (s.output ≡ rows) × (s.error ≡ failure)
  Reaches-complete {s} r f c l b =
      let h = Reaches-IsConsistent r in
      let (p, q) = h.ended f in
      (
        sym (
            h.in_order
            ∙ ap (λ u. s.output ++ (u ++ (s.pending ++ h.lost))) b
            ∙ ap (λ u. s.output ++ (u ++ h.lost)) p
            ∙ ap (◌++◌ s.output) (h.whole l)
            ∙ append-nil s.output),
        known (h.failure_known c l) q,
      )
    where
      known :
          ((s.error ≡ none) × (s.failure ≡ failure)) ⊎ ((s.error ≡ failure) × (s.failure ≡ none))
          → s.failure ≡ none
          → s.error ≡ failure
      known (inl k) q = k.0 ∙ sym q ∙ k.1
      known (inr k) q = k.0
