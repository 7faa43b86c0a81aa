-- ===== src/Logs/Scan/Completion.antt =====
-- A scan that nobody gives up can always be brought to its end.
use duckdb_splunk.Prelude.{
  ℕ, zero, suc, ◌<◌, ◌≡◌, ◌≢◌, refl, ap, ◌∙◌, sym, inl, inr, ◌⊎◌, true, false, Option, none, some,
  List, [], ◌∷◌, length, length-append, arith, Bool-cases, Option-cases,
}
use duckdb_splunk.Errors.{Exception}
use duckdb_splunk.Logs.Scan.{
  Row, Scan, push_row, report, finish, must_wait, may_push, fill_output, Step, pushes, fails,
  finishes, scans, Reaches, steps,
}
use duckdb_splunk.Logs.Scan.Handover.{Reaches-IsConsistent, Reaches-complete}
use duckdb_splunk.Logs.Scan.Progress.{work, unreported, length-drop-lt}

-- A run from one state to another.
pub data Leads (vector_size : ℕ) (s : Scan) : Scan → Type 0 where
  here : Leads vector_size s s
  onward : {t u : Scan} → Leads vector_size s t → Step vector_size t u → Leads vector_size s u

-- The scan has an exception to throw, or has put out what the producer pushed.
abbrev pub HasEnded : Scan → Type 0
HasEnded s = (s.error ≢ none) ⊎ ((s.finished ≡ true) × (s.buffer ≡ []))

abbrev NobodyGaveUp : Scan → Type 0
NobodyGaveUp s = (s.cancelled ≡ false) × (s.gave_up ≡ false)

-- A step that does something and gives nothing up.
abbrev HasStep : ℕ → Scan → Type 0
HasStep vector_size s = (t : Scan) × Step vector_size s t × (work t < work s) × NobodyGaveUp t

pub List-cases :
    (rows : List Row) → (rows ≡ []) ⊎ ((row : Row) × (rest : List Row) × (rows ≡ row ∷ rest))
List-cases [] = inl refl
List-cases (row ∷ rest) = inr (row, rest, refl)

module _ (vector_size : ℕ) (positive : 0 < vector_size) where
  scan_step :
      (s : Scan) (row : Row) (rest : List Row)
      → NobodyGaveUp s
      → s.error ≡ none
      → s.buffer ≡ row ∷ rest
      → HasStep vector_size s
  unfolding must_wait fill_output
  scan_step s row rest c e b = (
    fill_output vector_size s,
    scans (rw b refl) e,
    omega (arith, ap (length {A = Row}) b, length-drop-lt vector_size s.buffer),
    c,
  )

  push_step :
      (s : Scan) (row : Row) (rest : List Row)
      → NobodyGaveUp s
      → s.buffer ≡ []
      → s.pending ≡ row ∷ rest
      → HasStep vector_size s
  unfolding push_row may_push
  push_step s row rest c b p = (
    push_row false row rest s,
    pushes false row rest p (ground (arith, ap (length {A = Row}) b)),
    ground (arith, ap (length {A = Row}) p, length-append s.buffer (row ∷ [])),
    (ground arith, ground arith),
  )

  report_step :
      (s : Scan) (e : Exception)
      → NobodyGaveUp s
      → s.pending ≡ []
      → s.failure ≡ some e
      → HasStep vector_size s
  unfolding report
  report_step s e c p f = (report e s, fails e p f, omega (arith, ap unreported f), c)

  finish_step :
      (s : Scan)
      → NobodyGaveUp s
      → s.pending ≡ []
      → s.failure ≡ none
      → s.finished ≡ false
      → HasStep vector_size s
  unfolding finish
  finish_step s c p f g = (finish s, finishes p f, ground arith, c)

  -- Before the end some step does something.
  has_step : (s : Scan) → NobodyGaveUp s → HasEnded s ⊎ HasStep vector_size s
  has_step s c = elim (Option-cases s.error) [
    | inr (e, failed) ↦
        inl (inl (λ none_yet. let clash : none ≡ some e = sym none_yet ∙ failed in cc))
    | inl no_error_yet ↦ elim (List-cases s.buffer) [
      | inr (row, rest, full) ↦ inr (scan_step s row rest c no_error_yet full)
      | inl empty ↦ elim (List-cases s.pending) [
        | inr (row, rest, more) ↦ inr (push_step s row rest c empty more)
        | inl pushed ↦ elim (Option-cases s.failure) [
          | inr (e, failing) ↦ inr (report_step s e c pushed failing)
          | inl no_failure ↦ elim (Bool-cases s.finished) [
            | inl done ↦ inl (inr (done, empty))
            | inr open_end ↦ inr (finish_step s c pushed no_failure open_end)
          ]
        ]
      ]
    ]
  ]

  Leads-trans :
      {s t u : Scan} → Step vector_size s t → Leads vector_size t u → Leads vector_size s u
  Leads-trans st here = onward here st
  Leads-trans st (onward l st') = onward (Leads-trans st l) st'

  -- So the end is reached within as many steps as there is work.
  can_end :
      (fuel : ℕ) (s : Scan)
      → NobodyGaveUp s
      → work s < fuel
      → (t : Scan) × Leads vector_size s t × HasEnded t × NobodyGaveUp t
  can_end zero s c w = absurd (omega arith)
  can_end (suc fuel) s c w = elim (has_step s c) [
    | inl ended ↦ (s, here, ended, c)
    | inr (t, st, less, c') ↦
        let (u, l, ended, c'') = can_end fuel t c' (omega arith) in
        (u, Leads-trans st l, ended, c'')
  ]

  module _ (rows : List Row) (failure : Option Exception) where
    pub Reaches-Leads :
        {s t : Scan}
        → Reaches vector_size rows failure s
        → Leads vector_size s t
        → Reaches vector_size rows failure t
    Reaches-Leads r here = r
    Reaches-Leads r (onward l st) = steps (Reaches-Leads r l) st

    -- What an end means: the exception of the producer, or all rows.
    ended-Delivers :
        {t : Scan}
        → Reaches vector_size rows failure t
        → HasEnded t
        → NobodyGaveUp t
        → (t.error ≡ failure) × ((failure ≢ none) ⊎ (t.output ≡ rows))
    ended-Delivers {t} r (inl failed) c =
        let known = (Reaches-IsConsistent vector_size rows failure r).failure_known c.0 c.1 in
        elim known [
          | inl (quiet, later) ↦ absurd (failed quiet)
          | inr (reported, none_left) ↦ (reported, inl (λ e. failed (reported ∙ e)))
        ]
    ended-Delivers {t} r (inr (done, empty)) c =
        let (output, error) = Reaches-complete vector_size rows failure r done c.0 c.1 empty in
        (error, inr output)

    -- From every state that a scan can come to without a cancellation or giving up, some
    -- steps of the two threads lead to an end: the error of the scan is then the exception
    -- that ends the producer, if there is one, and where there is none all rows of the
    -- producer are put out, in order.
    pub Reaches-completes :
        {s : Scan}
        → Reaches vector_size rows failure s
        → s.cancelled ≡ false
        → s.gave_up ≡ false
        → (t : Scan) × Leads vector_size s t
          × HasEnded t
          × (t.error ≡ failure)
          × ((failure ≢ none) ⊎ (t.output ≡ rows))
    Reaches-completes {s} r c g =
        let (t, l, ended, quiet) = can_end (suc (work s)) s (c, g) (omega arith) in
        let (error, output) = ended-Delivers (Reaches-Leads r l) ended quiet in
        (t, l, ended, error, output)
