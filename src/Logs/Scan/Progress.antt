-- ===== src/Logs/Scan/Progress.antt =====
-- A scan comes to its end: its steps are bounded, and no state before the end is stuck.
use duckdb_splunk.Prelude.{
  ℕ, zero, suc, ◌+◌, ◌*◌, ◌≤◌, ◌<◌, ◌≡◌, ◌≢◌, refl, ap, ap₂, ◌∙◌, sym, inl, inr, ◌⊎◌, Bool, true,
  ◌||◌, Option, none, some, List, [], ◌∷◌, ◌++◌, length, take, drop, length-append, append-nil,
  if◌then◌else◌, arith, Bool-cases, Option-cases, if_true, if_false, subst,
}
use duckdb_splunk.Errors.{Exception}
use duckdb_splunk.Logs.Scan.{
  Row, Scan, start, push_row, abort, report, finish, cancel, fill_output, Step, pushes, fails,
  finishes, scans, stops, closes, aborts,
}

abbrev pub unset : Bool → ℕ
unset b = if b then 0 else 1

abbrev pub unreported : Option Exception → ℕ
unreported none = 0
unreported (some e) = 1

-- What is left to do: two steps for a row to push, one for a row in the buffer, and one for each
-- flag and for the exception.
abbrev pub work : Scan → ℕ
work s =
    2 * length s.pending
    + length s.buffer
    + unreported s.failure
    + unset s.finished
    + unset s.cancelled
    + unset s.gave_up

-- A step that does something, and one that leaves the state as it is.
abbrev pub LowersOrKeeps : Scan → Scan → Type 0
LowersOrKeeps s t = (work t < work s) ⊎ (t ≡ s)

finish-LowersOrKeeps : (s : Scan) → LowersOrKeeps s (finish s)
unfolding finish
finish-LowersOrKeeps s = elim (Bool-cases s.finished) [
  | inl done ↦ inr (ap (λ b. record s { finished = b }) (sym done))
  | inr more ↦ inl (ground arith)
]

cancel-LowersOrKeeps : (s : Scan) → LowersOrKeeps s (cancel s)
unfolding cancel
cancel-LowersOrKeeps s = elim (Bool-cases s.cancelled) [
  | inl done ↦ inr (ap (λ b. record s { cancelled = b }) (sym done))
  | inr more ↦ inl (ground arith)
]

report-LowersOrKeeps :
    (e : Exception) (s : Scan) → s.failure ≡ some e → LowersOrKeeps s (report e s)
unfolding report
report-LowersOrKeeps e s h = inl (omega (arith, ap unreported h))

List-cases : (rows : List Row) → (rows ≡ []) ⊎ (0 < length rows)
List-cases [] = inl refl
List-cases (row ∷ rows) = inr (omega arith)

-- A producer that gave up and ended has nothing to give up.
abort_same : (s : Scan) → s.pending ≡ [] → s.failure ≡ none → s.gave_up ≡ true → abort s ≡ s
unfolding abort
abort_same s p f g =
    ap₂ (λ rows b. record s { pending = rows; failure = none; gave_up = b }) (sym p) (sym g)
    ∙ ap (λ e. record s { failure = e }) (sym f)

abort-LowersOrKeeps : (s : Scan) → LowersOrKeeps s (abort s)
abort-LowersOrKeeps s = elim (List-cases s.pending) [
  | inr rows ↦ inl (unfold abort in ground arith)
  | inl none_left ↦ elim (Bool-cases s.gave_up) [
    | inr not_yet ↦ inl (unfold abort in ground arith)
    | inl before ↦ elim (Option-cases s.failure) [
      | inl no_failure ↦ inr (abort_same s none_left no_failure before)
      | inr (e, failed) ↦ inl (unfold abort in omega (arith, ap unreported failed))
    ]
  ]
]

pub length-drop-lt :
    (n : ℕ) (rows : List Row) → 0 < n → 0 < length rows → length (drop n rows) < length rows
length-drop-lt (suc zero) (row ∷ rows) h k = omega arith
length-drop-lt (suc (suc n)) (row ∷ []) h k = omega arith
length-drop-lt (suc (suc n)) (row ∷ row' ∷ rows) h k =
    omega (arith, length-drop-lt (suc n) (row' ∷ rows))
length-drop-lt zero rows h k = absurd (omega arith)
length-drop-lt (suc n) [] h k = absurd (omega arith)

-- The last scan of all: there is nothing to take.
take_none : (n : ℕ) (rows : List Row) → rows ≡ [] → (take n rows ≡ []) × (drop n rows ≡ [])
take_none zero [] h = (refl, refl)
take_none (suc n) [] h = (refl, refl)
take_none n (row ∷ rows) h = cc

fill_output-LowersOrKeeps : (n : ℕ) (s : Scan) → 0 < n → LowersOrKeeps s (fill_output n s)
unfolding fill_output
fill_output-LowersOrKeeps n s h = elim (List-cases s.buffer) [
  | inl empty ↦
      let (taken, left) = take_none n s.buffer empty in
      inr (
        ap₂ (λ o b. record s { output = o; buffer = b })
          (ap (◌++◌ s.output) taken ∙ append-nil s.output) (left ∙ sym empty))
  | inr full ↦ inl (omega (arith, length-drop-lt n s.buffer h full))
]

push_row-LowersOrKeeps :
    (interrupted : Bool) (row : Row) (rest : List Row) (s : Scan)
    → s.pending ≡ row ∷ rest
    → LowersOrKeeps s (push_row interrupted row rest s)
unfolding push_row
push_row-LowersOrKeeps interrupted row rest s h = elim (Bool-cases (s.cancelled || interrupted)) [
  | inl stop ↦ inl (
      subst (λ t. work t < work s) (sym (if_true _ _ stop))
        (ground (arith, ap (length {A = Row}) h)))
  | inr go ↦ inl (
      subst (λ t. work t < work s) (sym (if_false _ _ go))
        (omega (arith, ap (length {A = Row}) h, length-append s.buffer (row ∷ []))))
]

pub Step-LowersOrKeeps :
    (vector_size : ℕ) {s t : Scan} → 0 < vector_size → Step vector_size s t → LowersOrKeeps s t
Step-LowersOrKeeps n {s} h (pushes interrupted row rest e may) =
    push_row-LowersOrKeeps interrupted row rest s e
Step-LowersOrKeeps n {s} h (fails e p q) = report-LowersOrKeeps e s q
Step-LowersOrKeeps n {s} h (finishes p q) = finish-LowersOrKeeps s
Step-LowersOrKeeps n {s} h (scans w e) = fill_output-LowersOrKeeps n s h
Step-LowersOrKeeps n {s} h (stops w) = cancel-LowersOrKeeps s
Step-LowersOrKeeps n {s} h closes = cancel-LowersOrKeeps s
Step-LowersOrKeeps n {s} h (aborts c) = abort-LowersOrKeeps s

-- A run whose steps all change the state, with their number.
pub data Changes (vector_size : ℕ) : ℕ → Scan → Scan → Type 0 where
  unchanged : {s : Scan} → Changes vector_size 0 s s
  change :
      {n : ℕ} {s t u : Scan}
      → Step vector_size s t
      → t ≢ s
      → Changes vector_size n t u
      → Changes vector_size (suc n) s u

pub lowers : {s t : Scan} → LowersOrKeeps s t → t ≢ s → work t < work s
lowers (inl less) c = less
lowers (inr same) c = absurd (c same)

Changes-work :
    {vector_size n : ℕ} {s t : Scan}
    → 0 < vector_size
    → Changes vector_size n s t
    → n + work t ≤ work s
Changes-work h unchanged = omega arith
Changes-work h (change st c r) =
    omega (arith, lowers (Step-LowersOrKeeps _ h st) c, Changes-work h r)

pub unreported-le : (e : Option Exception) → unreported e ≤ 1
unreported-le none = omega arith
unreported-le (some e) = omega arith

-- If a vector holds a row at least, then a scan of `n` rows takes at most `2 * n + 4` steps that
-- change its state, in any interleaving, with whatever cancellations and exceptions.
pub Changes-bounded :
    (vector_size : ℕ) (rows : List Row) (failure : Option Exception) {n : ℕ} {s : Scan}
    → 0 < vector_size
    → Changes vector_size n (start rows failure) s
    → n ≤ 2 * length rows + 4
Changes-bounded vector_size rows failure h r =
    omega (arith, Changes-work h r, unreported-le failure)
