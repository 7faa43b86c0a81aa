-- ===== src/Logs/Scan/Join.antt =====
-- src/logs_table.cpp, the thread of StartExport: the steps of the producer, and how it goes on
-- behind a cancellation.
use duckdb_splunk.Prelude.{
  ℕ, ◌≤◌, ◌<◌, ◌≡◌, ◌≢◌, refl, ap, ◌∙◌, sym, inl, inr, ◌⊎◌, Bool, true, false, Option, none, some,
  List, [], ◌∷◌, arith, Bool-cases, Option-cases,
}
use duckdb_splunk.Errors.{Exception}
use duckdb_splunk.Logs.Scan.{
  Row, Scan, start, push_row, abort, report, finish, may_push, Step, pushes, fails, finishes,
  aborts, Reaches, starts, steps,
}
use duckdb_splunk.Logs.Scan.Progress.{work, LowersOrKeeps, Step-LowersOrKeeps}
use duckdb_splunk.Logs.Scan.Completion.{List-cases}

-- The steps of the producer thread.
pub data Produces (vector_size : ℕ) (s : Scan) : Scan → Type 0 where
  pushing :
      (interrupted : Bool) (row : Row) (rest : List Row)
      → s.pending ≡ row ∷ rest
      → may_push vector_size interrupted s ≡ true
      → Produces vector_size s (push_row interrupted row rest s)
  failing :
      (e : Exception) → s.pending ≡ [] → s.failure ≡ some e → Produces vector_size s (report e s)
  finishing : s.pending ≡ [] → s.failure ≡ none → Produces vector_size s (finish s)
  aborting : s.cancelled ≡ true → Produces vector_size s (abort s)

-- A step that does not rest on the transfer being stopped.
abbrev pub DoesNotAbort : {vector_size : ℕ} {s t : Scan} → Produces vector_size s t → Type 0
DoesNotAbort (pushing interrupted row rest p m) = Unit {0}
DoesNotAbort (failing e p f) = Unit {0}
DoesNotAbort (finishing p f) = Unit {0}
DoesNotAbort (aborting c) = ⊥

-- A further step of the producer, which changes the state and is no `abort`.
abbrev pub CanProceed : ℕ → Scan → Type 0
CanProceed vector_size s = (t : Scan) × (p : Produces vector_size s t) × DoesNotAbort p × (t ≢ s)

module _ (vector_size : ℕ) where
  pub Produces-Step : {s t : Scan} → Produces vector_size s t → Step vector_size s t
  Produces-Step (pushing interrupted row rest p m) = pushes interrupted row rest p m
  Produces-Step (failing e p f) = fails e p f
  Produces-Step (finishing p f) = finishes p f
  Produces-Step (aborting c) = aborts c

  push_row-cancelled :
      (interrupted : Bool) (row : Row) (rest : List Row) (s : Scan)
      → (push_row interrupted row rest s).cancelled ≡ s.cancelled
  unfolding push_row
  push_row-cancelled interrupted row rest s = ground arith

  -- The producer does not take a cancellation back.
  pub Produces-cancelled : {s t : Scan} → Produces vector_size s t → t.cancelled ≡ s.cancelled
  Produces-cancelled {s} (pushing interrupted row rest p m) =
      push_row-cancelled interrupted row rest s
  Produces-cancelled {s} (failing e p f) = unfold report in refl
  Produces-cancelled {s} (finishing p f) = unfold finish in refl
  Produces-cancelled {s} (aborting c) = unfold abort in refl

  pub cancelled_may_push : (s : Scan) → s.cancelled ≡ true → may_push vector_size false s ≡ true
  unfolding may_push
  cancelled_may_push s c = rw c refl

  push_pending :
      (row : Row) (rest : List Row) (s : Scan)
      → s.cancelled ≡ true
      → (push_row false row rest s).pending ≡ []
  unfolding push_row
  push_pending row rest s c = ground arith

  finish_step :
      (s : Scan) → s.pending ≡ [] → s.failure ≡ none → s.finished ≡ false → CanProceed vector_size s
  unfolding finish
  finish_step s p f g =
      (finish s, finishing p f, tt, λ e. let clash : true ≡ s.finished = ap Scan.finished e in cc)

  -- The row that a cancelled producer has next is given up, with all others.
  give_up_step :
      (s : Scan) (row : Row) (rest : List Row)
      → s.cancelled ≡ true
      → s.pending ≡ row ∷ rest
      → CanProceed vector_size s
  give_up_step s row rest c p = (
    push_row false row rest s,
    pushing false row rest p (cancelled_may_push s c),
    tt,
    λ e.
        let clash : [] ≡ row ∷ rest = sym (push_pending row rest s c) ∙ ap Scan.pending e ∙ p in cc,
  )

  fail_step :
      (s : Scan) (failed : Exception)
      → s.pending ≡ []
      → s.failure ≡ some failed
      → CanProceed vector_size s
  unfolding report
  fail_step s failed p f = (
    report failed s,
    failing failed p f,
    tt,
    λ e. let clash : none ≡ some failed = ap Scan.failure e ∙ f in cc,
  )

  -- Behind a cancellation a producer that is awake and has not ended can go on by itself.
  pub can_proceed : (s : Scan) → s.cancelled ≡ true → (s.finished ≡ true) ⊎ CanProceed vector_size s
  can_proceed s c = elim (Bool-cases s.finished) [
    | inl done ↦ inl done
    | inr more ↦ elim (List-cases s.pending) [
      | inr (row, rest, p) ↦ inr (give_up_step s row rest c p)
      | inl p ↦ elim (Option-cases s.failure) [
        | inr (failed, f) ↦ inr (fail_step s failed p f)
        | inl f ↦ inr (finish_step s p f more)
      ]
    ]
  ]

  module _ (positive : 0 < vector_size) where
    no_more_work : {s t : Scan} → LowersOrKeeps s t → work t ≤ work s
    no_more_work (inl less) = omega arith
    no_more_work (inr same) = omega (arith, ap work same)

    pub Reaches-work :
        (rows : List Row) (failure : Option Exception) {s : Scan}
        → Reaches vector_size rows failure s
        → work s ≤ work (start rows failure)
    Reaches-work rows failure starts = omega arith
    Reaches-work rows failure (steps r st) = omega (
      arith,
      Reaches-work rows failure r,
      no_more_work (Step-LowersOrKeeps vector_size positive st),
    )
