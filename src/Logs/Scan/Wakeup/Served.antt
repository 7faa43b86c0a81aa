-- ===== src/Logs/Scan/Wakeup/Served.antt =====
-- A producer that sleeps is served by the next call of the scan: no wakeup is lost.
use duckdb_splunk.Prelude.{
  ℕ, ◌*◌, ◌≤◌, ◌<◌, ◌≡◌, refl, ◌∙◌, sym, Bool, true, false, not, ◌&&◌, Option, none, List, [], ◌∷◌,
  length, arith, ◌⊎◌, inl, inr, Bool-cases,
}
use duckdb_splunk.Errors.{Exception}
use duckdb_splunk.Logs.Scan.{
  Row, Scan, push_row, cancel, must_wait, may_push, buffer_capacity, fill_output, no_rows, no_error,
  report, finish, abort, Step, pushes, fails, finishes, scans, stops, closes, aborts, Reaches,
  starts, steps,
}
use duckdb_splunk.Logs.Scan.Handover.{Reaches-IsConsistent}
use duckdb_splunk.Logs.Scan.Progress.{length-drop-lt}
use duckdb_splunk.Logs.Scan.Join.{Produces-Step}
use duckdb_splunk.Logs.Scan.Wakeup.{
  Consumes, scanning, stopping, closing, notifies_space, Watched, Watches, producing, sleeping,
  waking, consuming, notified, Arises, arises_first, arises,
}

module _ (vector_size : ℕ) where
  Consumes-Step : {s t : Scan} → Consumes vector_size s t → Step vector_size s t
  Consumes-Step (scanning w e) = scans w e
  Consumes-Step (stopping w) = stops w
  Consumes-Step closing = closes

  -- The sleep of the producer hides no step of the two threads, and adds none.
  pub Arises-Reaches :
      {rows : List Row} {failure : Option Exception} {w : Watched}
      → Arises vector_size rows failure w
      → Reaches vector_size rows failure w.scan
  Arises-Reaches arises_first = starts
  Arises-Reaches (arises a (producing o p)) = steps (Arises-Reaches a) (Produces-Step vector_size p)
  Arises-Reaches (arises a (sleeping row rest o p m)) = Arises-Reaches a
  Arises-Reaches (arises a waking) = Arises-Reaches a
  Arises-Reaches (arises a (consuming n c)) = steps (Arises-Reaches a) (Consumes-Step c)
  Arises-Reaches (arises a (notified n)) = Arises-Reaches a

  -- A producer that has reported an exception has nothing to push.
  abbrev ReportsLast : Scan → Type 0
  ReportsLast s = (s.error ≡ none) ⊎ (s.pending ≡ [])

  push_row-error :
      (interrupted : Bool) (row : Row) (rest : List Row) (s : Scan)
      → (push_row interrupted row rest s).error ≡ s.error
  unfolding push_row
  push_row-error interrupted row rest s = ground arith

  Step-ReportsLast : {s t : Scan} → Step vector_size s t → ReportsLast s → ReportsLast t
  Step-ReportsLast {s} (pushes interrupted row rest p m) (inl quiet) =
      inl (push_row-error interrupted row rest s ∙ quiet)
  Step-ReportsLast {s} (pushes interrupted row rest p m) (inr nothing) =
      absurd (let clash : [] ≡ row ∷ rest = sym nothing ∙ p in cc)
  Step-ReportsLast {s} (fails e p f) h = unfold report in inr p
  Step-ReportsLast {s} (finishes p f) h = unfold finish in h
  Step-ReportsLast {s} (scans w e) h = unfold fill_output in h
  Step-ReportsLast {s} (stops w) h = unfold cancel in h
  Step-ReportsLast {s} closes h = unfold cancel in h
  Step-ReportsLast {s} (aborts c) h = unfold abort in inr refl

  Reaches-ReportsLast :
      {rows : List Row} {failure : Option Exception} {s : Scan}
      → Reaches vector_size rows failure s
      → ReportsLast s
  Reaches-ReportsLast starts = inl refl
  Reaches-ReportsLast (steps r st) = Step-ReportsLast st (Reaches-ReportsLast r)

  -- A sleeping producer has a row and no space for it.
  pub record IsBlocked (s : Scan) : Type 0 where
    pub row : Row
    pub rest : List Row
    pub unpushed : s.pending ≡ row ∷ rest
    pub no_space : may_push vector_size false s ≡ false

  -- A sleeping producer is blocked, unless a notification is on its way.
  abbrev pub IsWatched : Watched → Type 0
  IsWatched w = (w.asleep ≡ false) ⊎ ((w.notifying ≡ true) ⊎ IsBlocked w.scan)

  -- DuckDB's thread notifies the producer whenever it does anything.
  Consumes-notifies : {s t : Scan} (c : Consumes vector_size s t) → notifies_space c ≡ true
  unfolding notifies_space
  Consumes-notifies (scanning w e) = refl
  Consumes-notifies (stopping w) = refl
  Consumes-notifies closing = refl

  Watches-IsWatched : {w v : Watched} → Watches vector_size w v → IsWatched v
  Watches-IsWatched (producing o p) = inl refl
  Watches-IsWatched (sleeping row rest o p m) =
      inr (inr (record { row = row; rest = rest; unpushed = p; no_space = m }))
  Watches-IsWatched waking = inl refl
  Watches-IsWatched (consuming n c) = inr (inl (Consumes-notifies c))
  Watches-IsWatched (notified n) = inl refl

  pub Arises-IsWatched :
      {rows : List Row} {failure : Option Exception} {w : Watched}
      → Arises vector_size rows failure w
      → IsWatched w
  Arises-IsWatched arises_first = inl refl
  Arises-IsWatched (arises a st) = Watches-IsWatched st

  full_buffer :
      (s : Scan)
      → may_push vector_size false s ≡ false
      → (s.cancelled ≡ false) × (buffer_capacity vector_size ≤ length s.buffer)
  unfolding may_push
  full_buffer s h = ground arith

  full_must_wait : (s : Scan) → 0 < length s.buffer → must_wait s ≡ false
  unfolding must_wait
  full_must_wait s h = some_rows s.buffer h
    where
      some_rows :
          (rows : List Row)
          → 0 < length rows
          → no_rows rows && (not s.finished && no_error s.error) ≡ false
      some_rows [] k = absurd (omega arith)
      some_rows (row ∷ rows) k = refl

  -- A call of the scan makes space.
  scanned-may_push :
      (s : Scan)
      → 0 < vector_size
      → length s.buffer ≤ vector_size * 2
      → 0 < length s.buffer
      → may_push vector_size false (fill_output vector_size s) ≡ true
  unfolding may_push fill_output
  scanned-may_push s positive bounded some_rows =
      ground (arith, length-drop-lt vector_size s.buffer)

  -- What a sleep of the producer says, with no notification on its way: the buffer is full and
  -- nobody gave up, so the scan need not wait and has no exception; and the notification behind
  -- its call wakes the producer, which then finds space.
  pub record IsServed (w : Watched) : Type 0 where
    pub uncancelled : w.scan.cancelled ≡ false
    pub full : buffer_capacity vector_size ≤ length w.scan.buffer
    pub no_exception : w.scan.error ≡ none
    pub ready : must_wait w.scan ≡ false
    pub called : Watched
    pub call : Watches vector_size w called
    pub next : Watched
    pub notification : Watches vector_size called next
    pub next_lem : next.scan ≡ fill_output vector_size w.scan
    pub awake : next.asleep ≡ false
    pub space : may_push vector_size false next.scan ≡ true

  blocked-IsServed :
      (rows : List Row) (failure : Option Exception) (w : Watched)
      → 0 < vector_size
      → Reaches vector_size rows failure w.scan
      → w.notifying ≡ false
      → IsBlocked w.scan
      → IsServed w
  blocked-IsServed rows failure w positive reached idle blocked =
      let (uncancelled, full) = full_buffer w.scan blocked.no_space in
      let ready = full_must_wait w.scan (omega arith) in
      let quiet : w.scan.error ≡ none = elim (Reaches-ReportsLast reached) [
        | inl quiet ↦ quiet
        | inr nothing ↦
            absurd
              (let clash : [] ≡ blocked.row ∷ blocked.rest = sym nothing ∙ blocked.unpushed in cc)
      ] in
      let call : Consumes vector_size w.scan (fill_output vector_size w.scan) =
        scanning ready quiet in
      record {
        uncancelled = uncancelled;
        full = full;
        no_exception = quiet;
        ready = ready;
        called = record {
          scan = fill_output vector_size w.scan;
          asleep = w.asleep;
          notifying = notifies_space call;
        };
        call = consuming idle call;
        next = record { scan = fill_output vector_size w.scan; asleep = false; notifying = false };
        notification = notified (Consumes-notifies call);
        next_lem = refl;
        awake = refl;
        space =
            scanned-may_push w.scan positive
              (Reaches-IsConsistent vector_size rows failure reached).bounded (omega arith);
      }

  -- If a vector holds a row at least, then in every state that the two threads can come to in
  -- which the producer sleeps in its wait for space, a notification is on its way, or the scan
  -- is not cancelled, the buffer is full, there is no exception, the scan need not wait, and
  -- the notification behind its call wakes the producer, which then finds space: no wakeup is
  -- lost, and the two threads never wait for each other.
  pub Arises-IsServed :
      (rows : List Row) (failure : Option Exception) {w : Watched}
      → 0 < vector_size
      → Arises vector_size rows failure w
      → w.asleep ≡ true
      → (w.notifying ≡ true) ⊎ IsServed w
  Arises-IsServed rows failure {w} positive a sleeps = elim (Bool-cases w.notifying) [
    | inl coming ↦ inl coming
    | inr idle ↦ elim (Arises-IsWatched a) [
      | inl awake ↦ absurd (let clash : true ≡ false = sym sleeps ∙ awake in cc)
      | inr (inl coming) ↦ inl coming
      | inr (inr blocked) ↦
          inr (blocked-IsServed rows failure w positive (Arises-Reaches a) idle blocked)
    ]
  ]
