-- ===== src/Logs/Scan/Wakeup/Joined.antt =====
-- src/logs_table.cpp, ~SplunkLogsGlobalState: the producer ends behind a cancellation, from its
-- wait for space too, with no further call of the scan.
use duckdb_splunk.Prelude.{
  ℕ, suc, ◌+◌, ◌*◌, ◌≤◌, ◌<◌, ◌≡◌, ◌≢◌, ap, ◌∙◌, sym, inl, inr, ◌⊎◌, Bool, true, false, Option,
  List, length, arith, Bool-cases,
}
use duckdb_splunk.Errors.{Exception}
use duckdb_splunk.Logs.Scan.{Row, Scan, may_push}
use duckdb_splunk.Logs.Scan.Progress.{work, Step-LowersOrKeeps, unreported-le}
use duckdb_splunk.Logs.Scan.Join.{
  DoesNotAbort, Produces-Step, Produces-cancelled, cancelled_may_push, can_proceed, Reaches-work,
}
use duckdb_splunk.Logs.Scan.Wakeup.{
  Watched, Watches, producing, sleeping, waking, consuming, notified, Arises, arises,
}
use duckdb_splunk.Logs.Scan.Wakeup.Served.{IsWatched, Arises-IsWatched, Arises-Reaches}

-- A step other than a call of the scan or its destructor.
abbrev pub WithoutCall : {vector_size : ℕ} {w v : Watched} → Watches vector_size w v → Type 0
WithoutCall (producing o p) = Unit {0}
WithoutCall (sleeping row rest o p m) = Unit {0}
WithoutCall waking = Unit {0}
WithoutCall (consuming n c) = ⊥
WithoutCall (notified n) = Unit {0}

-- A step that neither the server, nor the scan, nor chance has to make possible: the notification
-- on its way, or a step of a producer that is awake, other than that of a stopped transfer.
abbrev pub IsCertain : {vector_size : ℕ} {w v : Watched} → Watches vector_size w v → Type 0
IsCertain (producing o p) = DoesNotAbort p
IsCertain (sleeping row rest o p m) = ⊥
IsCertain waking = ⊥
IsCertain (consuming n c) = ⊥
IsCertain (notified n) = Unit {0}

-- A run without calls, whose steps all change the state, with their number.
pub data Drains (vector_size : ℕ) : ℕ → Watched → Watched → Type 0 where
  still : {w : Watched} → Drains vector_size 0 w w
  drains :
      {n : ℕ} {w v u : Watched}
      → (st : Watches vector_size w v) → WithoutCall st
      → v ≢ w
      → Drains vector_size n v u
      → Drains vector_size (suc n) w u

abbrev pub CanGoOn : ℕ → Watched → Type 0
CanGoOn vector_size w = (v : Watched) × (st : Watches vector_size w v) × IsCertain st × (v ≢ w)

abbrev flag : Bool → ℕ
flag true = 1
flag false = 0

-- What is left to do, with the wakes.
abbrev weight : Watched → ℕ
weight w = work w.scan + flag w.asleep + flag w.notifying

flag-le : (b : Bool) → flag b ≤ 1
flag-le true = omega arith
flag-le false = omega arith

module _ (vector_size : ℕ) where
  -- A cancelled producer does not go to sleep.
  sleepless : (s : Scan) → s.cancelled ≡ true → may_push vector_size false s ≡ false → ⊥
  sleepless s c m = let clash : true ≡ false = sym (cancelled_may_push vector_size s c) ∙ m in cc

  Watches-cancelled :
      {w v : Watched} (st : Watches vector_size w v)
      → WithoutCall st
      → w.scan.cancelled ≡ true
      → v.scan.cancelled ≡ true
  Watches-cancelled (producing o p) h c = Produces-cancelled vector_size p ∙ c
  Watches-cancelled (sleeping row rest o p m) h c = c
  Watches-cancelled waking h c = c
  Watches-cancelled (consuming n k) h c = absurd h
  Watches-cancelled (notified n) h c = c

  same_awake :
      (w : Watched)
      → w.asleep ≡ false
      → record { scan = w.scan; asleep = false; notifying = w.notifying } ≡ w
  same_awake w o = ap (λ b. record { scan = w.scan; asleep = b; notifying = w.notifying }) (sym o)

  same_scan :
      (w : Watched) (t : Scan)
      → t ≡ w.scan
      → w.asleep ≡ false
      → record { scan = t; asleep = false; notifying = w.notifying } ≡ w
  same_scan w t e o =
      ap (λ s. record { scan = s; asleep = false; notifying = w.notifying }) e ∙ same_awake w o

  wake-lowers :
      (w : Watched)
      → record { scan = w.scan; asleep = false; notifying = w.notifying } ≢ w
      → work w.scan + 0 + flag w.notifying < weight w
  wake-lowers w ne = elim (Bool-cases w.asleep) [
    | inl sleeps ↦ omega (arith, ap flag sleeps)
    | inr o ↦ absurd (ne (same_awake w o))
  ]

  module _ (positive : 0 < vector_size) where
    Watches-lowers :
        {w v : Watched} (st : Watches vector_size w v)
        → WithoutCall st
        → w.scan.cancelled ≡ true
        → v ≢ w
        → weight v < weight w
    Watches-lowers {w} (producing {t = t} o p) h c ne =
        elim (Step-LowersOrKeeps vector_size positive (Produces-Step vector_size p)) [
          | inl less ↦ omega arith
          | inr same ↦ absurd (ne (same_scan w t same o))
        ]
    Watches-lowers {w} (sleeping row rest o p m) h c ne = absurd (sleepless w.scan c m)
    Watches-lowers {w} waking h c ne = wake-lowers w ne
    Watches-lowers (consuming n k) h c ne = absurd h
    Watches-lowers (notified n) h c ne = omega (arith, ap flag n)

    Drains-weight :
        {n : ℕ} {w u : Watched}
        → w.scan.cancelled ≡ true
        → Drains vector_size n w u
        → n + weight u ≤ weight w
    Drains-weight c still = omega arith
    Drains-weight c (drains st h ne d) =
        omega (arith, Watches-lowers st h c ne, Drains-weight (Watches-cancelled st h c) d)

  Drains-cancelled :
      {n : ℕ} {w u : Watched}
      → Drains vector_size n w u
      → w.scan.cancelled ≡ true
      → u.scan.cancelled ≡ true
  Drains-cancelled still c = c
  Drains-cancelled (drains st h ne d) c = Drains-cancelled d (Watches-cancelled st h c)

  Drains-Arises :
      {rows : List Row} {failure : Option Exception} {n : ℕ} {w u : Watched}
      → Arises vector_size rows failure w
      → Drains vector_size n w u
      → Arises vector_size rows failure u
  Drains-Arises a still = a
  Drains-Arises a (drains st h ne d) = Drains-Arises (arises a st) d

  wake_up : (w : Watched) → w.notifying ≡ true → CanGoOn vector_size w
  wake_up w n =
      (_, notified n, tt, λ e. let clash : false ≡ true = ap Watched.notifying e ∙ n in cc)

  go_on :
      (w : Watched)
      → w.asleep ≡ false
      → w.scan.cancelled ≡ true
      → (w.scan.finished ≡ true) ⊎ CanGoOn vector_size w
  go_on w o c = elim (can_proceed vector_size w.scan c) [
    | inl done ↦ inl done
    | inr (t, p, own, ne) ↦ inr (_, producing o p, own, λ e. ne (ap Watched.scan e))
  ]

  can_go_on :
      (w : Watched)
      → IsWatched vector_size w
      → w.scan.cancelled ≡ true
      → (w.scan.finished ≡ true) ⊎ CanGoOn vector_size w
  can_go_on w (inl o) c = go_on w o c
  can_go_on w (inr (inl n)) c = inr (wake_up w n)
  can_go_on w (inr (inr blocked)) c = absurd (sleepless w.scan c blocked.no_space)

  -- If a vector holds a row at least, then from every state that the two threads can come to in
  -- which the scan is cancelled, with the producer awake or asleep in its wait for space, every
  -- run of steps that change the state, without a further call of the scan, has at most `2 * n
  -- + 6` steps, for a scan of `n` rows; and behind any number of them the producer has
  -- finished, or the notification that wakes it is on its way, or it is awake and can take its
  -- next row, end in its exception or finish. The last does not rest on the transfer being
  -- stopped, nor on space in the buffer. That the transfer gives the producer its next row or
  -- ends is not part of it.
  pub Drains-joins :
      (rows : List Row) (failure : Option Exception) {n : ℕ} {w u : Watched}
      → 0 < vector_size
      → Arises vector_size rows failure w
      → w.scan.cancelled ≡ true
      → Drains vector_size n w u
      → (n ≤ 2 * length rows + 6) × ((u.scan.finished ≡ true) ⊎ CanGoOn vector_size u)
  Drains-joins rows failure {w = w} {u = u} positive a c d = (
    omega (
      arith,
      Drains-weight positive c d,
      Reaches-work vector_size positive rows failure (Arises-Reaches vector_size a),
      unreported-le failure,
      flag-le w.asleep,
      flag-le w.notifying,
    ),
    can_go_on u (Arises-IsWatched vector_size (Drains-Arises a d)) (Drains-cancelled d c),
  )
