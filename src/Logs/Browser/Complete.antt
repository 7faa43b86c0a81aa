-- ===== src/Logs/Browser/Complete.antt =====
-- All calls of the browser scan together.
use duckdb_splunk.Prelude.{
  ℕ, zero, suc, ◌<◌, ◌≡◌, refl, ap, ap₂, ◌∙◌, sym, inl, inr, ◌⊎◌, true, false, Option, none, some,
  List, [], ◌∷◌, ◌++◌, Bytes, map, length, length-append, take, drop, take-append-drop, arith,
  append_assoc, if_true, if_false,
}
use duckdb_splunk.External.{Json}
use duckdb_splunk.Errors.{Result, ok, ◌>>=◌}
use duckdb_splunk.Logs.Row.{map_event}
use duckdb_splunk.Logs.Stream.{Export}
use duckdb_splunk.Logs.Stream.Room.{
  events_of, capped, row_of, room, room_nil, room_idle, events_of-nil,
}
use duckdb_splunk.Logs.Stream.Lines.{lines_from}
use duckdb_splunk.Logs.Stream.Whole.{lines_from_end}
use duckdb_splunk.Logs.Scan.{Row, no_rows}
use duckdb_splunk.Logs.Browser.{
  BrowserScan, Filling, unfetched, fetch_browser_response, drain_buffer, fill_lines, browser_scan,
  browser_scans,
}
use duckdb_splunk.Logs.Browser.Scans.{owed, promised, EventsAre, IsOrdered, Leaves}
use duckdb_splunk.Logs.Browser.Filled.{fill_lines-Leaves}

length-take : (n : ℕ) (rows : List Row) → length (take n rows) < n → drop n rows ≡ []
length-take zero rows h = absurd (omega arith)
length-take (suc n) [] h = refl
length-take (suc n) (row ∷ rows) h = length-take n rows (omega arith)

pub List-cases :
    (rows : List Row) → (rows ≡ []) ⊎ ((row : Row) × (rest : List Row) × (rows ≡ row ∷ rest))
List-cases [] = inl refl
List-cases (row ∷ rows) = inr (row, rows, refl)

length-map {ℓ κ} :
    {A : Type ℓ} {B : Type κ} (f : A → B) (xs : List A) → length (map f xs) ≡ length xs
length-map f [] = refl
length-map f (x ∷ xs) = ap suc (length-map f xs)

module _ (x : Export) (vector_size : ℕ) (positive : 0 < vector_size) where
  drain_buffer-IsOrdered :
      (s : BrowserScan) → IsOrdered x vector_size (drain_buffer x vector_size s)
  unfolding drain_buffer
  drain_buffer-IsOrdered s = length-take vector_size s.buffer

  drain_buffer-promised :
      (s : BrowserScan) (es : List Json)
      → promised x (drain_buffer x vector_size s) es ≡ owed x s es
  unfolding drain_buffer
  drain_buffer-promised s es =
      sym (append_assoc (take vector_size s.buffer) (drop vector_size s.buffer) _)
      ∙ ap (λ b. b ++ map (row_of x) (room x false s.produced es))
          (take-append-drop vector_size s.buffer)

  -- One call on a fetched response.
  record Puts (s : BrowserScan) (es : List Json) (g : Filling) : Type 0 where
    pub later : List Json
    pub rest_events : EventsAre x g.scan later
    pub splits : promised x g later ≡ owed x s es
    pub empty_last : g.vector ≡ [] → owed x g.scan later ≡ []
    pub fetched : g.scan.fetched ≡ true

  nothing_owed :
      (s : BrowserScan) (later : List Json) → s.buffer ≡ [] → later ≡ [] → owed x s later ≡ []
  nothing_owed s later b e =
      ap₂ (λ rows es. rows ++ map (row_of x) (room x false s.produced es)) b e
      ∙ ap (map (row_of x)) (room_nil x false s.produced)

  no_events : (s : BrowserScan) (later : List Json) → EventsAre x s later → s.rest ≡ [] → later ≡ []
  no_events s later e r =
      events_of-nil x later (ap (events_of x) (sym (ap (lines_from []) r ∙ lines_from_end [])) ∙ e)

  Leaves-Puts :
      (s : BrowserScan) (es : List Json) (g : Filling)
      → s.fetched ≡ true
      → Leaves x vector_size (drain_buffer x vector_size s) es g
      → Puts s es g
  Leaves-Puts s es g f l = record {
    later = l.later;
    rest_events = l.rest_events;
    splits = l.keeps ∙ drain_buffer-promised s es;
    empty_last = λ v.
        let short : length g.vector < vector_size = omega (arith, ap (length {A = Row}) v) in
        nothing_owed g.scan l.later (l.ordered short)
          (no_events g.scan l.later l.rest_events (l.used_up short));
    fetched = l.stays_fetched ∙ unfold drain_buffer in f;
  }

  pub browser_scan_fetched :
      (response : Result Bytes) (s : BrowserScan)
      → s.fetched ≡ true
      → browser_scan x vector_size response s
        ≡ fill_lines x vector_size (suc (length s.rest)) (drain_buffer x vector_size s)
  unfolding browser_scan
  browser_scan_fetched response s f =
      ap
        (λ r. r >>= λ s'.
          fill_lines x vector_size (suc (length s'.rest)) (drain_buffer x vector_size s'))
        (if_true _ _ f)

  browser_scan-Puts :
      (response : Result Bytes) (s : BrowserScan) (es : List Json)
      → s.fetched ≡ true
      → EventsAre x s es
      → (g : Filling) × (browser_scan x vector_size response s ≡ ok g) × Puts s es g
  unfolding drain_buffer
  browser_scan-Puts response s es f e =
      let (g, run, leaves) =
        fill_lines-Leaves x vector_size (suc (length s.rest)) (drain_buffer x vector_size s) es
          (omega arith) e (drain_buffer-IsOrdered s) in
      (g, browser_scan_fetched response s f ∙ run, Leaves-Puts s es g f leaves)

  last_call :
      (calls : ℕ) (response : Result Bytes) (s : BrowserScan) (g : Filling)
      → browser_scan x vector_size response s ≡ ok g
      → g.vector ≡ []
      → browser_scans x vector_size (suc calls) response s ≡ some (ok [])
  unfolding browser_scans
  last_call calls response s g e v = rw (e, browser_scans) (if_true _ _ (ap no_rows v))

  pub more_calls :
      (calls : ℕ) (response : Result Bytes) (s : BrowserScan) (g : Filling) (row : Row)
      (rows : List Row) (later : Result (List Row))
      → browser_scan x vector_size response s ≡ ok g
      → g.vector ≡ row ∷ rows
      → browser_scans x vector_size calls response g.scan ≡ some later
      → browser_scans x vector_size (suc calls) response s
        ≡ some (later >>= λ rest. ok (g.vector ++ rest))
  unfolding browser_scans
  more_calls calls response s g row rows later e v l =
      rw (e, browser_scans)
        (if_false _ _ (ap no_rows v)
          ∙ ap
              (λ (o : Option (Result (List Row))). elim o [
                | none ↦ none
                | some r ↦ some (r >>= λ rows. ok (g.vector ++ rows))
              ])
              l)

  empty_total :
      (s : BrowserScan) (es : List Json) (g : Filling)
      → Puts s es g
      → g.vector ≡ []
      → [] ≡ owed x s es
  empty_total s es g p v = sym (ap₂ ◌++◌ v (p.empty_last v)) ∙ p.splits

  -- Enough calls put out all that a fetched scan owes.
  scans_fetched :
      (calls : ℕ) (response : Result Bytes) (s : BrowserScan) (es : List Json)
      → s.fetched ≡ true
      → EventsAre x s es
      → length (owed x s es) < calls
      → browser_scans x vector_size calls response s ≡ some (ok (owed x s es))
  scans_fetched zero response s es f e w = absurd (omega arith)
  scans_fetched (suc calls) response s es f e w =
      let (g, run, p) = browser_scan-Puts response s es f e in
      elim (List-cases g.vector) [
        | inl empty ↦
            last_call calls response s g run empty
            ∙ ap (λ rows. some (ok rows)) (empty_total s es g p empty)
        | inr (row, rows, full) ↦
            let total = ap (length {A = Row}) p.splits in
            let fewer : length (owed x g.scan p.later) < calls =
              omega (
                arith,
                length-append g.vector (owed x g.scan p.later),
                ap (length {A = Row}) full,
              ) in
            more_calls calls response s g row rows (ok (owed x g.scan p.later)) run full
              (scans_fetched calls response g.scan p.later p.fetched p.rest_events fewer)
            ∙ ap (λ rows. some (ok rows)) p.splits
      ]

  -- The state once the response is there.
  abbrev pub fetched_text : Bytes → BrowserScan
  fetched_text text = record unfetched { rest = text; fetched = true }

  pub first_call :
      (calls : ℕ) (text : Bytes)
      → browser_scans x vector_size (suc calls) (ok text) unfetched
        ≡ browser_scans x vector_size (suc calls) (ok text) (fetched_text text)
  unfolding browser_scans browser_scan fetch_browser_response
  first_call calls text = refl

  -- If a browser response is fetched and all its lines parse, and the vectors hold a row at
  -- least, then calling the scan until it puts out no row ends after at most one call more than
  -- there are rows, and the vectors together are the rows of the events of all lines, in order,
  -- the first `cap` of them if there is a cap: the rows that the native build puts out.
  pub browser_scans-rows :
      (calls : ℕ) (text : Bytes) (es : List Json)
      → events_of x (lines_from [] text) ≡ ok es
      → length (capped x es) < calls
      → browser_scans x vector_size calls (ok text) unfetched
        ≡ some (ok (map (λ e. map_event x.platform e x.column_ids) (capped x es)))
  browser_scans-rows zero text es e w = absurd (omega arith)
  browser_scans-rows (suc calls) text es e w =
      first_call calls text
      ∙ scans_fetched (suc calls) (ok text) (fetched_text text) es refl e
          (omega (arith, ap (length {A = Row}) rows, length-map (row_of x) (capped x es)))
      ∙ ap (λ rows. some (ok rows)) rows
    where
      rows : owed x (fetched_text text) es ≡ map (row_of x) (capped x es)
      rows = ap (map (row_of x)) (room_idle x es)
