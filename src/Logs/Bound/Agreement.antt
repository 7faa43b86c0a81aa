-- ===== src/Logs/Bound/Agreement.antt =====
-- One query in both builds, whose servers answer with the same bytes.
use duckdb_splunk.Prelude.{
  ℕ, suc, ◌<◌, ◌≡◌, refl, ap, ◌∙◌, sym, ◌⊎◌, inl, inr, Bool, true, false, Option, none, some, List,
  [], ◌∷◌, ◌++◌, Bytes, length, arith, subst,
}
use duckdb_splunk.External.{Json, StringUtil, Platform}
use duckdb_splunk.Errors.{Exception, Result, ok, throw}
use duckdb_splunk.Client.Retry.{Network}
use duckdb_splunk.Client.Transfer.{Exchange, ExportRequest, export_request}
use duckdb_splunk.Client.Transfer.Recovery.{Recovers}
use duckdb_splunk.Client.Browser.{HttpResponse, BrowserRequest}
use duckdb_splunk.Bind.{SplunkLogsBindData}
use duckdb_splunk.Logs.Export.{parse_export_line}
use duckdb_splunk.Logs.Stream.{Export}
use duckdb_splunk.Logs.Stream.Room.{events_of}
use duckdb_splunk.Logs.Stream.Lines.{lines_from}
use duckdb_splunk.Logs.Stream.Fails.{BreaksAt}
use duckdb_splunk.Logs.Scan.{Row, Scan}
use duckdb_splunk.Logs.Scan.Completion.{Leads, HasEnded}
use duckdb_splunk.Logs.Browser.{unfetched, browser_scans}
use duckdb_splunk.Logs.Bound.{
  scan_client, row_cap, export_form, scan_export, browser_response, wanted,
}
use duckdb_splunk.Logs.Bound.Native.{ReachesScan, answer, start_scan-delivers}
use duckdb_splunk.Logs.Bound.Browser.{scan_request, browser_scans-answer}
use duckdb_splunk.Logs.Bound.Failure.{start_scan-EndsWith, browser_scans-fail}

module _ (x : Export) where
  -- All lines parse, or one of them is the first that throws.
  abbrev ParsesOrBreaks : List Bytes → Type 0
  ParsesOrBreaks lines =
      ((es : List Json) × (events_of x lines ≡ ok es))
      ⊎ ((es : List Json) × (e : Exception) × BreaksAt x lines es e)

  events_of_step :
      (line : Bytes) (lines : List Bytes) (events later : List Json)
      → parse_export_line x.platform line ≡ ok events
      → events_of x lines ≡ ok later
      → events_of x (line ∷ lines) ≡ ok (events ++ later)
  unfolding events_of
  events_of_step line lines events later p q = rw p (rw q refl)

  ParsesOrBreaks-step :
      (line : Bytes) (lines : List Bytes) (r : Result (List Json))
      → parse_export_line x.platform line ≡ r
      → ParsesOrBreaks lines
      → ParsesOrBreaks (line ∷ lines)
  ParsesOrBreaks-step line lines (throw e) p h = inr (
    [],
    e,
    record {
      before = [];
      line = line;
      after = lines;
      split = refl;
      parsed = unfold events_of in refl;
      throws = p;
    },
  )
  ParsesOrBreaks-step line lines (ok events) p (inl (later, q)) =
      inl (events ++ later, events_of_step line lines events later p q)
  ParsesOrBreaks-step line lines (ok events) p (inr (later, e, b)) = inr (
    events ++ later,
    e,
    record {
      before = line ∷ b.before;
      line = b.line;
      after = b.after;
      split = ap (◌∷◌ line) b.split;
      parsed = events_of_step line b.before events later p b.parsed;
      throws = b.throws;
    },
  )

  parses_or_breaks : (lines : List Bytes) → ParsesOrBreaks lines
  parses_or_breaks [] = inl ([], unfold events_of in refl)
  parses_or_breaks (line ∷ lines) =
      ParsesOrBreaks-step line lines (parse_export_line x.platform line) refl
        (parses_or_breaks lines)

-- What DuckDB has of a native scan at its end: the exception, or the rows.
abbrev pub scan_result : Scan → Result (List Row)
scan_result t = elim t.error [ none ↦ ok t.output | some e ↦ throw e ]

scan_result-rows :
    (t : Scan) (rows : List Row) → t.error ≡ none → t.output ≡ rows → scan_result t ≡ ok rows
scan_result-rows t rows e o = rw e (ap ok o)

scan_result-error : (t : Scan) (e : Exception) → t.error ≡ some e → scan_result t ≡ throw e
scan_result-error t e h = rw h refl

module _ (su : StringUtil) (bind : SplunkLogsBindData) (platform : Platform) (column_ids : List ℕ)
    (halts : ℕ → Bool) (server : ExportRequest → Network Exchange) (to_base64 : Bytes → Bytes)
    (http : BrowserRequest → Option HttpResponse) (vector_size : ℕ)
    (positive : 0 < vector_size) where
  -- The rows of the browser build, or its exception, after so many calls.
  abbrev pub browser_result : ℕ → Option (Result (List Row))
  browser_result calls =
      browser_scans (scan_export su bind platform column_ids halts) vector_size calls
        (browser_response su bind to_base64 http false) unfetched

  -- An end of the native scan, with the result of the browser build.
  abbrev pub EndsAlike : Scan → Type 0
  EndsAlike t =
      (u : Scan) × Leads vector_size t u
      × HasEnded u
      × (calls : ℕ) × (browser_result calls ≡ some (scan_result u))

  -- The request of the scan in both builds, and its answers: the native server recovers at
  -- attempt `n`, and the browser has the same bytes at once.
  pub record SameAnswer (n : ℕ) (r : HttpResponse) : Type 0 where
    pub recovers : Recovers (scan_client bind) (server (export_request (export_form su bind))) n
    pub undisturbed : (k : ℕ) → halts k ≡ false
    pub answered : http (scan_request su bind to_base64 http) ≡ some r
    pub success : r.success ≡ true
    pub same_bytes : answer su bind platform column_ids halts server vector_size positive n ≡ r.body

  abbrev export : Export
  export = scan_export su bind platform column_ids halts

  abbrev Reached : Scan → Type 0
  Reached t =
      ReachesScan su bind platform column_ids halts server vector_size positive t
      × (t.cancelled ≡ false)
      × (t.gave_up ≡ false)

  rows-EndsAlike :
      (n : ℕ) (r : HttpResponse) (es : List Json) {t : Scan}
      → SameAnswer n r
      → events_of export (lines_from [] r.body) ≡ ok es
      → Reached t
      → EndsAlike t
  rows-EndsAlike n r es {t} a parsed (reached, c, g) =
      let (end, leads, ended, error, output) =
        start_scan-delivers su bind platform column_ids halts server vector_size positive n es
          a.recovers a.undisturbed
          (ap (λ text. events_of export (lines_from [] text)) a.same_bytes ∙ parsed) reached c g in
      let calls = suc (length (wanted bind.max_rows es)) in
      (
        end,
        leads,
        ended,
        calls,
        browser_scans-answer su bind to_base64 http platform column_ids halts vector_size calls r es
              positive a.answered a.success parsed (omega arith)
            ∙ ap some (sym (scan_result-rows end _ error output)),
      )

  error-EndsAlike :
      (n : ℕ) (r : HttpResponse) (es : List Json) (e : Exception) {t : Scan}
      → SameAnswer n r
      → BreaksAt export (lines_from [] r.body) es e
      → row_cap bind.max_rows ≡ 0
      → Reached t
      → EndsAlike t
  error-EndsAlike n r es e {t} a b no_cap (reached, c, g) =
      let ends =
        start_scan-EndsWith su bind platform column_ids halts server vector_size positive n es e
          a.recovers a.undisturbed
          (subst (λ text. BreaksAt export (lines_from [] text) es e) (sym a.same_bytes) b)
          (inl no_cap) reached c g in
      (
        ends.last,
        ends.leads,
        inl (λ none_yet. clash none_yet ends.raised),
        suc (length es),
        browser_scans-fail su bind platform column_ids halts to_base64 http vector_size
              (suc (length es)) r es e positive a.answered a.success b (inl no_cap) (omega arith)
            ∙ ap some (sym (scan_result-error ends.last e ends.raised)),
      )
    where
      clash : {o : Option Exception} → o ≡ none → o ≡ some e → ⊥
      clash p q = cc

  -- If the servers of one bound query answer both builds with the same bytes, the native one at
  -- attempt `n`, at most `retries` and at most 64, behind failures that are retried, and the
  -- browser's at once, nobody interrupts the query, a vector holds a row at least, and
  -- `max_rows` is not positive or all lines parse, then the native scan, in whatever state its
  -- two threads have come to without a cancellation or giving up, can go on to an end whose
  -- result, its rows or its exception, is what some number of calls of the browser scan gives.
  pub builds-EndsAlike :
      (n : ℕ) (r : HttpResponse) {t : Scan}
      → SameAnswer n r
      → (row_cap bind.max_rows ≡ 0)
        ⊎ ((es : List Json) × (events_of export (lines_from [] r.body) ≡ ok es))
      → ReachesScan su bind platform column_ids halts server vector_size positive t
      → t.cancelled ≡ false
      → t.gave_up ≡ false
      → EndsAlike t
  builds-EndsAlike n r a (inr (es, parsed)) reached c g =
      rows-EndsAlike n r es a parsed (reached, c, g)
  builds-EndsAlike n r a (inl no_cap) reached c g =
      elim (parses_or_breaks export (lines_from [] r.body)) [
        | inl (es, parsed) ↦ rows-EndsAlike n r es a parsed (reached, c, g)
        | inr (es, e, b) ↦ error-EndsAlike n r es e a b no_cap (reached, c, g)
      ]
