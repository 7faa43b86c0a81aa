-- ===== src/Logs/Browser/Fails.antt =====
-- All calls of the browser scan, on a response with a line that reports a failed search.
use duckdb_splunk.Prelude.{
  ℕ, zero, suc, ◌+◌, ◌<◌, ◌≡◌, refl, ap, ◌∙◌, sym, inl, inr, true, some, List, [], Bytes, length,
  length-append, take, drop, take-append-drop, arith, subst,
}
use duckdb_splunk.External.{Json}
use duckdb_splunk.Errors.{Exception, Result, ok, throw}
use duckdb_splunk.Logs.Stream.{Export}
use duckdb_splunk.Logs.Stream.Lines.{lines_from}
use duckdb_splunk.Logs.Stream.Fails.{BreaksAt, HasRoomFor}
use duckdb_splunk.Logs.Scan.{Row}
use duckdb_splunk.Logs.Browser.{
  BrowserScan, Filling, unfetched, drain_buffer, browser_scan, browser_scans,
}
use duckdb_splunk.Logs.Browser.Complete.{
  browser_scan_fetched, more_calls, fetched_text, first_call, List-cases,
}
use duckdb_splunk.Logs.Browser.Takes.{held}
use duckdb_splunk.Logs.Browser.Short.{IsBreaking, EndsShort, fill_lines-EndsShort}

module _ (x : Export) (vector_size : ℕ) where
  drain_buffer-held :
      (s : BrowserScan) → held x vector_size (drain_buffer x vector_size s) ≡ length s.buffer
  unfolding drain_buffer
  drain_buffer-held s =
      sym (length-append (take vector_size s.buffer) (drop vector_size s.buffer))
      ∙ ap (length {A = Row}) (take-append-drop vector_size s.buffer)

module _ (x : Export) (vector_size : ℕ) (positive : 0 < vector_size) where
  browser_scan-EndsShort :
      (response : Result Bytes) (e : Exception) (s : BrowserScan) (es : List Json)
      → s.fetched ≡ true
      → IsBreaking x vector_size e s es
      → EndsShort x vector_size e
          (drain_buffer x vector_size s)
          es
          (browser_scan x vector_size response s)
  unfolding drain_buffer
  browser_scan-EndsShort response e s es f b =
      subst (EndsShort x vector_size e (drain_buffer x vector_size s) es)
        (sym (browser_scan_fetched x vector_size positive response s f))
        (fill_lines-EndsShort x vector_size (suc (length s.rest)) e (drain_buffer x vector_size s)
          es (omega arith) (record { broken = b.broken; space = b.space }))

  throwing_call :
      (calls : ℕ) (response : Result Bytes) (s : BrowserScan) (e : Exception)
      → browser_scan x vector_size response s ≡ throw e
      → browser_scans x vector_size (suc calls) response s ≡ some (throw e)
  unfolding browser_scans
  throwing_call calls response s e h = rw (h, browser_scans) refl

  scans_fail :
      (calls : ℕ) (response : Result Bytes) (e : Exception) (s : BrowserScan) (es : List Json)
      → s.fetched ≡ true
      → IsBreaking x vector_size e s es
      → length s.buffer + length es < calls
      → browser_scans x vector_size calls response s ≡ some (throw e)
  scans_fail zero response e s es f b w = absurd (omega arith)
  scans_fail (suc calls) response e s es f b w =
      step (browser_scan x vector_size response s) refl (scans_fail calls response e)
        (browser_scan-EndsShort response e s es f b)
    where
      step :
          (r : Result Filling)
          → browser_scan x vector_size response s ≡ r
          → ((s' : BrowserScan) (es' : List Json)
              → s'.fetched ≡ true
              → IsBreaking x vector_size e s' es'
              → length s'.buffer + length es' < calls
              → browser_scans x vector_size calls response s' ≡ some (throw e))
          → EndsShort x vector_size e (drain_buffer x vector_size s) es r
          → browser_scans x vector_size (suc calls) response s ≡ some (throw e)
      step (throw e') run ih h = throwing_call calls response s e (run ∙ ap throw h)
      step (ok g) run ih h = elim (List-cases g.vector) [
        | inl empty ↦ let full = h.full in absurd (omega (arith, ap (length {A = Row}) empty))
        | inr (row, rows, more) ↦
            let kept = h.kept in
            more_calls x vector_size positive calls response s g row rows (throw e) run more (
              ih g.scan h.later (h.same_fetched ∙ unfold drain_buffer in f) h.breaking
                (omega (arith, ap (length {A = Row}) more, drain_buffer-held x vector_size s)))
      ]

  -- If a browser response is fetched, one of its lines reports a failed search behind lines that
  -- parse, the cap is off or larger than the number of their events, and the vectors hold a row
  -- at least, then calling the scan ends with the exception of that line, after at most one call
  -- more than there are events in front of it.
  pub browser_scans-throws :
      (calls : ℕ) (text : Bytes) (es : List Json) (e : Exception)
      → BreaksAt x (lines_from [] text) es e
      → HasRoomFor x 0 (suc (length es))
      → length es < calls
      → browser_scans x vector_size calls (ok text) unfetched ≡ some (throw e)
  browser_scans-throws zero text es e b h w = absurd (omega arith)
  browser_scans-throws (suc calls) text es e b h w =
      first_call x vector_size positive calls text
      ∙ scans_fail (suc calls) (ok text) e (fetched_text x vector_size positive text) es refl
          (record { broken = b; space = h }) (omega arith)
