-- ===== src/Logs/Thread/Failure.antt =====
-- A scan as a whole whose search fails.
use duckdb_splunk.Prelude.{
  ℕ, ◌<◌, ◌≡◌, ap, ◌∙◌, sym, ◌⊎◌, inl, inr, false, none, some, List, [], ◌++◌, flatten, map, length,
  Bool-cases, subst,
}
use duckdb_splunk.External.{Json, StringUtil}
use duckdb_splunk.Errors.{Exception}
use duckdb_splunk.Client.Connection.{SplunkClient}
use duckdb_splunk.Client.Retry.{Network}
use duckdb_splunk.Client.Transfer.{Exchange}
use duckdb_splunk.Client.Transfer.Recovery.{Recovers}
use duckdb_splunk.Logs.Row.{map_event}
use duckdb_splunk.Logs.Stream.{Export}
use duckdb_splunk.Logs.Stream.Lines.{lines_from}
use duckdb_splunk.Logs.Stream.Cap.{Undisturbed}
use duckdb_splunk.Logs.Stream.Fails.{BreaksAt, HasRoomFor, run_export-throws}
use duckdb_splunk.Logs.Scan.{Row, Scan, Reaches}
use duckdb_splunk.Logs.Scan.Handover.{Reaches-IsConsistent}
use duckdb_splunk.Logs.Scan.Completion.{Leads, Reaches-Leads, Reaches-completes}
use duckdb_splunk.Logs.Thread.{pushed_rows, raised_exception}
use duckdb_splunk.Logs.Thread.Recovery.{start_export-Recovers}
use duckdb_splunk.Logs.Thread.Delivery.{ReachesExport}

-- A scan that ends with `e`: no state has a finished producer and another result, and some steps
-- lead to one that has the exception, behind a front part of the rows.
pub record EndsWith (vector_size : ℕ) (rows : List Row) (e : Exception) (t : Scan) : Type 0 where
  pub reported : (t.finished ≡ false) ⊎ (t.error ≡ some e)
  pub last : Scan
  pub leads : Leads vector_size t last
  pub raised : last.error ≡ some e
  pub later : List Row
  pub front : rows ≡ last.output ++ later

module _ (vector_size : ℕ) (positive : 0 < vector_size) where
  pub Reaches-EndsWith :
      (rows : List Row) (e : Exception) {t : Scan}
      → Reaches vector_size rows (some e) t
      → t.cancelled ≡ false
      → t.gave_up ≡ false
      → EndsWith vector_size rows e t
  Reaches-EndsWith rows e {t} r c g =
      let h = Reaches-IsConsistent vector_size rows (some e) r in
      let (u, leads, ended, error, output) =
        Reaches-completes vector_size positive rows (some e) r c g in
      let k =
        Reaches-IsConsistent vector_size rows (some e)
          (Reaches-Leads vector_size positive rows (some e) r leads) in
      record {
        reported = elim (Bool-cases t.finished) [
          | inr more ↦ inl more
          | inl done ↦ inr (known (h.failure_known c g) (h.ended done).1)
        ];
        last = u;
        leads = leads;
        raised = error;
        later = u.buffer ++ (u.pending ++ k.lost);
        front = k.in_order;
      }
    where
      known :
          ((t.error ≡ none) × (t.failure ≡ some e)) ⊎ ((t.error ≡ some e) × (t.failure ≡ none))
          → t.failure ≡ none
          → t.error ≡ some e
      known (inl k) q = absurd (let clash : none ≡ some e = sym q ∙ k.1 in cc)
      known (inr k) q = k.0

  module _ (su : StringUtil) (client : SplunkClient) (x : Export) (net : Network Exchange) where
    -- If the server answers attempt `n` in full after failures that are retried, `n` is at most
    -- `retries` and at most 64, nobody interrupts the query, and a line of that answer reports a
    -- failed search, behind lines that parse and whose events the cap has room for, then the scan
    -- ends with that exception, whatever its two threads have done without a cancellation or
    -- giving up.
    pub start_export-EndsWith :
        (n : ℕ) (es : List Json) (e : Exception) {t : Scan}
        → Recovers client net n
        → Undisturbed x
        → BreaksAt x (lines_from [] (flatten (net.reply n).chunks)) es e
        → HasRoomFor x 0 (length es)
        → ReachesExport su client x net vector_size positive t
        → t.cancelled ≡ false
        → t.gave_up ≡ false
        → EndsWith vector_size (map (λ e. map_event x.platform e x.column_ids) es) e t
    start_export-EndsWith n es e {t} r u b h reached c g =
        let (p, run, rows) = run_export-throws x (net.reply n).chunks es e u b h in
        let runs = start_export-Recovers su client x net n r ∙ ap some run in
        let reached' : Reaches vector_size p.rows (some e) t =
          subst (λ ends. Reaches vector_size (pushed_rows ends) (raised_exception ends) t) runs
            reached in
        subst (λ all. EndsWith vector_size all e t) rows (Reaches-EndsWith p.rows e reached' c g)
