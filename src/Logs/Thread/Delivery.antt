-- ===== src/Logs/Thread/Delivery.antt =====
-- A scan as a whole: retries, stream, mapping and hand-over to the scan.
use duckdb_splunk.Prelude.{
  ℕ, ◌<◌, ◌≡◌, refl, ap, ◌∙◌, false, none, some, List, [], flatten, map, inl, inr, subst,
}
use duckdb_splunk.External.{Json, StringUtil}
use duckdb_splunk.Errors.{ok}
use duckdb_splunk.Client.Connection.{SplunkClient}
use duckdb_splunk.Client.Retry.{Network}
use duckdb_splunk.Client.Transfer.{Exchange}
use duckdb_splunk.Client.Transfer.Recovery.{Recovers}
use duckdb_splunk.Logs.Row.{map_event}
use duckdb_splunk.Logs.Stream.{Export}
use duckdb_splunk.Logs.Stream.Lines.{lines_from}
use duckdb_splunk.Logs.Stream.Room.{events_of, capped}
use duckdb_splunk.Logs.Stream.Cap.{Undisturbed, run_export-rows}
use duckdb_splunk.Logs.Scan.{Scan, Reaches}
use duckdb_splunk.Logs.Scan.Completion.{Leads, HasEnded, Reaches-completes}
use duckdb_splunk.Logs.Thread.{start_export, pushed_rows, raised_exception}
use duckdb_splunk.Logs.Thread.Recovery.{start_export-Recovers}

module _ (su : StringUtil) (client : SplunkClient) (x : Export) (net : Network Exchange)
    (vector_size : ℕ) (positive : 0 < vector_size) where
  -- A scan of what the thread hands over.
  abbrev pub ReachesExport : Scan → Type 0
  ReachesExport t =
      let run = start_export su client x net in
      Reaches vector_size (pushed_rows run) (raised_exception run) t

  -- If the server answers attempt `n` in full after failures that are retried, `n` is at most
  -- `retries` and at most 64, nobody interrupts the query, and every line of that answer
  -- parses, then a scan of what the producer thread hands over, in whatever state the two
  -- threads have come to without a cancellation or giving up, can go on to an end, with no
  -- error, and with the rows of the events of all lines put out, in order, the first `cap` of
  -- them if there is a cap.
  pub start_export-delivers :
      (n : ℕ) (es : List Json) {t : Scan}
      → Recovers client net n
      → Undisturbed x
      → events_of x (lines_from [] (flatten (net.reply n).chunks)) ≡ ok es
      → ReachesExport t
      → t.cancelled ≡ false
      → t.gave_up ≡ false
      → (u : Scan) × Leads vector_size t u
        × HasEnded u
        × (u.error ≡ none)
        × (u.output ≡ map (λ e. map_event x.platform e x.column_ids) (capped x es))
  start_export-delivers n es {t} r u parsed reached c g =
      let (p, run, rows) = run_export-rows x (net.reply n).chunks es u parsed in
      let runs = start_export-Recovers su client x net n r ∙ ap some run in
      let reached' : Reaches vector_size p.rows none t =
        subst (λ ends. Reaches vector_size (pushed_rows ends) (raised_exception ends) t) runs
          reached in
      let (end, leads, ended, error, output) =
        Reaches-completes vector_size positive p.rows none reached' c g in
      (
        end,
        leads,
        ended,
        error,
        elim output [ inl none_raised ↦ absurd (none_raised refl) | inr all ↦ all ∙ rows ],
      )
