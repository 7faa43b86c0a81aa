-- ===== src/Logs/Thread/Refused.antt =====
-- A scan whose search the server refuses.
use duckdb_splunk.Prelude.{ℕ, ◌<◌, ◌≡◌, ap₂, false, some, [], subst}
use duckdb_splunk.External.{StringUtil}
use duckdb_splunk.Errors.{thrown}
use duckdb_splunk.Client.Connection.{SplunkClient}
use duckdb_splunk.Client.Retry.{Network}
use duckdb_splunk.Client.Transfer.{Exchange, export_search}
use duckdb_splunk.Client.Transfer.Refused.{Refuses, refusal_of, Refuses-export_from}
use duckdb_splunk.Logs.Stream.{Export, idle}
use duckdb_splunk.Logs.Scan.{Scan, Reaches}
use duckdb_splunk.Logs.Thread.{
  line_consumer, after_export, start_export, pushed_rows, raised_exception,
}
use duckdb_splunk.Logs.Thread.Delivery.{ReachesExport}
use duckdb_splunk.Logs.Thread.Failure.{EndsWith, Reaches-EndsWith}

module _ (su : StringUtil) (client : SplunkClient) (x : Export) (net : Network Exchange) where
  -- The thread parses nothing, and ends with the refusal.
  start_export-Refuses :
      (n : ℕ)
      → Refuses client net n
      → start_export su client x net
        ≡ some (thrown (refusal_of su client (line_consumer x) net n) idle)
  unfolding start_export export_search
  start_export-Refuses n h =
      let (outcome, state) = Refuses-export_from su client (line_consumer x) net n ([], idle) h in
      ap₂ (after_export x) outcome state

  module _ (vector_size : ℕ) (positive : 0 < vector_size) where
    -- If attempt `n` is answered in full with a status outside 200 to 299, which is the last
    -- attempt or a status other than 429 and below 500, the attempts before it failed and are
    -- retried, `n` is at most `retries` and at most 64, nobody interrupts the query, and a
    -- vector holds a row at least, then the scan ends with that status and the first 4096
    -- bytes of the body, whatever its two threads have done without a cancellation or giving
    -- up: a state with a finished producer has the exception, some steps lead to a state that
    -- has it, with no rows put out.
    pub start_export-refused :
        (n : ℕ) {t : Scan}
        → Refuses client net n
        → ReachesExport su client x net vector_size positive t
        → t.cancelled ≡ false
        → t.gave_up ≡ false
        → EndsWith vector_size [] (refusal_of su client (line_consumer x) net n) t
    start_export-refused n {t} h reached c g =
        let e = refusal_of su client (line_consumer x) net n in
        let reached' : Reaches vector_size [] (some e) t =
          subst (λ ends. Reaches vector_size (pushed_rows ends) (raised_exception ends) t)
            (start_export-Refuses n h) reached in
        Reaches-EndsWith vector_size positive [] e reached' c g
