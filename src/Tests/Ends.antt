-- ===== src/Tests/Ends.antt =====
-- Ends of waiting: the join of the producer thread, a sleep, and the discovery of indexes; and one
-- query in both builds.
use duckdb_splunk.Prelude.{
  ◌+◌, ◌*◌, ◌≤◌, ◌≡◌, ◌≢◌, ◌⊎◌, refl, ap, sym, inr, true, false, none, List, [], ◌∷◌, Bytes, codes,
  ltb, ◌==◌, length, arith, if◌then◌else◌,
}
use duckdb_splunk.Errors.{Result, ok, throw, ◌>>=◌}
use duckdb_splunk.Client.Connection.{SplunkClient}
use duckdb_splunk.Client.Retry.{
  Reply, Response, response, Network, Outcome, returned, raised, undefined_shift, out_of_fuel,
}
use duckdb_splunk.Client.Retry.Settles.{Settles, answer_of}
use duckdb_splunk.Client.Sleep.{Clock, nap, deadline, sleep_checking_interrupt}
use duckdb_splunk.Client.Sleep.Wakes.{IsSteady, Wakes, sleep_checking_interrupt-Wakes}
use duckdb_splunk.Client.Discovery.{ApiRequest, api_request, indexes_path, list_indexes}
use duckdb_splunk.Catalog.{
  AttachOptions, read_options, discovery_client, parse_discovered_indexes, attach_splunk, pinned,
}
use duckdb_splunk.Catalog.Asked.{IsOutcome, ListsFrom, attach_splunk-answer}
use duckdb_splunk.Logs.Scan.{Row, Scan, start, push_row, finish, cancel}
use duckdb_splunk.Logs.Scan.Join.{pushing, finishing}
use duckdb_splunk.Logs.Scan.Wakeup.{
  Watched, Arises, arises, arises_first, producing, sleeping, consuming, notified, closing,
}
use duckdb_splunk.Logs.Scan.Wakeup.Joined.{Drains, still, drains, CanGoOn, Drains-joins}
use duckdb_splunk.Logs.Scan.Wakeup.Served.{IsServed, Arises-IsServed}
use duckdb_splunk.Tests.Samples.{ascii, table_json}
use duckdb_splunk.Tests.Catalogs.{texts_only, manager, prod, documents, reads_credentials}
use duckdb_splunk.Tests.Scans.{first, second}

-- A clock that is read every tenth of a second, and an interruption in the fourth round.
abbrev clock : Clock
clock = record { started = 5; now = λ k. 5 + nap * k; is_interrupted = λ k. k == 3 }

clock-IsSteady : IsSteady clock
clock-IsSteady = record { starts = omega arith; naps = λ k. omega arith }

sleep_checking_interrupt-Wakes_example :
    Wakes clock 11 (deadline clock 1) 0 (sleep_checking_interrupt clock 1)
sleep_checking_interrupt-Wakes_example = sleep_checking_interrupt-Wakes clock 1 clock-IsSteady

-- Busy at first; then a credential that may not list indexes.
abbrev denied : Response
denied = record { status = 403; retry_after = none; body = codes "no" }

abbrev asked : SplunkClient → ApiRequest → Network Reply
asked client request = record {
  is_interrupted = λ n. false;
  reply = λ n. response (if ltb n 1 then record denied { status = 503 } else denied);
  wait_interrupted = λ n. false;
}

abbrev result_of : Outcome Bytes → Result Bytes
result_of (returned body) = ok body
result_of (raised e) = throw e
result_of undefined_shift = ok []
result_of out_of_fuel = ok []

abbrev lists : SplunkClient → Result Bytes
lists client = result_of (list_indexes ascii asked client).outcome

result_of-IsOutcome : (o : Outcome Bytes) → IsOutcome o (result_of o)
result_of-IsOutcome (returned body) = refl
result_of-IsOutcome (raised e) = refl
result_of-IsOutcome undefined_shift = tt
result_of-IsOutcome out_of_fuel = tt

lists-ListsFrom : ListsFrom ascii (table_json documents) texts_only manager asked lists
lists-ListsFrom client = result_of-IsOutcome (list_indexes ascii asked client).outcome

second-Settles :
    Settles
      (discovery_client prod)
      (asked (discovery_client prod) (api_request indexes_path none))
      1
      denied
unfolding discovery_client
second-Settles = record {
  allowed = omega arith;
  representable = omega arith;
  uninterrupted = λ k. refl;
  slept = λ k. refl;
  fails = λ k before. inr (ground arith);
  answers = refl;
  settled = inr (λ e. omega (arith, e), omega arith);
}

abbrev no_options : AttachOptions
no_options = record { secret_name = []; indexes = none }

reads_nothing : read_options ascii [] no_options ≡ ok no_options
unfolding read_options
reads_nothing = refl

attach_splunk-answer_example :
    attach_splunk ascii (table_json documents) texts_only manager lists (codes "splunk:") [] ≡ (
      answer_of true denied >>= λ text.
      parse_discovered_indexes (table_json documents) text >>= λ names.
      ok (record { indexes = names; secret_name = pinned [] prod }))
attach_splunk-answer_example =
    attach_splunk-answer ascii (table_json documents) texts_only manager asked lists [] no_options
      prod 1 denied lists-ListsFrom reads_nothing refl reads_credentials second-Settles

-- Vectors of one row: the third row finds the buffer full.
abbrev third : Row
third = []

abbrev three : List Row
three = first ∷ second ∷ third ∷ []

abbrev filled : Scan
filled =
    push_row false second (third ∷ [])
      (push_row false first (second ∷ third ∷ []) (start three none))

abbrev blocked : Watched
blocked = record { scan = filled; asleep = true; notifying = false }

Arises-blocked : Arises 1 three none blocked
unfolding push_row duckdb_splunk.Logs.Scan.may_push
Arises-blocked =
    arises
      (arises
        (arises arises_first (producing refl (pushing false first (second ∷ third ∷ []) refl refl)))
        (producing refl (pushing false second (third ∷ []) refl refl)))
      (sleeping third [] refl refl refl)

Arises-IsServed_example : (blocked.notifying ≡ true) ⊎ IsServed 1 blocked
Arises-IsServed_example = Arises-IsServed 1 three none (omega arith) Arises-blocked refl

-- The query is closed while the producer sleeps with the third row.
abbrev closed : Watched
closed = record { scan = cancel filled; asleep = true; notifying = true }

abbrev woken : Watched
woken = record { scan = cancel filled; asleep = false; notifying = false }

abbrev given_up : Scan
given_up = push_row false third [] (cancel filled)

abbrev joined : Watched
joined = record { scan = finish given_up; asleep = false; notifying = false }

Arises-closed : Arises 1 three none closed
unfolding duckdb_splunk.Logs.Scan.Wakeup.notifies_space
Arises-closed = arises Arises-blocked (consuming refl closing)

true_ne_false : true ≢ false
true_ne_false e = cc

nothing_ne_row : {row : Row} → [] ≢ (row ∷ [])
nothing_ne_row e = cc

gives_up : Drains 1 3 closed joined
unfolding push_row finish cancel duckdb_splunk.Logs.Scan.may_push
gives_up =
    drains {v = woken} (notified refl) tt (λ e. true_ne_false (ap Watched.asleep (sym e)))
      (drains (producing refl (pushing false third [] refl refl)) tt
        (λ e. nothing_ne_row (ap (λ (w : Watched). w.scan.pending) e))
        (drains (producing refl (finishing refl refl)) tt
          (λ e. true_ne_false (ap (λ (w : Watched). w.scan.finished) e)) still))

-- The notification wakes the producer, which gives up the row and ends.
Drains-joins_example :
    (3 ≤ 2 * length three + 6) × ((joined.scan.finished ≡ true) ⊎ CanGoOn 1 joined)
unfolding cancel
Drains-joins_example = Drains-joins 1 three none (omega arith) Arises-closed refl gives_up
