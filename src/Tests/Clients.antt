-- ===== src/Tests/Clients.antt =====
-- Requests against a network that fails.
use duckdb_splunk.Prelude.{
  ◌+◌, ◌≤◌, length, All, ◌<◌, ◌≡◌, ◌↔◌, refl, false, none, [], ◌∷◌, ◌++◌, Bytes, codes, arith, ltb,
  if◌then◌else◌,
}
use duckdb_splunk.Errors.{running}
use duckdb_splunk.Client.Connection.{SplunkClient, default_client, browser_auth_header}
use duckdb_splunk.Client.Connection.Headers.{HttpAuth, HttpAuthLaws, sent_header}
use duckdb_splunk.Client.Retry.{
  TransportError, other_error, Response, Reply, no_response, response, Network, returned,
  undefined_shift, finish, decide, authenticated_request,
}
use duckdb_splunk.Client.Retry.Pool.{unconnected, after_reply, acquire, connections}
use duckdb_splunk.Client.Retry.Pool.Fresh.{failures, attempted, authenticated_request-connections}
use duckdb_splunk.Client.Retry.Policy.{IsTransient, Waits, decide-Waits}
use duckdb_splunk.Client.Retry.Budget.{WithinBudget, authenticated_request-WithinBudget}
use duckdb_splunk.Client.Retry.Shift.{IsDown, authenticated_request_undefined}
use duckdb_splunk.Client.Transfer.{Exchange, Consumer, export_search}
use duckdb_splunk.Client.Transfer.Once.{FedOnce, export_search-FedOnce}
use duckdb_splunk.Tests.Samples.{ascii}

abbrev unavailable : Response
unavailable = record { status = 503; retry_after = none; body = codes "busy" }

abbrev answer : Response
answer = record { status = 200; retry_after = none; body = codes "ok" }

-- A server that is down for two attempts.
abbrev recovers : Network Reply
recovers = record {
  is_interrupted = λ n. false;
  reply = λ n. response (if ltb n 2 then unavailable else answer);
  wait_interrupted = λ n. false;
}

-- The third request succeeds, after waits of one and two seconds.
retries_twice :
    ((authenticated_request ascii default_client false recovers).outcome ≡ returned (codes "ok"))
    × ((authenticated_request ascii default_client false recovers).requests ≡ 3)
    × ((authenticated_request ascii default_client false recovers).delays ≡ 1 ∷ 2 ∷ [])
unfolding authenticated_request duckdb_splunk.Client.Retry.attempt_from decide
    duckdb_splunk.Client.Retry.backoff_seconds
retries_twice = (refl, refl, refl)

authenticated_request-WithinBudget_example :
    WithinBudget default_client.retries 0
      (authenticated_request ascii default_client false recovers)
authenticated_request-WithinBudget_example =
    authenticated_request-WithinBudget ascii default_client false recovers

decide-Waits_example :
    Waits (decide ascii default_client false 3 (response unavailable))
    ↔ ((3 < default_client.retries) × IsTransient (response unavailable))
decide-Waits_example =
    decide-Waits ascii default_client false 3 (response unavailable) (omega arith)

-- A server that stays down, and a client that may try a hundred times.
abbrev down : Network Reply
down = record {
  is_interrupted = λ n. false;
  reply = λ n. response unavailable;
  wait_interrupted = λ n. false;
}

abbrev patient : SplunkClient
patient = record default_client { retries = 100 }

down-IsDown : IsDown down
down-IsDown = record {
  answers = λ n. unavailable;
  answered = λ n. refl;
  server_error = λ n. omega arith;
  undisturbed = λ n. refl;
  slept = λ n. refl;
}

authenticated_request_undefined_example :
    (authenticated_request ascii patient false down).outcome ≡ undefined_shift
authenticated_request_undefined_example =
    authenticated_request_undefined ascii patient false down down-IsDown (omega arith)

-- Keeps what it is given.
abbrev recorder : Consumer Bytes
recorder = record { consume = λ chunk s. running (s ++ chunk); has_stopped = λ s. false }

-- An answer in two chunks, behind one that is refused.
abbrev second_try : Network Exchange
second_try = record {
  is_interrupted = λ n. false;
  reply = λ n. record {
    status = if ltb n 1 then 503 else 200;
    retry_after = none;
    chunks = codes "one" ∷ codes "two" ∷ [];
    failure = none;
  };
  wait_interrupted = λ n. false;
}

-- The consumer has both chunks of the second answer, and nothing of the first.
exports_once :
    ((export_search ascii default_client recorder second_try []).0.outcome ≡ returned tt)
    × ((export_search ascii default_client recorder second_try []).1 ≡ codes "onetwo")
unfolding export_search duckdb_splunk.Client.Transfer.export_from
    duckdb_splunk.Client.Transfer.receive duckdb_splunk.Client.Transfer.content_receiver
    duckdb_splunk.Client.Transfer.decide_export duckdb_splunk.Client.Retry.backoff_seconds
exports_once = (refl, refl)

export_search-FedOnce_example :
    FedOnce ascii default_client recorder second_try []
      (export_search ascii default_client recorder second_try []).1
export_search-FedOnce_example =
    export_search-FedOnce ascii default_client recorder second_try
      (λ n. (omega arith, (omega arith, tt))) []

-- An encoder that leaves its text alone, and an HTTP library that uses it.
abbrev plain : Bytes → Bytes
plain s = s

abbrev plain_http : HttpAuth
plain_http = record {
  bearer_header = λ token. codes "Bearer " ++ token;
  basic_header = λ username password. codes "Basic " ++ (username ++ (codes ":" ++ password));
}

plain_http-laws : HttpAuthLaws plain plain_http
plain_http-laws = record {
  bearer_header_lem = λ token. refl;
  basic_header_lem = λ username password. refl;
}

abbrev admin : SplunkClient
admin = record default_client { username = codes "admin"; password = codes "changeme" }

-- One connection breaks off, and the next one is answered.
abbrev breaking : Network Reply
breaking = record {
  is_interrupted = λ n. false;
  reply = λ n. if ltb n 1 then no_response (other_error 2) else response answer;
  wait_interrupted = λ n. false;
}

authenticated_request-connections_example :
    All
      (λ c. sent_header plain_http c.authentication ≡ browser_auth_header ascii plain admin)
      (connections ascii admin (attempted ascii admin false breaking) unconnected).0
    × (length (connections ascii admin (attempted ascii admin false breaking) unconnected).0
        ≡ (authenticated_request ascii admin false breaking).requests)
    × ((connections ascii admin (attempted ascii admin false breaking) unconnected).1.made
        ≤ 1 + failures (attempted ascii admin false breaking))
authenticated_request-connections_example =
    authenticated_request-connections ascii admin false breaking plain plain_http plain_http-laws

-- Two attempts, over two connections.
breaks_once :
    ((authenticated_request ascii admin false breaking).requests ≡ 2)
    × ((connections ascii admin
          (no_response (other_error 2) ∷ response answer ∷ [])
          unconnected).1.made
        ≡ 2)
unfolding authenticated_request duckdb_splunk.Client.Retry.attempt_from decide
    duckdb_splunk.Client.Retry.backoff_seconds connections acquire after_reply
breaks_once = (refl, refl)
