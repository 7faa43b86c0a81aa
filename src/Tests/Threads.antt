-- ===== src/Tests/Threads.antt =====
-- A scan whose server recovers.
use duckdb_splunk.Prelude.{refl, inl, false, none, ltb, arith, if◌then◌else◌}
use duckdb_splunk.Client.Connection.{default_client}
use duckdb_splunk.Client.Retry.{Network}
use duckdb_splunk.Client.Transfer.{Exchange}
use duckdb_splunk.Client.Transfer.Recovery.{Recovers}
use duckdb_splunk.Tests.Streams.{chunks}

-- Busy at first; then the answer.
abbrev pub recovering : Network Exchange
recovering = record {
  is_interrupted = λ n. false;
  reply = λ n. record {
    status = if ltb n 1 then 503 else 200;
    retry_after = none;
    chunks = chunks;
    failure = none;
  };
  wait_interrupted = λ n. false;
}

second-Recovers : Recovers default_client recovering 1
second-Recovers = record {
  allowed = omega arith;
  representable = omega arith;
  uninterrupted = λ k. refl;
  slept = λ k. refl;
  fails = λ k before. inl (inl (ground arith), refl);
  succeeds = refl;
  whole = refl;
}
