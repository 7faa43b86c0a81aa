-- ===== src/External/Times.antt =====
-- DuckDB's `Timestamp` parsers.
use duckdb_splunk.Prelude.{Option, Bytes, ℤ}

pub record Timestamps : Type 0 where
  -- `TryConvertTimestampTZ`: microseconds, and the nanoseconds below them; `none` unless SUCCESS.
  pub try_convert_tz : Bytes → Option (ℤ × ℤ)
  -- The nanosecond parser `TryConvertTimestamp`.
  pub try_convert_ns : Bytes → Option ℤ
  -- `TryGetEpochNanoSeconds`: `none` where the product overflows.
  pub epoch_nanos : ℤ → Option ℤ
