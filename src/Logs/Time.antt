-- ===== src/Logs/Time.antt =====
-- src/logs_table.cpp, ParseIso8601ToNanos, EpochToNanos and ParseSplunkTimeToNanos.
pub mod Units
use duckdb_splunk.Prelude.{
  ℕ, ◌^◌, Bool, true, false, not, ◌&&◌, Option, none, some, [], Bytes, c_string, equal, ℤ, ◌+ℤ◌,
  if◌then◌else◌, is_empty,
}
use duckdb_splunk.External.{Json, str, num, Doubles, Double, Timestamps}

module _ (t : Timestamps) where
  -- Behind a successful `TryConvertTimestampTZ`. The sum is taken in the integers.
  from_micros : ℤ → ℤ → Option ℤ
  from_micros ts sub_micro_nanos = elim (t.epoch_nanos ts) [
    | none ↦ none
    | some nanos ↦ some (nanos +ℤ sub_micro_nanos)
  ]

  -- `ParseIso8601ToNanos`; `none` stands for the result `false`.
  unfoldable pub parse_iso8601_to_nanos : Bytes → Option ℤ
  unfolding from_micros
  parse_iso8601_to_nanos text = elim (t.try_convert_tz text) [
    | none ↦ t.try_convert_ns text
    | some (ts, sub_micro_nanos) ↦ from_micros ts sub_micro_nanos
  ]

module _ (d : Doubles) where
  -- `EpochToNanos`.
  unfoldable pub epoch_to_nanos : Double → ℤ
  epoch_to_nanos value =
      if d.ge value (d.of_ℕ (10 ^ 16))
      then d.llround value
      else if d.ge value (d.of_ℕ (10 ^ 13))
      then d.llround (d.mul value (d.of_ℕ (10 ^ 3)))
      else if d.ge value (d.of_ℕ (10 ^ 10))
      then d.llround (d.mul value (d.of_ℕ (10 ^ 6)))
      else d.llround (d.mul value (d.of_ℕ (10 ^ 9)))

module _ (d : Doubles) (t : Timestamps) where
  -- A number in a string: `strtod` must take the whole text, and some of it.
  unfoldable pub parse_epoch_text : Bytes → Option ℤ
  unfolding epoch_to_nanos
  parse_epoch_text text =
      let (value, end) = d.strtod text in
      if not (equal end text) && is_empty end then some (epoch_to_nanos d value) else none

  parse_time_text : Bytes → Option ℤ
  parse_time_text text = elim (parse_iso8601_to_nanos t text) [
    | some nanos ↦ some nanos
    | none ↦ parse_epoch_text text
  ]

  -- `ParseSplunkTimeToNanos`; `none` stands for the result `false`.
  unfoldable pub parse_splunk_time_to_nanos : Option Json → Option ℤ
  unfolding parse_time_text
  parse_splunk_time_to_nanos (some (str s)) = parse_time_text (c_string s)
  parse_splunk_time_to_nanos (some (num n)) = some (epoch_to_nanos d (d.get_num n))
  parse_splunk_time_to_nanos _ = none
