-- ===== src/External/Scalars.antt =====
-- DuckDB's Value, by the types that the extension tells apart, and its conversions.
use duckdb_splunk.Prelude.{ℕ, Bool, ◌≡◌, List, Bytes, ℤ}

pub data Scalar : Type 0 where
  null_scalar : Scalar
  varchar_scalar : Bytes → Scalar
  boolean_scalar : Bool → Scalar
  -- A value of another type, by a number that stands for it.
  other_scalar : ℕ → Scalar

pub data DuckValue : Type 0 where
  scalar : Scalar → DuckValue
  -- A `VARCHAR[]` that is not null.
  varchar_list : List Scalar → DuckValue
  -- A list of another type.
  other_list : ℕ → DuckValue

pub record Values : Type 0 where
  -- `ToString`.
  pub show : DuckValue → Bytes
  -- `GetValue<int64_t>`.
  pub get_int64 : DuckValue → ℤ

pub record ValuesLaws (v : Values) : Type 0 where
  -- A text is shown as it is.
  pub show_varchar : (s : Bytes) → v.show (scalar (varchar_scalar s)) ≡ s
