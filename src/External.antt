-- ===== src/External.antt =====
-- What the extension calls and this repository does not hold: DuckDB's `StringUtil` and `Timestamp`,
-- yyjson, and the floating-point unit. Each is a record of operations, with its documented
-- behaviour as a record of laws.
mod Strings
mod Documents
mod Floats
mod Times
mod Scalars
unfoldable pub use Strings.*
unfoldable pub use Documents.*
unfoldable pub use Floats.*
unfoldable pub use Times.*
unfoldable pub use Scalars.*

-- All of it together.
pub record Platform : Type 0 where
  pub strings : StringUtil
  pub json : Yyjson
  pub doubles : Doubles
  pub timestamps : Timestamps
