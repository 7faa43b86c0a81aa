-- ===== src/External/Floats.antt =====
-- IEEE-754 doubles as bit patterns, with the operations that the extension uses of them.
use duckdb_splunk.Prelude.{ℕ, ◌*◌, ◌^◌, ◌≤◌, ◌<◌, ◌≡◌, Bool, true, false, Bytes, ℤ}
use duckdb_splunk.External.Documents.{Number}

abbrev pub Double : Type 0
Double = ℕ

pub record Doubles : Type 0 where
  -- The double nearest to a natural number: what a literal such as 1e10 denotes.
  pub of_ℕ : ℕ → Double
  -- `a >= b`.
  pub ge : Double → Double → Bool
  pub mul : Double → Double → Double
  -- `static_cast<int64_t>(std::llround(x))`.
  pub llround : Double → ℤ
  -- `yyjson_get_num`.
  pub get_num : Number → Double
  -- `std::strtod(s, &end)`: the value, and the text from `end` on.
  pub strtod : Bytes → Double × Bytes

-- A number that a double holds exactly: 53 bits, scaled by a power of two up to 2^64. Such a
-- number is below 2^117, so a product of two is far below 2^1024, where doubles end.
abbrev pub IsExact : ℕ → Type 0
IsExact n = (m : ℕ) × (e : ℕ) × (m < 2 ^ 53) × (e ≤ 64) × (n ≡ m * 2 ^ e)

pub record DoublesLaws (d : Doubles) : Type 0 where
  -- Rounding to nearest is monotone.
  pub ge_of_le : (a b : ℕ) → a ≤ b → d.ge (d.of_ℕ b) (d.of_ℕ a) ≡ true
  -- Exact values compare as the numbers do.
  pub ge_exact : (a b : ℕ) → IsExact a → IsExact b → a < b → d.ge (d.of_ℕ a) (d.of_ℕ b) ≡ false
  -- A product of exact values is the exact product, rounded.
  pub mul_exact : (a b : ℕ) → IsExact a → IsExact b → d.mul (d.of_ℕ a) (d.of_ℕ b) ≡ d.of_ℕ (a * b)
