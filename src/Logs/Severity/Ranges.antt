-- ===== src/Logs/Severity/Ranges.antt =====
-- Severity numbers against the table of the documentation.
use duckdb_splunk.Prelude.{
  ℕ, ◌%◌, ◌≤◌, ◌≡◌, ◌⊎◌, List, [], ◌∷◌, Bytes, codes, equal, arith, if◌then◌else◌,
}
use duckdb_splunk.External.{StringUtil}
use duckdb_splunk.Logs.Severity.{severity_number_lower, severity_to_number}

-- The table of the documentation: each known name with its number.
abbrev pub severity_table : List (Bytes × ℕ)
severity_table =
    (codes "trace", 1)
    ∷ (codes "debug", 5)
    ∷ (codes "info", 9)
    ∷ (codes "notice", 9)
    ∷ (codes "ok", 9)
    ∷ (codes "warn", 13)
    ∷ (codes "warning", 13)
    ∷ (codes "error", 17)
    ∷ (codes "err", 17)
    ∷ (codes "critical", 21)
    ∷ (codes "crit", 21)
    ∷ (codes "alert", 21)
    ∷ (codes "emergency", 21)
    ∷ (codes "fatal", 21)
    ∷ []

abbrev pub table_number : Bytes → List (Bytes × ℕ) → ℕ
table_number s [] = 0
table_number s ((name, n) ∷ rest) =
    let later = table_number s rest in if equal s name then n else later

severity_number_lower-table : (s : Bytes) → severity_number_lower s ≡ table_number s severity_table
unfolding severity_number_lower
severity_number_lower-table s = ground arith

-- The severity number is the entry for the name in lower case in the table of 14 names, or 0
-- where the table has none.
pub severity_to_number-table :
    (su : StringUtil) (severity : Bytes)
    → severity_to_number su severity ≡ table_number (su.lower severity) severity_table
unfolding severity_to_number
severity_to_number-table su severity = severity_number_lower-table (su.lower severity)

-- OTLP gives each severity a range of four numbers, from 1 to 24; these are the first of theirs.
abbrev pub BeginsRange : ℕ → Type 0
BeginsRange n = (n % 4 ≡ 1) × (n ≤ 24)

-- A severity number is 0 or the first of the four numbers of an OTLP range, at most 24.
severity_to_number-range :
    (su : StringUtil) (severity : Bytes)
    → (severity_to_number su severity ≡ 0) ⊎ BeginsRange (severity_to_number su severity)
unfolding severity_to_number
severity_to_number-range su severity = ground arith
