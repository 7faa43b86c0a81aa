-- ===== src/Logs/Severity.antt =====
-- src/logs_table.cpp, SeverityToNumber: Splunk severity names as OTLP severity numbers.
pub mod Ranges
use duckdb_splunk.Prelude.{ℕ, ◌||◌, Bytes, codes, equal, if◌then◌else◌}
use duckdb_splunk.External.{StringUtil}

-- The ladder of tests, on a name in lower case.
unfoldable pub severity_number_lower : Bytes → ℕ
severity_number_lower s =
    if equal s (codes "trace")
    then 1
    else if equal s (codes "debug")
    then 5
    else if equal s (codes "info") || (equal s (codes "notice") || equal s (codes "ok"))
    then 9
    else if equal s (codes "warn") || equal s (codes "warning")
    then 13
    else if equal s (codes "error") || equal s (codes "err")
    then 17
    else if equal s (codes "critical")
        || (equal s (codes "crit")
            || (equal s (codes "alert")
                || (equal s (codes "emergency") || equal s (codes "fatal"))))
    then 21
    else 0

-- `SeverityToNumber`.
unfoldable pub severity_to_number : StringUtil → Bytes → ℕ
unfolding severity_number_lower
severity_to_number su severity = severity_number_lower (su.lower severity)
