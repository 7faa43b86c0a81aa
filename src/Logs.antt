-- ===== src/Logs.antt =====
-- src/logs_table.cpp: from a Splunk query to the rows of a scan.
pub mod Query
pub mod Severity
pub mod Lookup
pub mod Time
pub mod Attributes
pub mod Row
pub mod Schema
pub mod Thread
pub mod Bound
pub mod Export
pub mod Stream
pub mod Scan
pub mod Browser
