-- ===== src/Tests.antt =====
-- Concrete libraries, tests on concrete inputs, and the theorems at inputs that meet their premises.
mod Samples
mod Requests
mod Rows
mod Streams
mod Clients
mod Catalogs
mod Scans
mod Failures
mod Ends
mod Binds
mod Browsers
mod Threads
mod Searches
mod Extensions
