-- ===== src/Client.antt =====
-- src/splunk_client.cpp and src/include/splunk_client.hpp: the client of the Splunk REST API.
pub mod Connection
pub mod Retry
pub mod Sleep
pub mod Discovery
pub mod Transfer
pub mod Browser
