-- ===== src/Client.antt =====
-- SnifferClient (external_server/src/sniffer_client.cpp): the client's side of the control channel.
pub mod Receive
pub mod Api
pub mod Handles
pub mod Reading
pub mod Injection
pub mod Filters
pub mod Reports
pub mod Queue
pub mod Sync
mod Tests
