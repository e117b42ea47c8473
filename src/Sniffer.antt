-- ===== src/Sniffer.antt =====
-- sniffer::Sniffer (src/sniffer/Sniffer.cpp, include/sniffer/Sniffer.h): the man in the middle between
-- the two CAN buses, and its control channel.
pub mod State
pub mod Objects
pub mod Frames
pub mod Commands
pub mod Watchdog
pub mod Buffers
pub mod Forwarding
pub mod Kept
pub mod KeepAlive
pub mod Served
pub mod Timeout
pub mod Race
mod Tests
