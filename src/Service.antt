-- ===== src/Service.antt =====
-- core::MainService (src/core/MainService.cpp): configuration, the sniffer's restarts, and the USB
-- watchdogs; with the part of Sniffer (src/sniffer/Sniffer.cpp) that reads the configuration.
pub mod Config
pub mod Names
pub mod Usb
pub mod Processes
pub mod Main
pub mod Restart
pub mod Threads
pub mod Watchdogs
mod Tests
