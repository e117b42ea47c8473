-- ===== src/Status.antt =====
-- StatusManager (include/utils/StatusManager.hpp): the lines of the status text that a keep-alive
-- carries to the client.
pub mod Manager
pub mod Truncation
pub mod UsbList
pub mod Directory
pub mod Texts
mod Tests
