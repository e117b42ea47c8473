-- ===== src/Connection.antt =====
-- base::CommunicationObj (include/base/CommunicationObj.hpp) around its CacheManager: start and stop, the
-- reconnectable mode, and the threads that they start.
pub mod Life
pub mod Reconnect
pub mod Reports
pub mod Shutdown
mod Tests
