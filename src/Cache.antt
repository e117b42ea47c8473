-- ===== src/Cache.antt =====
-- CommunicationObj::CacheManager (include/base/CommunicationObj.hpp): the block ring between the
-- thread that reads a socket and the worker thread that calls the listener.
pub mod Ring
pub mod Buffer
pub mod Modular
pub mod Window
pub mod Rep
pub mod Pushes
pub mod Refine
pub mod Layout
mod Tests
