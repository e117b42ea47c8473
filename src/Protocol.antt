-- ===== src/Protocol.antt =====
-- The datagrams between the sniffer and the external server: their layout
-- (include/communication/CanbusProtocol.h), the dispatch of a received packet over UDP and TCP, and
-- the client's sender.
pub mod Message
pub mod Udp
pub mod Tcp
pub mod Link
pub mod Safety
pub mod RoundTrip
pub mod Stream
pub mod Agree
mod Tests
