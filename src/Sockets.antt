-- ===== src/Sockets.antt =====
-- The socket classes below CommunicationObj: UdpCommunication, TcpCommunication and
-- ObdCanbusCommunication (src/communication, src/canbus_communication).
pub mod Descriptor
pub mod Udp
pub mod Transfer
pub mod Leaks
pub mod Replies
mod Tests
