-- ===== src/Protocol/Link.antt =====
-- UdpCanbusCommunication and TcpCanbusCommunication as listeners of their own connection
-- (src/communication/UdpCanbusCommunication.cpp, src/communication/TcpCanbusCommunication.cpp): what
-- they hand on, and to whom.
use ksg_canbus_rpi_sniffer.Prelude.{ℕ, Bool, false, List, [], ◌∷◌, map}
use ksg_canbus_rpi_sniffer.Protocol.Message.{Callback, callbacks}
use ksg_canbus_rpi_sniffer.Protocol.Udp.{process_packet}
use ksg_canbus_rpi_sniffer.Protocol.Tcp.{process_buffer}
use ksg_canbus_rpi_sniffer.Connection.Life.{CommunicationStatus}

-- m_commandListener; the target listener is there from the constructor on.
pub record Link : Type 0 where
  pub has_command_listener : Bool

-- What the two listeners hear.
pub data Heard : Type 0 where
  called : Callback → Heard
  error : ℕ → Heard
  status : CommunicationStatus → Heard

unfoldable pub construct : Link
construct = record { has_command_listener = false }

-- setCommandListener, with a listener or with null
unfoldable pub set_command_listener : Bool → Link → Link
set_command_listener present l = record l { has_command_listener = present }

-- onDataReceived, onError and onStatusChanged of the UDP side and of the TCP side
unfoldable pub udp_on_data_received : List ℕ → ℕ → Link → List Heard
udp_on_data_received mem len l =
    map called (callbacks (process_packet l.has_command_listener mem len))

unfoldable pub tcp_on_data_received : List ℕ → ℕ → Link → List Heard
tcp_on_data_received mem len l =
    map called (callbacks (process_buffer l.has_command_listener mem len))

unfoldable pub on_error : ℕ → List Heard
on_error code = error code ∷ []

unfoldable pub on_status_changed : CommunicationStatus → List Heard
on_status_changed s = status s ∷ []
