-- ===== src/Sniffer/Objects.antt =====
-- The communication objects that Sniffer's constructor creates (src/sniffer/Sniffer.cpp).
use ksg_canbus_rpi_sniffer.Prelude.{ℕ, true, some, List}
use ksg_canbus_rpi_sniffer.Text.{codes, snprintf}
use ksg_canbus_rpi_sniffer.Protocol.Link
use ksg_canbus_rpi_sniffer.Protocol.Link.{Link, set_command_listener}
use ksg_canbus_rpi_sniffer.Sockets.Udp
use ksg_canbus_rpi_sniffer.Sockets.Udp.{UdpCommunication}
use ksg_canbus_rpi_sniffer.Service.Main.{SnifferParams}
use ksg_canbus_rpi_sniffer.Leds.Signals.{LedConfig}

-- A CAN object by its m_interfaceName; the external service by its socket's state and its listeners.
pub record Objects : Type 0 where
  pub car_system_can : List ℕ
  pub car_computer_can : List ℕ
  pub external_service : UdpCommunication
  pub external_link : Link

-- ObdCanbusCommunication::ObdCanbusCommunication; the array holds IFNAMSIZ = 16 bytes.
unfoldable pub interface_for : List ℕ → List ℕ
interface_for interface_name = snprintf 16 interface_name

-- The end of the constructor, behind its part on names and LEDs.
unfoldable pub create_objects : LedConfig → SnifferParams → Objects
unfolding interface_for
create_objects config params = record {
  car_system_can = interface_for config.system_interface_name;
  car_computer_can = interface_for config.computer_interface_name;
  external_service =
      Udp.construct (some (codes "0.0.0.0")) params.external_client_port
        params.external_service_port;
  external_link = set_command_listener true Link.construct;
}
