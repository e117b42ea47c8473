-- ===== src/Protocol/Tests.antt =====
-- Runs of the dispatchers, and the theorems at concrete packets.
use ksg_canbus_rpi_sniffer.Prelude.{
  ℕ, ◌≡◌, true, some, List, [], ◌∷◌, ◌++◌, length, replicate, arith,
}
use ksg_canbus_rpi_sniffer.Protocol.Message.{
  raw_command, delivered, dropped, on_command, on_data, invalid_size, cmd_set_filters,
}
use ksg_canbus_rpi_sniffer.Protocol.Udp.{process_packet, received}
use ksg_canbus_rpi_sniffer.Protocol.RoundTrip.{
  process_packet-raw_command, process_packet-raw_command_cut,
}

abbrev payload : List ℕ
payload = 1 ∷ 2 ∷ 3 ∷ []

process_packet-raw_command_example :
    (datagram : List ℕ) × (raw_command 0x1001 payload ≡ some datagram)
    × (process_packet true (received datagram ++ (7 ∷ [])) (length (received datagram))
        ≡ delivered (on_command 0x1001 0 payload ∷ on_data payload ∷ []))
process_packet-raw_command_example =
    process_packet-raw_command 0x1001 payload (7 ∷ []) (omega arith) (omega arith)

abbrev long_payload : List ℕ
long_payload = replicate 3950 7

process_packet-raw_command_cut_example :
    (datagram : List ℕ) × (raw_command cmd_set_filters long_payload ≡ some datagram)
    × (process_packet true (received datagram ++ []) (length (received datagram))
        ≡ dropped invalid_size)
process_packet-raw_command_cut_example =
    process_packet-raw_command_cut true cmd_set_filters long_payload [] (omega arith) (omega arith)
      (omega arith)
