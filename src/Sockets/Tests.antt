-- ===== src/Sockets/Tests.antt =====
-- The socket classes' theorems at concrete calls.
use ksg_canbus_rpi_sniffer.Prelude.{
  ℕ, ◌+◌, ◌≡◌, true, false, Option, some, none, List, [], ◌∷◌, ◌++◌,
}
use ksg_canbus_rpi_sniffer.Text.{codes}
use ksg_canbus_rpi_sniffer.Sockets.Descriptor.{opened, closed, can_open, can_unblock}
use ksg_canbus_rpi_sniffer.Sockets.Leaks.{
  begin, after, opens_can, unblocks_can, opens, closes_of, opens-closes_of,
}
use ksg_canbus_rpi_sniffer.Sockets.Udp.{UdpCommunication, construct, Address}

-- Opened with no interface, opened with one, unblocked and closed.
opens-closes_of_example :
    opens 5 ((([] ++ (opened 5 ∷ closed 5 ∷ [])) ++ (opened 5 ∷ [])) ++ (can_unblock (some 5)).1)
    ≡ closes_of 5
        ((([] ++ (opened 5 ∷ closed 5 ∷ [])) ++ (opened 5 ∷ [])) ++ (can_unblock (some 5)).1)
      + 0
unfolding can_open can_unblock
opens-closes_of_example = opens-closes_of 5 (
    after
      (after (after begin (opens_can (some 5) false true {fd = none}))
        (opens_can (some 5) true true {fd = none}))
      (unblocks_can {fd = some 5}))

abbrev client : Address
client = record { ip = 0x0a000007; port = 40000 }

abbrev service : UdpCommunication
service = record (construct (some (codes "0.0.0.0")) 9096 9095) { socket_fd = some 4 }

abbrev no_address : List ℕ → Option ℕ
no_address text = none
