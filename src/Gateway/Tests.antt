-- ===== src/Gateway/Tests.antt =====
-- The client's link at concrete runs.
use ksg_canbus_rpi_sniffer.Prelude.{
  ℕ, ◌≡◌, refl, true, false, none, some, List, [], ◌∷◌, map, replicate, arith,
}
use ksg_canbus_rpi_sniffer.Filter.Sorts.{sort_rules}
use ksg_canbus_rpi_sniffer.Protocol.Message.{raw_command, cmd_keep_alive_to_sniffer}
use ksg_canbus_rpi_sniffer.Sockets.Udp.{Address, UdpCommunication}
use ksg_canbus_rpi_sniffer.Sniffer.State.{Sniffer}
use ksg_canbus_rpi_sniffer.Sniffer.Served.{constructed}
use ksg_canbus_rpi_sniffer.Sniffer.Commands.{on_command_received}
use ksg_canbus_rpi_sniffer.Gateway.{Gateway, Moment, serves}
use ksg_canbus_rpi_sniffer.Sniffer.State.{update_status, text, bool_eq}
use ksg_canbus_rpi_sniffer.Protocol.Message.{cmd_keep_alive_from_sniffer, on_command, delivered}
use ksg_canbus_rpi_sniffer.Protocol.Udp.{process_packet, received}
use ksg_canbus_rpi_sniffer.Sockets.Udp.{sendto}
use ksg_canbus_rpi_sniffer.Text.{c_string}
use ksg_canbus_rpi_sniffer.Client.Api.{client}
use ksg_canbus_rpi_sniffer.Client.Receive.{Client, keep_alive_payload, receive_command}
use ksg_canbus_rpi_sniffer.Gateway.{sent, called}
use ksg_canbus_rpi_sniffer.Gateway.RoundTrip.{keep_alive_round_trip}
use ksg_canbus_rpi_sniffer.Prelude.{◌++◌, if◌then◌else◌, length}
use ksg_canbus_rpi_sniffer.Gateway.Queue.{arrive_all, push_all, push_all-Rep}
use ksg_canbus_rpi_sniffer.Protocol.Udp.{max_frame_size}
use ksg_canbus_rpi_sniffer.Cache.Buffer
use ksg_canbus_rpi_sniffer.Cache.Ring.{Cache, work, init, num_blocks_for, block_size_for}
use ksg_canbus_rpi_sniffer.Cache.Refine.{empty, init-Rep, work_refines}
use ksg_canbus_rpi_sniffer.Gateway.Answers.{
  linked, IsEmptied, output, reply_address, command_answered,
}

abbrev first_client : Address
first_client = record { ip = 0x0a000001; port = 5000 }

abbrev other_client : Address
other_client = record { ip = 0x0a000002; port = 6000 }

abbrev third_client : Address
third_client = record { ip = 0x0a000003; port = 7000 }

-- The connection's cache after one frame that came in and was handled.
abbrev used : Cache
used = (work true (work true (push_all ((1 ∷ []) ∷ []) (init 65536 max_frame_size))).1).1

used-IsEmptied : IsEmptied used
unfolding Buffer.work num_blocks_for block_size_for
used-IsEmptied =
    let queued =
      push_all-Rep ((1 ∷ []) ∷ []) (empty 65536 max_frame_size) (init-Rep 65536 max_frame_size) refl
        (omega arith) in
    (work_refines true (work_refines true queued).1).1

abbrev service : UdpCommunication
service = record {
  ip = [];
  remote_port = 0;
  local_port = 9095;
  socket_fd = some 7;
  last_sender = none;
}

abbrev moment : Moment
moment = record { now = 5; time = 6; status = replicate 1024 0; stale = []; stack = [] }

abbrev asks : List ℕ
asks = 1 ∷ replicate 31 0

-- A sniffer in its start state, running.
abbrev up : Sniffer
up = record (constructed 0) { running = true }

-- The keep-alive of the first client is answered to the other one, although a third sends no bytes
-- behind it.
command_answered_example :
    (datagram : List ℕ) × (g : Gateway) × (raw_command cmd_keep_alive_to_sniffer asks
      ≡ some datagram)
    × (serves
          (sort_rules false)
          (λ text. none)
          none
          moment
          (arrive_all
            ((first_client, datagram) ∷ (other_client, 1 ∷ []) ∷ (third_client, []) ∷ [])
            (linked up service used))
        ≡ some (
          g,
          map
              (output 7 (reply_address service other_client))
              (on_command_received
                (sort_rules false)
                cmd_keep_alive_to_sniffer
                asks
                5
                6
                (replicate 1024 0)
                up).1,
        ))
    × (g.sniffer
        ≡ (on_command_received
            (sort_rules false)
            cmd_keep_alive_to_sniffer
            asks
            5
            6
            (replicate 1024 0)
            up).0)
command_answered_example =
    command_answered (sort_rules false) (λ text. none) none moment 7 cmd_keep_alive_to_sniffer asks
      first_client ((other_client, 1 ∷ []) ∷ (third_client, []) ∷ []) up service used refl
      used-IsEmptied (omega arith) refl (omega arith) (omega arith)

-- A client that wants logging, and one address.
abbrev wants_logging : Client
unfolding client
wants_logging = record (client 1000) { desired_logging_state = true }

keep_alive_round_trip_example :
    (asking : List ℕ) × (answering : List ℕ) × (payload : List ℕ) × (g : Gateway) × (raw_command
        cmd_keep_alive_to_sniffer
        (keep_alive_payload wants_logging)
      ≡ some asking)
    × (serves
          (sort_rules false)
          (λ text. none)
          none
          moment
          (arrive_all ((first_client, asking) ∷ []) (linked up service used))
        ≡ some (
          g,
          (if bool_eq false true
                then []
                else called (update_status "Logging Active [Setting]" (text "ON")) ∷ [])
              ++ (sent (sendto 7 answering (reply_address service first_client)) ∷ []),
        ))
    × (g.sniffer.external_service_logging ≡ true)
    × (process_packet true (received answering ++ (9 ∷ [])) (length (received answering))
        ≡ delivered (on_command cmd_keep_alive_from_sniffer moment.time payload ∷ []))
    × (receive_command cmd_keep_alive_from_sniffer moment.time payload 77 wants_logging
        ≡ record wants_logging {
          is_connected = true;
          last_recv_time = 77;
          last_sniffer_status = c_string moment.status;
        })
unfolding constructed wants_logging
keep_alive_round_trip_example =
    keep_alive_round_trip (sort_rules false) (λ text. none) none moment 7 77 first_client (9 ∷ [])
      wants_logging up service used refl used-IsEmptied refl (omega arith) (omega arith)
