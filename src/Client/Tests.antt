-- ===== src/Client/Tests.antt =====
-- The client's theorems at concrete messages.
use ksg_canbus_rpi_sniffer.Prelude.{
  leb, none, if◌then◌else◌, length, ℕ, ◌≡◌, refl, true, false, some, List, [], ◌∷◌, ◌++◌, replicate,
  arith,
}
use ksg_canbus_rpi_sniffer.Filter.Sorts.{sort_rules}
use ksg_canbus_rpi_sniffer.Filter.Engine.{init_internal, build}
use ksg_canbus_rpi_sniffer.Filter.Rule.{CanFilterRule, car_system}
use ksg_canbus_rpi_sniffer.Protocol.Message.{fit, cmd_set_filters, delivered, on_command}
use ksg_canbus_rpi_sniffer.Protocol.Udp.{process_packet, received}
use ksg_canbus_rpi_sniffer.Sniffer.State.{Sniffer, send_system, send_external}
use ksg_canbus_rpi_sniffer.Sniffer.Frames.{frame_id, frame_dlc, frame_data, log, log_command}
use ksg_canbus_rpi_sniffer.Sniffer.Commands.{on_command_received}
use ksg_canbus_rpi_sniffer.Client.Receive.{Client, is_report, receive_command}
use ksg_canbus_rpi_sniffer.Sockets.Udp.{construct}
use ksg_canbus_rpi_sniffer.Client.Receive.{update_last_recv_time}
use ksg_canbus_rpi_sniffer.Client.Handles.{Handle, client_read_message, message_read}
use ksg_canbus_rpi_sniffer.Client.Reading.{report_read}
use ksg_canbus_rpi_sniffer.Client.Queue.{Arrival}
use ksg_canbus_rpi_sniffer.Client.Api.{
  idle, injection_command, send_injection, create_rule, set_filters,
}
use ksg_canbus_rpi_sniffer.Client.Injection.{injection_arrives}
use ksg_canbus_rpi_sniffer.Client.Filters.{filters_arrive}
use ksg_canbus_rpi_sniffer.Client.Reports.{report_arrives}

abbrev fresh : Client
fresh = record {
  keep_alive_interval = 1000;
  last_sent_time = 0;
  is_connected = false;
  last_recv_time = 0;
  desired_logging_state = true;
  last_sniffer_status = [];
  queue = [];
}

abbrev report : Arrival
report = record { command = 0x2001; time = 5; bytes = 1 ∷ 2 ∷ []; now = 7 }

abbrev other : Arrival
other = record { command = 0x1004; time = 6; bytes = []; now = 8 }

abbrev quiet : Sniffer
quiet = record {
  running = true;
  external_service_logging = false;
  last_external_msg_time = 0;
  has_system_callback = false;
  external_service_connected = false;
  engine = init_internal;
}

injection_arrives_example :
    (datagram frame : List ℕ) × ((send_injection 1 0x123 (1 ∷ 2 ∷ []) 5 fresh).1 ≡ some datagram)
    × (process_packet true (received datagram ++ (9 ∷ [])) (length (received datagram))
        ≡ delivered (on_command 0x1002 0 frame ∷ []))
    × ((on_command_received (sort_rules false) 0x1002 frame 3 4 [] quiet).1
        ≡ send_system frame ∷ [])
    × (length frame ≡ 16)
    × (frame_id frame ≡ 0x123)
    × (frame_dlc frame ≡ 2)
    × (frame_data frame ≡ fit 8 (1 ∷ 2 ∷ []))
unfolding injection_command
injection_arrives_example =
    injection_arrives (sort_rules false) 1 0x123 5 3 4 (1 ∷ 2 ∷ []) (9 ∷ []) [] fresh quiet refl
      (omega arith)

abbrev block : CanFilterRule
block = create_rule 0x123 1 0 0 0 0

filters_arrive_example :
    (datagram payload : List ℕ) × ((set_filters (block ∷ []) 5 fresh).1 ≡ some datagram)
    × (process_packet true (received datagram ++ (9 ∷ [])) (length (received datagram))
        ≡ delivered (on_command cmd_set_filters 0 payload ∷ []))
    × ((on_command_received (sort_rules false) cmd_set_filters payload 3 4 [] quiet).0.engine
        ≡ build
            (sort_rules false (block ∷ []))
            0
            (record init_internal { rules = sort_rules false (block ∷ []) }))
unfolding create_rule
filters_arrive_example =
    filters_arrive (sort_rules false) (block ∷ []) 5 3 4 (9 ∷ []) [] fresh quiet refl
      ((omega arith, refl, refl), tt) (omega arith)

abbrev frame_buffer : List ℕ
frame_buffer = replicate 72 3

report_arrives_example :
    (message : List ℕ) × (log true car_system true 17 16 frame_buffer
      ≡ some (send_external message ∷ []))
    × (process_packet true (received message ++ (9 ∷ [])) (length (received message))
        ≡ delivered (on_command 0x2001 17 (replicate 16 3) ∷ []))
    × ((receive_command 0x2001 17 (replicate 16 3) 4 fresh).queue
        ≡ record { command = 0x2001; time_ms = 17; bytes = replicate 16 3 } ∷ [])
unfolding log_command
report_arrives_example =
    report_arrives car_system true 17 4 16 frame_buffer (9 ∷ []) fresh refl (omega arith) refl
      (omega arith)

abbrev handle : Handle
handle = record { client = fresh; life = idle; udp = construct none 9095 9096 }

-- A report of a 72-byte frame does not fit the 64 bytes that the header asks for.
report_read_example :
    client_read_message 64
      (some (record handle { client = receive_command 0x2001 5 frame_buffer 7 fresh }))
    ≡ (if leb (length frame_buffer) 64
        then some (
          message_read (record { command = 0x2001; time_ms = 5; bytes = frame_buffer }),
          some (record handle { client = record (update_last_recv_time 7 fresh) { queue = [] } }),
        )
        else none)
unfolding is_report
report_read_example = report_read 64 0x2001 5 7 frame_buffer handle refl refl (omega arith)
