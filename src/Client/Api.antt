-- ===== src/Client/Api.antt =====
-- The life of SnifferClient, the commands that it sends, and the C functions on it
-- (external_server/src/sniffer_client.cpp). `none` as a datagram is a read outside the message
-- structure, as in raw_command.
use ksg_canbus_rpi_sniffer.Prelude.{
  ℕ, Bool, true, false, Option, none, some, List, [], ◌∷◌, ◌++◌, ltb, ◌==◌, if◌then◌else◌, length,
  take, replicate,
}
use ksg_canbus_rpi_sniffer.Prelude.Bytes.{le_bytes}
use ksg_canbus_rpi_sniffer.Text.{snprintf}
use ksg_canbus_rpi_sniffer.Filter.Rule.{CanFilterRule}
use ksg_canbus_rpi_sniffer.Protocol.Message.{
  fit, raw_command, cmd_canbus_to_system, cmd_canbus_to_car, cmd_logging_on, cmd_logging_off,
  cmd_set_filters,
}
use ksg_canbus_rpi_sniffer.Client.Receive.{Client}

-- What start and stop call, in order.
pub data Call : Type 0 where
  start_udp stop_udp start_keep_alive join_keep_alive delete_udp : Call

-- The constructor
unfoldable pub client : ℕ → Client
client keep_alive_interval = record {
  keep_alive_interval = keep_alive_interval;
  last_sent_time = 0;
  is_connected = false;
  last_recv_time = 0;
  desired_logging_state = false;
  last_sniffer_status = [];
  queue = [];
}

-- m_running, and whether m_keepAliveThread is joinable, beside the client's other members.
pub record Life : Type 0 where
  pub running : Bool
  pub keeps_alive : Bool

abbrev pub idle : Life
idle = record { running = false; keeps_alive = false }

-- start; the second argument is what m_udp->start() returned. The result is 0 or -1.
unfoldable pub start : Client → Bool → Life → Bool × Life × List Call
start c udp_started l =
    if l.running
    then (true, l, [])
    else if udp_started
    then (if ltb 0 c.keep_alive_interval
        then (
          true,
          record { running = true; keeps_alive = true },
          start_udp ∷ start_keep_alive ∷ [],
        )
        else (true, record l { running = true }, start_udp ∷ []))
    else (false, l, start_udp ∷ [])

unfoldable pub stop : Life → Life × List Call
stop l =
    if l.running
    then (if l.keeps_alive
        then (idle, stop_udp ∷ join_keep_alive ∷ [])
        else (record l { running = false }, stop_udp ∷ []))
    else (l, [])

-- sendRawCommand with updateLastSentTime; `sent` is the clock there.
unfoldable pub send_raw_command : ℕ → List ℕ → ℕ → Client → Client × Option (List ℕ)
send_raw_command command payload sent c =
    (record c { last_sent_time = sent }, raw_command command payload)

unfoldable pub set_logging_enabled : Bool → ℕ → Client → Client × Option (List ℕ)
unfolding send_raw_command
set_logging_enabled enable sent c =
    send_raw_command (if enable then cmd_logging_on else cmd_logging_off) [] sent
      (record c { desired_logging_state = enable })

-- getSnifferStatus into a buffer; `none` is the result 0.
unfoldable pub get_sniffer_status : ℕ → Client → Option (List ℕ)
get_sniffer_status buf_size c =
    if buf_size == 0 then none else some (snprintf buf_size c.last_sniffer_status)

-- client_send_injection; `bytes` are the `len` bytes at `data`.
unfoldable pub injection_command : ℕ → ℕ
injection_command target = if target == 1 then cmd_canbus_to_system else cmd_canbus_to_car

unfoldable pub injection_dlc : List ℕ → ℕ
injection_dlc bytes = if ltb 8 (length bytes) then 8 else length bytes

-- struct can_frame: the id, the DLC, three bytes that stay 0, and the data.
unfoldable pub injection_frame : ℕ → List ℕ → List ℕ
unfolding injection_dlc
injection_frame can_id bytes =
    le_bytes 4 can_id
    ++ (injection_dlc bytes ∷ 0 ∷ 0 ∷ 0 ∷ fit 8 (take (injection_dlc bytes) bytes))

unfoldable pub send_injection : ℕ → ℕ → List ℕ → ℕ → Client → Client × Option (List ℕ)
unfolding send_raw_command injection_command injection_frame
send_injection target can_id bytes sent c =
    send_raw_command (injection_command target) (injection_frame can_id bytes) sent c

-- client_create_rule
unfoldable pub create_rule : ℕ → ℕ → ℕ → ℕ → ℕ → ℕ → CanFilterRule
create_rule id action target data_index data_value data_mask = record {
  can_id = id;
  data_index = data_index;
  data_value = data_value;
  data_mask = data_mask;
  action_type = action;
  target = target;
  modification_data = replicate 8 0;
  modification_mask = replicate 8 0;
}

-- The array of rules as it stands in memory.
unfoldable pub encode_rule : CanFilterRule → List ℕ
encode_rule rule =
    le_bytes 4 rule.can_id
    ++ (rule.data_index
        ∷ rule.data_value
        ∷ rule.data_mask
        ∷ rule.action_type
        ∷ rule.target
        ∷ (rule.modification_data ++ rule.modification_mask))

unfoldable pub encode_rules : List CanFilterRule → List ℕ
unfolding encode_rule
encode_rules [] = []
encode_rules (rule ∷ rest) = encode_rule rule ++ encode_rules rest

-- client_set_filters
unfoldable pub set_filters : List CanFilterRule → ℕ → Client → Client × Option (List ℕ)
unfolding send_raw_command encode_rules
set_filters rules sent c = send_raw_command cmd_set_filters (encode_rules rules) sent c
