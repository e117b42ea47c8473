-- ===== src/Client/Receive.antt =====
-- The state of SnifferClient and its handlers. A message in the queue is its command, its time and the
-- bytes that its length counts.
use ksg_canbus_rpi_sniffer.Prelude.{
  ℕ, ◌*◌, ◌-◌, Bool, true, false, ◌||◌, ◌&&◌, Option, none, some, List, [], ◌∷◌, ◌++◌, ltb, leb,
  ◌==◌, if◌then◌else◌, length, take, drop, replicate,
}
use ksg_canbus_rpi_sniffer.Protocol.Message.{
  data_capacity, cmd_canbus_data, cmd_can_msg_from_system, cmd_can_msg_from_computer,
  cmd_can_msg_blocked_from_system, cmd_can_msg_blocked_from_computer, cmd_keep_alive_from_sniffer,
  cmd_get_params_res,
}
use ksg_canbus_rpi_sniffer.Text.{c_string}
use ksg_canbus_rpi_sniffer.Sniffer.Commands.{sizeof_keep_alive_response}

pub record QueuedMessage : Type 0 where
  pub command : ℕ
  pub time_ms : ℕ
  pub bytes : List ℕ

-- Clock readings are in milliseconds.
pub record Client : Type 0 where
  pub keep_alive_interval : ℕ
  pub last_sent_time : ℕ
  pub is_connected : Bool
  pub last_recv_time : ℕ
  pub desired_logging_state : Bool
  pub last_sniffer_status : List ℕ
  pub queue : List QueuedMessage

unfoldable pub update_last_recv_time : ℕ → Client → Client
update_last_recv_time now c = record c { is_connected = true; last_recv_time = now }

-- The commands that onCommandReceived puts into the queue.
unfoldable pub is_report : ℕ → Bool
is_report command =
    command == cmd_can_msg_from_system
    || command == cmd_can_msg_from_computer
    || command == cmd_can_msg_blocked_from_system
    || command == cmd_can_msg_blocked_from_computer
    || command == cmd_get_params_res

unfoldable pub queued : ℕ → ℕ → List ℕ → QueuedMessage
queued command time bytes = record {
  command = command;
  time_ms = time;
  bytes = if leb (length bytes) data_capacity then bytes else take data_capacity bytes;
}

-- The response's status text starts at offset 1 of the payload.
unfoldable pub keep_status : List ℕ → Client → Client
keep_status bytes c =
    if leb sizeof_keep_alive_response (length bytes)
    then record c { last_sniffer_status = c_string (drop 1 bytes) }
    else c

unfoldable pub receive_command : ℕ → ℕ → List ℕ → ℕ → Client → Client
receive_command command time bytes now c =
    let c' = update_last_recv_time now c in
    if command == cmd_keep_alive_from_sniffer
    then keep_status bytes c'
    else if is_report command
    then record c' { queue = c'.queue ++ (queued command time bytes ∷ []) }
    else c'

-- A raw CAN FD frame; other lengths only count as a sign of life.
unfoldable pub receive_data : List ℕ → ℕ → Client → Client
receive_data bytes now c =
    let c' = update_last_recv_time now c in
    if length bytes == 72
    then record c' { queue = c'.queue ++ (queued cmd_canbus_data 0 bytes ∷ []) }
    else c'

-- readMessage, with a message there or after its wait for one.
unfoldable pub read_message : Client → Option QueuedMessage × Client
read_message c = elim c.queue [
  | [] ↦ (none, c)
  | msg ∷ rest ↦ (some msg, record c { queue = rest })
]

-- One round of keepAliveLoop: the time-out, the payload of a keep-alive to send, and the sleep.
unfoldable pub check_time_out : ℕ → Client → Client
check_time_out now c =
    if c.is_connected && ltb (c.keep_alive_interval * 3) (now - c.last_recv_time)
    then record c { is_connected = false }
    else c

unfoldable pub keep_alive_payload : Client → List ℕ
keep_alive_payload c = (if c.desired_logging_state then 1 else 0) ∷ replicate 31 0

-- `sent` is the clock when sendRawCommand notes the time.
unfoldable pub keep_alive_round : ℕ → ℕ → Client → Client × Option (List ℕ) × ℕ
keep_alive_round now sent c =
    let c' = check_time_out now c in
    if leb c.keep_alive_interval (now - c.last_sent_time)
    then (record c' { last_sent_time = sent }, some (keep_alive_payload c), c.keep_alive_interval)
    else (c', none, c.keep_alive_interval - (now - c.last_sent_time))
