-- ===== src/Protocol/Tcp.antt =====
-- TcpCanbusCommunication::processBuffer (src/communication/TcpCanbusCommunication.cpp). `mem` is the
-- memory from the buffer's first byte on, `len` the buffer's length; messages to stderr are left out.
use ksg_canbus_rpi_sniffer.Prelude.{
  ℕ, Bool, ◌&&◌, List, [], ◌∷◌, ltb, leb, ◌==◌, if◌then◌else◌, take,
}
use ksg_canbus_rpi_sniffer.Protocol.Message.{
  MessageV1, view_v1, magic_v1, magic_canfd, strncmp_eq, message_size, sizeof_message,
  data_capacity, sizeof_canfd_message, cmd_canbus_data, Callback, on_command, on_data, Outcome,
  delivered, dropped, too_small, incomplete_header, too_large, invalid_size, incomplete_canfd,
  unknown_magic,
}

-- The calls for an accepted message: CAN data goes to the target listener only.
unfoldable pub notify_v1 : Bool → MessageV1 → List Callback
notify_v1 has_listener msg =
    if msg.command == cmd_canbus_data
    then on_data msg.payload ∷ []
    else if has_listener
    then on_command msg.command msg.time msg.payload ∷ []
    else []

-- A message with the magic key "v1.00".
unfoldable pub process_v1 : Bool → List ℕ → ℕ → Outcome
process_v1 has_listener mem len =
    let msg = view_v1 mem in
    if leb len sizeof_message
    then (if leb (message_size 0) len
        then (if leb msg.data_size data_capacity && leb (message_size msg.data_size) len
            then delivered (notify_v1 has_listener msg)
            else dropped invalid_size)
        else dropped incomplete_header)
    else dropped too_large

-- A message with the magic key "canf".
unfoldable pub process_canfd : List ℕ → ℕ → Outcome
process_canfd mem len =
    if leb sizeof_canfd_message len
    then delivered (on_data (take sizeof_canfd_message mem) ∷ [])
    else dropped incomplete_canfd

unfoldable pub process_buffer : Bool → List ℕ → ℕ → Outcome
process_buffer has_listener mem len =
    if ltb len 4
    then dropped too_small
    else if strncmp_eq 5 mem magic_v1
    then process_v1 has_listener mem len
    else if strncmp_eq 4 mem magic_canfd
    then process_canfd mem len
    else dropped unknown_magic
