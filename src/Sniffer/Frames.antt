-- ===== src/Sniffer/Frames.antt =====
-- Sniffer::handleCanData: filter, forward and log one frame.
use ksg_canbus_rpi_sniffer.Prelude.{
  ℕ, Bool, true, false, Option, none, some, List, [], ◌∷◌, ◌++◌, ltb, leb, if◌then◌else◌, get_or,
  length, take, drop,
}
use ksg_canbus_rpi_sniffer.Prelude.Bytes.{field}
use ksg_canbus_rpi_sniffer.Filter.Rule.{Source, car_system, car_computer, external, Verdict}
use ksg_canbus_rpi_sniffer.Filter.Engine.{process}
use ksg_canbus_rpi_sniffer.Protocol.Message.{
  header, data_capacity, cmd_can_msg_from_system, cmd_can_msg_from_computer,
  cmd_can_msg_blocked_from_system, cmd_can_msg_blocked_from_computer,
}
use ksg_canbus_rpi_sniffer.Sniffer.State.{
  Sniffer, Effect, send_system, send_computer, send_external,
}

-- sizeof(buffer)
abbrev pub buffer_size : ℕ
buffer_size = 72

unfoldable pub copy_len : ℕ → ℕ → ℕ
copy_len length size = if ltb length size then length else size

-- The local buffer after the memcpy; `stack` is what its 72 bytes held before.
unfoldable pub local_buffer : List ℕ → List ℕ → List ℕ
unfolding copy_len
local_buffer bytes stack =
    let n = copy_len (length bytes) buffer_size in take n bytes ++ drop n stack

-- struct can_frame over the buffer: can_id at offset 0, can_dlc at 4, the data from 8 on.
unfoldable pub frame_id : List ℕ → ℕ
unfolding field
frame_id buffer = field 0 4 buffer

unfoldable pub frame_dlc : List ℕ → ℕ
frame_dlc buffer = get_or buffer 4 0

unfoldable pub frame_data : List ℕ → List ℕ
frame_data buffer = drop 8 buffer

unfoldable pub with_data : List ℕ → List ℕ → List ℕ
with_data buffer bytes = take 8 buffer ++ bytes

-- The other bus gets the first `n` bytes of the buffer.
unfoldable pub forward : Source → Bool → List ℕ → List Effect
forward car_system true bytes = send_computer bytes ∷ []
forward car_computer true bytes = send_system bytes ∷ []
forward external true bytes = []
forward source false bytes = []

-- The log command; memset leaves 0 for a source that has none.
unfoldable pub log_command : Source → Bool → ℕ
log_command car_system true = cmd_can_msg_from_system
log_command car_computer true = cmd_can_msg_from_computer
log_command car_system false = cmd_can_msg_blocked_from_system
log_command car_computer false = cmd_can_msg_blocked_from_computer
log_command external forwarded = 0

-- The log message of `length` bytes out of the 72-byte buffer; `none` where memcpy reads past it.
unfoldable pub log : Bool → Source → Bool → ℕ → ℕ → List ℕ → Option (List Effect)
log false source forwarded time length buffer = some []
log true source forwarded time length buffer =
    let n = copy_len length data_capacity in
    if leb n buffer_size
    then some (send_external (header (log_command source forwarded) time n (take n buffer)) ∷ [])
    else none

unfoldable pub append_log :
    Sniffer → List Effect → Option (List Effect) → Option (Sniffer × List Effect)
append_log s sent none = none
append_log s sent (some logged) = some (s, sent ++ logged)

-- Everything behind the filter's verdict.
unfoldable pub after_filter :
    Sniffer → Source → List ℕ → ℕ → List ℕ → Option Verdict → Option (Sniffer × List Effect)
unfolding append_log
after_filter s source bytes time buffer none = none
after_filter s source bytes time buffer (some (forwarded, payload)) =
    let buffer' = with_data buffer payload in
    let sent = forward source forwarded (take (copy_len (length bytes) buffer_size) buffer') in
    append_log s sent (log s.external_service_logging source forwarded time (length bytes) buffer')

-- A frame from a bus, while the sniffer runs.
unfoldable pub filter_frame :
    Sniffer → Source → List ℕ → ℕ → List ℕ → Option (Sniffer × List Effect)
filter_frame s source bytes time stack =
    let buffer = local_buffer bytes stack in
    after_filter s source bytes time buffer
      (process s.engine (frame_id buffer) (frame_data buffer) (frame_dlc buffer) source)

-- `now` is the clock, `time` the pattern of the milliseconds since the start; `none` is an access
-- outside the local buffer.
unfoldable pub handle_can_data :
    Source → List ℕ → ℕ → ℕ → List ℕ → Sniffer → Option (Sniffer × List Effect)
handle_can_data external bytes now time stack s =
    some (record s { last_external_msg_time = now }, [])
handle_can_data source bytes now time stack s =
    if s.running then filter_frame s source bytes time stack else some (s, [])
