-- ===== src/Emulator/CanUtils.antt =====
-- The socket functions of the car system (emulators/car_system/src/can_utils.c). What the system calls
-- answer are arguments.
use ksg_canbus_rpi_sniffer.Prelude.{
  ℕ, Bool, Option, none, some, List, [], ◌∷◌, ◌++◌, ltb, if◌then◌else◌, length, take,
}
use ksg_canbus_rpi_sniffer.Prelude.Bytes.{le_bytes}
use ksg_canbus_rpi_sniffer.Protocol.Message.{fit}
use ksg_canbus_rpi_sniffer.Sniffer.Frames.{frame_id, frame_dlc, frame_data}

abbrev pub sizeof_can_frame : ℕ
sizeof_can_frame = 16

-- A call that takes a descriptor, as long as it is open.
pub data SocketCall : Type 0 where
  opened closed : ℕ → SocketCall

-- sizeof(ifr.ifr_name)
abbrev pub interface_size : ℕ
interface_size = 16

-- can_open_socket: the descriptor, or `none` for -1. The answers are the descriptor of socket, and whether
-- ioctl and bind succeeded. The result is `none` where strcpy writes behind ifr_name.
unfoldable pub can_open_socket :
    List ℕ → Option ℕ → Bool → Bool → Option (Option ℕ × List SocketCall)
can_open_socket interface_name none ioctl_ok bind_ok = some (none, [])
can_open_socket interface_name (some s) ioctl_ok bind_ok =
    if ltb (length interface_name) interface_size
    then some (
        if ioctl_ok
        then (if bind_ok then (some s, opened s ∷ []) else (none, opened s ∷ closed s ∷ []))
        else (none, opened s ∷ closed s ∷ []))
    else none

-- can_close_socket
unfoldable pub can_close_socket : Option ℕ → List SocketCall
can_close_socket none = []
can_close_socket (some s) = closed s ∷ []

-- A struct can_frame that was cleared and then filled in, as its bytes.
unfoldable pub can_frame : ℕ → ℕ → List ℕ → List ℕ
can_frame can_id dlc bytes = le_bytes 4 can_id ++ (dlc ∷ 0 ∷ 0 ∷ 0 ∷ fit 8 (take dlc bytes))

-- can_send_frame: the bytes that it writes; its result is whether write took them all.
unfoldable pub can_send_frame : ℕ → List ℕ → ℕ → List ℕ
unfolding can_frame
can_send_frame can_id bytes len = can_frame can_id (if ltb 8 len then 8 else len) bytes

-- can_read_frame: what poll answers, and then what read answers.
pub data Poll : Type 0 where
  interrupted failed timed_out other_event : Poll
  readable : Option (List ℕ) → Poll

pub data ReadFrame : Type 0 where
  no_frame read_failed : ReadFrame
  frame_read : ℕ → List ℕ → ℕ → ReadFrame

-- The kernel gives no classic frame a DLC above 8, the size of the caller's `data`.
unfoldable pub frame_of : List ℕ → ReadFrame
frame_of bytes =
    if ltb (length bytes) sizeof_can_frame
    then no_frame
    else frame_read (frame_id bytes) (take (frame_dlc bytes) (frame_data bytes)) (frame_dlc bytes)

unfoldable pub can_read_frame : Poll → ReadFrame
unfolding frame_of
can_read_frame interrupted = no_frame
can_read_frame failed = read_failed
can_read_frame timed_out = no_frame
can_read_frame other_event = no_frame
can_read_frame (readable none) = read_failed
can_read_frame (readable (some bytes)) = frame_of bytes
