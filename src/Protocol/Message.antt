-- ===== src/Protocol/Message.antt =====
-- The message structures and command ids of include/communication/CanbusProtocol.h, as the bytes that
-- stand in memory on a little-endian host. A `double` is carried as its 64-bit pattern.
use ksg_canbus_rpi_sniffer.Prelude.{
  ℕ, zero, suc, ◌+◌, ◌%◌, ◌^◌, Bool, true, false, ◌&&◌, Option, none, some, List, [], ◌∷◌, ◌++◌,
  ltb, leb, ◌==◌, if◌then◌else◌, length, take, drop, replicate,
}
use ksg_canbus_rpi_sniffer.Prelude.Bytes.{field, le_bytes}

abbrev pub cmd_canbus_data : ℕ
cmd_canbus_data = 0x1001

abbrev pub cmd_canbus_to_system : ℕ
cmd_canbus_to_system = 0x1002

abbrev pub cmd_canbus_to_car : ℕ
cmd_canbus_to_car = 0x1003

abbrev pub cmd_logging_on : ℕ
cmd_logging_on = 0x1004

abbrev pub cmd_logging_off : ℕ
cmd_logging_off = 0x1005

abbrev pub cmd_set_filters : ℕ
cmd_set_filters = 0x1006

abbrev pub cmd_set_params : ℕ
cmd_set_params = 0x1007

abbrev pub cmd_keep_alive_to_sniffer : ℕ
cmd_keep_alive_to_sniffer = 0x1008

abbrev pub cmd_get_params_req : ℕ
cmd_get_params_req = 0x1009

abbrev pub cmd_can_msg_from_system : ℕ
cmd_can_msg_from_system = 0x2001

abbrev pub cmd_can_msg_from_computer : ℕ
cmd_can_msg_from_computer = 0x2002

abbrev pub cmd_can_msg_blocked_from_system : ℕ
cmd_can_msg_blocked_from_system = 0x2003

abbrev pub cmd_can_msg_blocked_from_computer : ℕ
cmd_can_msg_blocked_from_computer = 0x2004

abbrev pub cmd_keep_alive_from_sniffer : ℕ
cmd_keep_alive_from_sniffer = 0x2005

abbrev pub cmd_get_params_res : ℕ
cmd_get_params_res = 0x2006

-- sizeof(ExternalMessageV1::data), sizeof(struct canfd_frame) and sizeof(ExternalCanfdMessage).
abbrev pub data_capacity : ℕ
data_capacity = 64000

abbrev pub sizeof_canfd_frame : ℕ
sizeof_canfd_frame = 72

abbrev pub sizeof_canfd_message : ℕ
sizeof_canfd_message = 76

-- calculateExternalMessageV1Size; the header takes 8 + 4 + 8 + 128 + 4 bytes.
abbrev pub message_size : ℕ → ℕ
message_size data_size = 152 + data_size

abbrev pub sizeof_message : ℕ
sizeof_message = message_size data_capacity

-- struct ExternalMessageV1: the fields that the program reads, `payload` for data[0 .. data_size).
pub record MessageV1 : Type 0 where
  pub command : ℕ
  pub time : ℕ
  pub data_size : ℕ
  pub payload : List ℕ

-- The structure that stands at a pointer into memory.
unfoldable pub view_v1 : List ℕ → MessageV1
unfolding field
view_v1 mem = record {
  command = field 8 4 mem;
  time = field 12 8 mem;
  data_size = field 148 4 mem;
  payload = take (field 148 4 mem) (drop 152 mem);
}

-- "v1.00" and "canf", with the byte 0 that ends a string literal.
abbrev pub magic_v1 : List ℕ
magic_v1 = b'v' ∷ b'1' ∷ b'.' ∷ b'0' ∷ b'0' ∷ 0 ∷ []

abbrev pub magic_canfd : List ℕ
magic_canfd = b'c' ∷ b'a' ∷ b'n' ∷ b'f' ∷ 0 ∷ []

-- strncmp(a, b, n) == 0. Where the memory at hand ends the strings count as different.
unfoldable pub strncmp_eq : ℕ → List ℕ → List ℕ → Bool
strncmp_eq zero a b = true
strncmp_eq (suc n) (x ∷ xs) (y ∷ ys) =
    if x == y then (if x == 0 then true else strncmp_eq n xs ys) else false
strncmp_eq (suc n) _ _ = false

-- The first n bytes of an array that holds `body` and zeros behind it.
unfoldable pub fit : ℕ → List ℕ → List ℕ
fit zero body = []
fit (suc n) [] = 0 ∷ fit n []
fit (suc n) (b ∷ bs) = b ∷ fit n bs

-- The header of a message that was cleared by memset and then filled in.
unfoldable pub header : ℕ → ℕ → ℕ → List ℕ → List ℕ
header command time data_size rest =
    b'v'
    ∷ b'1'
    ∷ b'.'
    ∷ b'0'
    ∷ b'0'
    ∷ 0
    ∷ 0
    ∷ 0
    ∷ (le_bytes 4 command
        ++ (le_bytes 8 time ++ (replicate 128 0 ++ (le_bytes 4 data_size ++ rest))))

-- What a listener is called with.
pub data Callback : Type 0 where
  on_command : ℕ → ℕ → List ℕ → Callback
  on_data : List ℕ → Callback

pub data Reason : Type 0 where
  too_small incomplete_header too_large invalid_size incomplete_canfd unknown_magic : Reason

pub data Outcome : Type 0 where
  delivered : List Callback → Outcome
  dropped : Reason → Outcome

abbrev pub callbacks : Outcome → List Callback
callbacks (delivered cs) = cs
callbacks (dropped r) = []

-- SnifferClient::sendRawCommand (external_server/src/sniffer_client.cpp): the datagram handed to
-- send, or `none` where send reads past the end of the message structure.
unfoldable pub raw_command : ℕ → List ℕ → Option (List ℕ)
raw_command command payload =
    let len = length payload in
    let data_size = len % 2 ^ 32 in
    let body = if ltb 0 len && leb len data_capacity then payload else [] in
    if leb data_size data_capacity
    then some (header command 0 data_size (fit data_size body))
    else none
