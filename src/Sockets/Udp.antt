-- ===== src/Sockets/Udp.antt =====
-- UdpCommunication (src/communication/UdpCommunication.cpp): whom it answers. A port is a number; htons
-- and ntohs only change its spelling.
use ksg_canbus_rpi_sniffer.Prelude.{
  ℕ, not, ◌&&◌, Option, none, some, List, [], ◌∷◌, ◌==◌, if◌then◌else◌, take,
}
use ksg_canbus_rpi_sniffer.Text.{is_empty, snprintf, codes}
use ksg_canbus_rpi_sniffer.Protocol.Message.{strncmp_eq}

pub record Address : Type 0 where
  pub ip : ℕ
  pub port : ℕ

pub record UdpCommunication : Type 0 where
  pub ip : List ℕ
  pub remote_port : ℕ
  pub local_port : ℕ
  pub socket_fd : Option ℕ
  pub last_sender : Option Address

-- The constructor; m_ip holds 64 bytes.
unfoldable pub construct : Option (List ℕ) → ℕ → ℕ → UdpCommunication
construct none remote_port local_port = record {
  ip = [];
  remote_port = remote_port;
  local_port = local_port;
  socket_fd = none;
  last_sender = none;
}
construct (some ip) remote_port local_port = record {
  ip = snprintf 64 ip;
  remote_port = remote_port;
  local_port = local_port;
  socket_fd = none;
  last_sender = none;
}

-- The answer of recvfrom: a sender with its datagram, which may have no bytes; 0 with no sender, behind
-- a shutdown; EINTR; or another error.
pub data Datagram : Type 0 where
  from : Address → List ℕ → Datagram
  empty interrupted failed : Datagram

-- What read returns: the bytes, or 0, or -1.
pub data ReadCode : Type 0 where
  bytes : List ℕ → ReadCode
  retry failure : ReadCode

unfoldable pub read_datagram : ℕ → Datagram → UdpCommunication → ReadCode × UdpCommunication
read_datagram max_len (from sender []) u = (retry, u)
read_datagram max_len (from sender (b ∷ datagram)) u =
    (bytes (take max_len (b ∷ datagram)), record u { last_sender = some sender })
read_datagram max_len empty u = (retry, u)
read_datagram max_len interrupted u = (retry, u)
read_datagram max_len failed u = (failure, u)

unfoldable pub read_open : Option ℕ → ℕ → Datagram → UdpCommunication → ReadCode × UdpCommunication
read_open none max_len answer u = (failure, u)
read_open (some fd) max_len answer u = read_datagram max_len answer u

unfoldable pub read : ℕ → Datagram → UdpCommunication → ReadCode × UdpCommunication
unfolding read_open read_datagram
read max_len answer u = read_open u.socket_fd max_len answer u

-- Where write sends to, if anywhere; `unknown` is an address that inet_pton refuses.
pub data Destination : Type 0 where
  to : Address → Destination
  nowhere_yet unknown : Destination

unfoldable pub parsed_destination : ℕ → Option ℕ → Destination
parsed_destination port none = unknown
parsed_destination port (some ip) = to (record { ip = ip; port = port })

-- What write hands to sendto, and what it returns: the count that sendto returns (`none` is -1).
pub data Sent : Type 0 where
  sendto : ℕ → List ℕ → Address → Sent

-- `inet_pton` is the library's: the address that a text spells, if it spells one.
module _ (inet_pton : List ℕ → Option ℕ) where
  unfoldable pub choose : Option Address → UdpCommunication → Destination
  unfolding parsed_destination
  choose none u =
      if not (is_empty u.ip)
        && (not (strncmp_eq 7 u.ip (codes "0.0.0.0")) && not (u.remote_port == 0))
      then parsed_destination u.remote_port (inet_pton u.ip)
      else nowhere_yet
  choose (some sender) u =
      to (record {
        ip = sender.ip;
        port = if u.remote_port == 0 then sender.port else u.remote_port;
      })

  unfoldable pub destination : UdpCommunication → Destination
  unfolding choose
  destination u = choose u.last_sender u

  unfoldable pub write_to : ℕ → Destination → List ℕ → Option ℕ → Option ℕ × List Sent
  write_to fd (to address) data' answer = (answer, sendto fd data' address ∷ [])
  write_to fd nowhere_yet data' answer = (some 0, [])
  write_to fd unknown data' answer = (none, [])

  unfoldable pub write_open : Option ℕ → UdpCommunication → List ℕ → Option ℕ → Option ℕ × List Sent
  write_open none u data' answer = (none, [])
  write_open (some fd) u data' answer = write_to fd (destination u) data' answer

  unfoldable pub write : UdpCommunication → List ℕ → Option ℕ → Option ℕ × List Sent
  unfolding write_open write_to
  write u data' answer = write_open u.socket_fd u data' answer

-- getLastSenderInfo, with both pointers given: the sender, or the empty text and port 0.
unfoldable pub last_sender_info : (ℕ → List ℕ) → UdpCommunication → List ℕ × ℕ
last_sender_info inet_ntop u = elim u.last_sender [
  | none ↦ ([], 0)
  | some sender ↦ (inet_ntop sender.ip, sender.port)
]
