-- ===== src/Sockets/Transfer.antt =====
-- The read functions of TcpCommunication and ObdCanbusCommunication, and the write functions that only
-- pass the count on.
use ksg_canbus_rpi_sniffer.Prelude.{ℕ, Option, none, some, List, take}
use ksg_canbus_rpi_sniffer.Sockets.Udp.{ReadCode, bytes, retry, failure}

-- The answer of recv or ::read.
pub data Answer : Type 0 where
  got : List ℕ → Answer
  closed_by_peer interrupted failed : Answer

unfoldable pub received : ℕ → Answer → ReadCode
received max_len (got data') = bytes (take max_len data')
received max_len closed_by_peer = failure
received max_len interrupted = retry
received max_len failed = failure

-- TcpCommunication::read
unfoldable pub tcp_read : Option ℕ → ℕ → Answer → ReadCode
unfolding received
tcp_read none max_len answer = failure
tcp_read (some fd) max_len answer = received max_len answer

-- The answer of poll.
pub data Poll : Type 0 where
  poll_interrupted poll_failed timed_out readable : Poll

-- ObdCanbusCommunication::read
unfoldable pub can_read : Option ℕ → Poll → ℕ → Answer → ReadCode
unfolding received
can_read none poll max_len answer = failure
can_read (some fd) poll_interrupted max_len answer = retry
can_read (some fd) poll_failed max_len answer = failure
can_read (some fd) timed_out max_len answer = retry
can_read (some fd) readable max_len answer = received max_len answer

-- TcpCommunication::write and ObdCanbusCommunication::write; `none` is -1.
unfoldable pub write : Option ℕ → Option ℕ → Option ℕ
write none answer = none
write (some fd) answer = answer

-- ObdCanbusCommunication::getMaxFrameSize
abbrev pub can_max_frame_size : ℕ
can_max_frame_size = 88
