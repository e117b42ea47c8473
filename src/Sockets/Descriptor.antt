-- ===== src/Sockets/Descriptor.antt =====
-- The member m_socketFd and the calls that change it. The answers of the operating system are
-- arguments; `none` is a descriptor below 0.
use ksg_canbus_rpi_sniffer.Prelude.{
  ℕ, Bool, true, false, Option, none, some, List, [], ◌∷◌, if◌then◌else◌,
}

-- Calls of the operating system, as far as they succeed.
pub data OsCall : Type 0 where
  opened closed shut_down : ℕ → OsCall

-- A later call of open has failed: ::close, and no descriptor.
abbrev pub give_up : ℕ → Bool × Option ℕ × List OsCall
give_up fd = (false, none, opened fd ∷ closed fd ∷ [])

abbrev pub keep_open : ℕ → Bool × Option ℕ × List OsCall
keep_open fd = (true, some fd, opened fd ∷ [])

-- UdpCommunication::open; the answers of socket and bind.
unfoldable pub udp_open : Option ℕ → Bool → Option ℕ → Bool × Option ℕ × List OsCall
udp_open answer bound (some fd) = (true, some fd, [])
udp_open none bound none = (false, none, [])
udp_open (some fd) bound none = if bound then keep_open fd else give_up fd

-- TcpCommunication::open; the answers of socket, inet_pton and connect.
unfoldable pub tcp_open : Option ℕ → Bool → Bool → Option ℕ → Bool × Option ℕ × List OsCall
tcp_open answer parsed connected (some fd) = (true, some fd, [])
tcp_open none parsed connected none = (false, none, [])
tcp_open (some fd) parsed connected none =
    if parsed then (if connected then keep_open fd else give_up fd) else give_up fd

-- ObdCanbusCommunication::open; the answers of socket, of the ioctl for the interface's index, and of
-- bind.
unfoldable pub can_open : Option ℕ → Bool → Bool → Option ℕ → Bool × Option ℕ × List OsCall
can_open answer found bound (some fd) = (true, some fd, [])
can_open none found bound none = (false, none, [])
can_open (some fd) found bound none =
    if found then (if bound then keep_open fd else give_up fd) else give_up fd

-- The three close functions
unfoldable pub close_socket : Option ℕ → Option ℕ × List OsCall
close_socket none = (none, [])
close_socket (some fd) = (none, closed fd ∷ [])

-- UdpCommunication::unblock and TcpCommunication::unblock
unfoldable pub unblock_socket : Option ℕ → Option ℕ × List OsCall
unblock_socket none = (none, [])
unblock_socket (some fd) = (some fd, shut_down fd ∷ [])

-- ObdCanbusCommunication::unblock
unfoldable pub can_unblock : Option ℕ → Option ℕ × List OsCall
can_unblock none = (none, [])
can_unblock (some fd) = (none, shut_down fd ∷ closed fd ∷ [])
