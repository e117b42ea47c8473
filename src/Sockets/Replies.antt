-- ===== src/Sockets/Replies.antt =====
-- Whom UdpCommunication answers: the last sender, on the fixed port if there is one.
use ksg_canbus_rpi_sniffer.Prelude.{
  ℕ, ◌≡◌, refl, ap, ◌∙◌, Option, none, some, List, [], ◌∷◌, ◌==◌, if◌then◌else◌,
}
use ksg_canbus_rpi_sniffer.Text.{codes}
use ksg_canbus_rpi_sniffer.Protocol.Message.{strncmp_eq}
use ksg_canbus_rpi_sniffer.Sockets.Udp.{
  Address, UdpCommunication, construct, Datagram, from, empty, interrupted, failed, read, read_open,
  read_datagram, choose, destination, sendto, write, write_open, write_to,
}

-- A read that brings no bytes.
abbrev pub IsQuiet : Datagram → Type 0
IsQuiet (from sender []) = Unit
IsQuiet (from sender (b ∷ datagram)) = ⊥
IsQuiet empty = Unit
IsQuiet interrupted = Unit
IsQuiet failed = Unit

unfoldable pub read_all : ℕ → List Datagram → UdpCommunication → UdpCommunication
read_all max_len [] u = u
read_all max_len (answer ∷ rest) u = read_all max_len rest (read max_len answer u).1

abbrev pub AllQuiet : List Datagram → Type 0
AllQuiet [] = Unit
AllQuiet (answer ∷ rest) = IsQuiet answer × AllQuiet rest

read_open-quiet :
    (max_len : ℕ) (fd : Option ℕ) (answer : Datagram) (u : UdpCommunication)
    → IsQuiet answer
    → (read_open fd max_len answer u).1 ≡ u
unfolding read_open read_datagram
read_open-quiet max_len none answer u q = refl
read_open-quiet max_len (some fd) (from sender []) u q = refl
read_open-quiet max_len (some fd) (from sender (b ∷ datagram)) u q = absurd q
read_open-quiet max_len (some fd) empty u q = refl
read_open-quiet max_len (some fd) interrupted u q = refl
read_open-quiet max_len (some fd) failed u q = refl

read_all-quiet :
    (max_len : ℕ) (answers : List Datagram) (u : UdpCommunication)
    → AllQuiet answers
    → read_all max_len answers u ≡ u
unfolding read_all read
read_all-quiet max_len [] u q = refl
read_all-quiet max_len (answer ∷ rest) u q =
    ap (read_all max_len rest) (read_open-quiet max_len u.socket_fd answer u q.0)
    ∙ read_all-quiet max_len rest u q.1

read_from :
    (max_len fd b : ℕ) (sender : Address) (datagram : List ℕ) (u : UdpCommunication)
    → u.socket_fd ≡ some fd
    → (read max_len (from sender (b ∷ datagram)) u).1 ≡ record u { last_sender = some sender }
unfolding read read_open read_datagram
read_from max_len fd b sender datagram u held =
    ap (λ socket. (read_open socket max_len (from sender (b ∷ datagram)) u).1) held

module _ (inet_pton : List ℕ → Option ℕ) where
  pub write_known :
      (fd : ℕ) (sender : Address) (text : List ℕ) (answer : Option ℕ) (u : UdpCommunication)
      → u.socket_fd ≡ some fd
      → write inet_pton (record u { last_sender = some sender }) text answer ≡ (
        answer,
        sendto fd text (record {
          ip = sender.ip;
          port = if u.remote_port == 0 then sender.port else u.remote_port;
        })
            ∷ [],
      )
  unfolding write write_open write_to destination choose
  write_known fd sender text answer u held =
      ap
        (λ socket. write_open inet_pton socket (record u { last_sender = some sender }) text answer)
        held

  -- On an open socket, after a datagram with bytes and any number of reads that bring none, write
  -- sends its whole text in one call to the sender's address, on the configured remote port, or on
  -- the sender's own port where that is 0; and it returns what sendto returns.
  pub write-read :
      (max_len fd b : ℕ) (sender : Address) (datagram text : List ℕ) (answers : List Datagram)
      (answer : Option ℕ) (u : UdpCommunication)
      → u.socket_fd ≡ some fd
      → AllQuiet answers
      → write inet_pton (read_all max_len (from sender (b ∷ datagram) ∷ answers) u) text answer ≡ (
        answer,
        sendto fd text (record {
          ip = sender.ip;
          port = if u.remote_port == 0 then sender.port else u.remote_port;
        })
            ∷ [],
      )
  unfolding read_all
  write-read max_len fd b sender datagram text answers answer u held quiet =
      ap (λ v. write inet_pton v text answer)
        (ap (read_all max_len answers) (read_from max_len fd b sender datagram u held)
          ∙ read_all-quiet max_len answers (record u { last_sender = some sender }) quiet)
      ∙ write_known fd sender text answer u held

  -- Before anyone has sent a datagram, the sniffer's service, which is bound to 0.0.0.0, sends nothing
  -- and reports success.
  pub write_before_read :
      (max_len remote_port local_port : ℕ) (text : List ℕ) (answers : List Datagram)
      (answer : Option ℕ) (fd : ℕ)
      → AllQuiet answers
      → write inet_pton
          (read_all max_len answers
            (record (construct (some (codes "0.0.0.0")) remote_port local_port) {
              socket_fd = some fd;
            }))
          text
          answer
        ≡ (some 0, [])
  unfolding write write_open write_to destination choose construct strncmp_eq
  write_before_read max_len remote_port local_port text answers answer fd quiet = rw (
      read_all-quiet max_len answers
        (record (construct (some (codes "0.0.0.0")) remote_port local_port) { socket_fd = some fd })
        quiet)
