-- ===== src/Protocol/Agree.antt =====
-- The two dispatchers, over UDP and over TCP, beside each other.
use ksg_canbus_rpi_sniffer.Prelude.{
  ℕ, ◌≡◌, Bool, true, Option, none, some, List, leb, inl, inr, Bool-cases, if◌then◌else◌, ◌==◌,
  arith, [], ◌∷◌,
}
use ksg_canbus_rpi_sniffer.Protocol.Message.{
  on_command, on_data, Outcome, delivered, dropped, Reason, view_v1, cmd_canbus_data,
  sizeof_canfd_message,
}
use ksg_canbus_rpi_sniffer.Protocol.Udp
use ksg_canbus_rpi_sniffer.Protocol.Tcp

abbrev pub reason : Outcome → Option Reason
reason (delivered cs) = none
reason (dropped r) = some r

v1-reason :
    (has_listener : Bool) (mem : List ℕ) (len : ℕ)
    → reason (Udp.process_v1 has_listener mem len) ≡ reason (Tcp.process_v1 has_listener mem len)
unfolding Udp.process_v1 Tcp.process_v1
v1-reason has_listener mem len = ground arith

canfd-reason :
    (mem : List ℕ) (len : ℕ)
    → reason (Udp.process_canfd mem len) ≡ reason (Tcp.process_canfd mem len)
unfolding Udp.process_canfd Tcp.process_canfd
canfd-reason mem len = elim (Bool-cases (leb sizeof_canfd_message len)) [
  | inl e ↦ rw e
  | inr e ↦ rw e
]

-- Over UDP and TCP the same packets are accepted, and a dropped packet is dropped for the same
-- reason.
pub udp-tcp-reason :
    (has_listener : Bool) (mem : List ℕ) (len : ℕ)
    → reason (Udp.process_packet has_listener mem len)
      ≡ reason (Tcp.process_buffer has_listener mem len)
unfolding Udp.process_packet Tcp.process_buffer
udp-tcp-reason has_listener mem len =
    ground (arith, v1-reason has_listener mem len, canfd-reason mem len)

-- Of an accepted message that carries CAN data the UDP side tells both listeners, the TCP side the
-- data listener only; any other message goes to the command listener alone on both.
pub udp-tcp-notify :
    (mem : List ℕ)
    → let msg = view_v1 mem in
      let told = on_command msg.command msg.time msg.payload in
      let seen = on_data msg.payload in
      (Udp.notify_v1 true msg
        ≡ (if msg.command == cmd_canbus_data then told ∷ seen ∷ [] else told ∷ []))
      × (Tcp.notify_v1 true msg ≡ (if msg.command == cmd_canbus_data then seen ∷ [] else told ∷ []))
unfolding Udp.notify_v1 Tcp.notify_v1
udp-tcp-notify mem = ground arith
