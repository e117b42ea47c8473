-- ===== src/Client/Injection.antt =====
-- client_send_injection on the sniffer's side of the wire.
use ksg_canbus_rpi_sniffer.Prelude.{
  ℕ, zero, suc, ◌^◌, ◌<◌, ◌≡◌, refl, ap, ◌∙◌, true, false, Bool-cases, inl, inr, some, List, [],
  ◌∷◌, ◌++◌, ltb, ◌==◌, if◌then◌else◌, if-true, if-false, min, length, take, take-all, arith,
}
use ksg_canbus_rpi_sniffer.Prelude.Bytes.{field}
use ksg_canbus_rpi_sniffer.Filter.Rule.{CanFilterRule}
use ksg_canbus_rpi_sniffer.Protocol.Message.{fit, delivered, on_command, cmd_canbus_data}
use ksg_canbus_rpi_sniffer.Protocol.Udp.{process_packet, received}
use ksg_canbus_rpi_sniffer.Protocol.RoundTrip.{process_packet-raw_command}
use ksg_canbus_rpi_sniffer.Sniffer.State.{Sniffer, Effect, send_system, send_computer}
use ksg_canbus_rpi_sniffer.Sniffer.Frames.{frame_id, frame_dlc, frame_data}
use ksg_canbus_rpi_sniffer.Sniffer.Commands.{on_command_received, dispatch}
use ksg_canbus_rpi_sniffer.Client.Receive.{Client}
use ksg_canbus_rpi_sniffer.Client.Api.{
  injection_command, injection_dlc, injection_frame, send_injection, send_raw_command,
}

length-fit : (n : ℕ) (body : List ℕ) → length (fit n body) ≡ n
unfolding fit
length-fit zero body = refl
length-fit (suc n) [] = ap suc (length-fit n [])
length-fit (suc n) (b ∷ body) = ap suc (length-fit n body)

length-injection_frame : (can_id : ℕ) (bytes : List ℕ) → length (injection_frame can_id bytes) ≡ 16
unfolding injection_frame
length-injection_frame can_id bytes = omega (arith, length-fit 8 (take (injection_dlc bytes) bytes))

injection_id :
    (can_id : ℕ) (bytes : List ℕ)
    → can_id < 2 ^ 32
    → frame_id (injection_frame can_id bytes) ≡ can_id
unfolding injection_frame frame_id field
injection_id can_id bytes h = omega arith

injection_dlc_lem :
    (can_id : ℕ) (bytes : List ℕ) → frame_dlc (injection_frame can_id bytes) ≡ min 8 (length bytes)
unfolding injection_frame injection_dlc frame_dlc
injection_dlc_lem can_id bytes = ground arith

fit-take : (n : ℕ) (bytes : List ℕ) → fit n (take n bytes) ≡ fit n bytes
unfolding fit
fit-take zero bytes = refl
fit-take (suc n) [] = refl
fit-take (suc n) (b ∷ bytes) = ap (◌∷◌ b) (fit-take n bytes)

injection_data :
    (can_id : ℕ) (bytes : List ℕ) → frame_data (injection_frame can_id bytes) ≡ fit 8 bytes
unfolding injection_frame injection_dlc frame_data
injection_data can_id bytes = elim (Bool-cases (ltb 8 (length bytes))) [
  | inl e ↦ rw e (fit-take 8 bytes)
  | inr e ↦ rw e (ap (fit 8) (take-all (length bytes) bytes (omega arith)))
]

-- On a running sniffer, a frame for one of the buses goes out on that bus, past the filter.
injected :
    (sort : List CanFilterRule → List CanFilterRule) (target now time : ℕ) (frame status : List ℕ)
    (s : Sniffer)
    → s.running ≡ true
    → (on_command_received sort (injection_command target) frame now time status s).1
      ≡ (if target == 1 then send_system frame else send_computer frame) ∷ []
unfolding on_command_received dispatch injection_command
injected sort target now time frame status s up = elim (Bool-cases (target == 1)) [
  | inl e ↦ rw e (ap (λ (r : Sniffer × List Effect). r.1) (if-true s.running _ _ up))
  | inr e ↦ rw e (ap (λ (r : Sniffer × List Effect). r.1) (if-true s.running _ _ up))
]

injection_command-small : (target : ℕ) → injection_command target < 2 ^ 32
unfolding injection_command
injection_command-small target = ground arith

not_canbus_data : (target : ℕ) → (injection_command target == cmd_canbus_data) ≡ false
unfolding injection_command
not_canbus_data target = ground arith

-- client_send_injection for a 32-bit id, as one datagram to a running sniffer: the sniffer's listener
-- gets one command, and it sends one 16-byte frame with this id, past the filter, to the car system if
-- the target is 1 and to the car computer if not. The frame's DLC is the number of bytes given, 8 at
-- most, and its eight data bytes are those bytes, cut or with zeros behind.
pub injection_arrives :
    (sort : List CanFilterRule → List CanFilterRule) (target can_id sent now time : ℕ)
    (bytes stale status : List ℕ) (c : Client) (s : Sniffer)
    → s.running ≡ true
    → can_id < 2 ^ 32
    → (datagram frame : List ℕ) × ((send_injection target can_id bytes sent c).1 ≡ some datagram)
      × (process_packet true (received datagram ++ stale) (length (received datagram))
          ≡ delivered (on_command (injection_command target) 0 frame ∷ []))
      × ((on_command_received sort (injection_command target) frame now time status s).1
          ≡ (if target == 1 then send_system frame else send_computer frame) ∷ [])
      × (length frame ≡ 16)
      × (frame_id frame ≡ can_id)
      × (frame_dlc frame ≡ min 8 (length bytes))
      × (frame_data frame ≡ fit 8 bytes)
unfolding send_injection send_raw_command
injection_arrives sort target can_id sent now time bytes stale status c s up in_word =
    let frame = injection_frame can_id bytes in
    let (datagram, encoded, arrived) =
      process_packet-raw_command (injection_command target) frame stale
        (injection_command-small target) (omega (arith, length-injection_frame can_id bytes)) in
    (
      datagram,
      frame,
      encoded,
      arrived
          ∙ ap (λ rest. delivered (on_command (injection_command target) 0 frame ∷ rest))
              (if-false (injection_command target == cmd_canbus_data) _ _ (not_canbus_data target)),
      injected sort target now time frame status s up,
      length-injection_frame can_id bytes,
      injection_id can_id bytes in_word,
      injection_dlc_lem can_id bytes,
      injection_data can_id bytes,
    )
