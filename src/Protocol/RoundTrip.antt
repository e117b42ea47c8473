-- ===== src/Protocol/RoundTrip.antt =====
-- From SnifferClient::sendRawCommand through one datagram to UdpCanbusCommunication::processPacket.
use ksg_canbus_rpi_sniffer.Prelude.{
  ℕ, suc, ◌+◌, ◌%◌, ◌^◌, ◌≤◌, ◌<◌, ◌≡◌, refl, ◌∙◌, ap, Bool, true, false, some, List, [], ◌∷◌, ◌++◌,
  ◌&&◌, ltb, leb, if◌then◌else◌, ◌==◌, length, take, take-all, take-append_left, length-take,
  le→leb, leb-false, arith,
}
use ksg_canbus_rpi_sniffer.Prelude.Bytes.{field}
use ksg_canbus_rpi_sniffer.Protocol.Message.{
  view_v1, strncmp_eq, magic_v1, header, fit, raw_command, message_size, delivered, dropped,
  invalid_size, on_command, on_data, cmd_canbus_data,
}
use ksg_canbus_rpi_sniffer.Protocol.Udp.{process_packet, process_v1, notify_v1, received}

fit-all : (body : List ℕ) → fit (length body) body ≡ body
unfolding fit
fit-all [] = refl
fit-all (b ∷ bs) = ap (◌∷◌ b) (fit-all bs)

module _ (command time size : ℕ) (rest : List ℕ) where
  command-header : command < 2 ^ 32 → field 8 4 (header command time size rest) ≡ command
  unfolding header field
  command-header h = omega arith

  time-header : time < 2 ^ 64 → field 12 8 (header command time size rest) ≡ time
  unfolding header field
  time-header h = omega arith

  size-header : size < 2 ^ 32 → field 148 4 (header command time size rest) ≡ size
  unfolding header field
  size-header h = omega arith

  -- The message seen at a header with its fields filled in.
  pub view_v1-header :
      command < 2 ^ 32
      → time < 2 ^ 64
      → size < 2 ^ 32
      → view_v1 (header command time size rest)
        ≡ record { command = command; time = time; data_size = size; payload = take size rest }
  unfolding view_v1 header
  view_v1-header hc ht hs = rw (command-header hc, time-header ht, size-header hs)

  pub magic-header : strncmp_eq 5 (header command time size rest) magic_v1 ≡ true
  unfolding header strncmp_eq
  magic-header = refl

  process_packet-header :
      (has_listener : Bool) (len : ℕ)
      → 4 ≤ len
      → process_packet has_listener (header command time size rest) len
        ≡ process_v1 has_listener (header command time size rest) len
  unfolding process_packet
  process_packet-header has_listener len h =
      let long : ltb len 4 ≡ false = ground arith in rw (long, magic-header)

module _ (has_listener : Bool) (command time : ℕ) (in_word : command < 2 ^ 32)
    (in_double : time < 2 ^ 64) where
  -- What the receiver makes of a header for `size` bytes in a packet of `len` bytes.
  accept_header :
      (size len : ℕ) (rest : List ℕ)
      → size ≤ 64000
      → 152 ≤ len
      → len ≤ 64152
      → process_v1 has_listener (header command time size rest) len ≡ (
          if leb (message_size size) len
          then delivered (
              notify_v1 has_listener (record {
                command = command;
                time = time;
                data_size = size;
                payload = take size rest;
              }))
          else dropped invalid_size)
  unfolding process_v1
  accept_header size len rest hs lo hi = rw (
    view_v1-header command time size rest in_word (omega arith) (omega arith),
    le→leb len 64152 hi,
    le→leb 152 len lo,
    le→leb size 64000 hs,
  )

copied_payload :
    (payload : List ℕ)
    → length payload ≤ 64000
    → fit
        (length payload)
        (if ltb 0 (length payload) && leb (length payload) 64000 then payload else [])
      ≡ payload
unfolding fit
copied_payload [] h = refl
copied_payload (b ∷ bs) h =
    let filled : ltb 0 (suc (length bs)) ≡ true = ground arith in
    rw (filled, le→leb (suc (length bs)) 64000 h) (ap (◌∷◌ b) (fit-all bs))

pub raw_command-small :
    (command : ℕ) (payload : List ℕ)
    → length payload ≤ 64000
    → raw_command command payload ≡ some (header command 0 (length payload) payload)
unfolding raw_command
raw_command-small command payload h =
    let word : length payload % 2 ^ 32 ≡ length payload = omega arith in
    rw (word, le→leb (length payload) 64000 h)
      (rw (← le→leb (length payload) 64000 h)
        (ap (λ body. some (header command 0 (length payload) body)) (copied_payload payload h)))

received-header :
    (command time size : ℕ) (body : List ℕ)
    → received (header command time size body) ≡ header command time size (take 3944 body)
unfolding header
received-header command time size body = refl

pub length-header :
    (command time size : ℕ) (body : List ℕ)
    → length (header command time size body) ≡ 152 + length body
unfolding header
length-header command time size body = omega arith

-- What the receiver makes of a sent header and the part of the payload that its read keeps.
arrives :
    (has_listener : Bool) (command time size : ℕ) (body stale : List ℕ)
    → command < 2 ^ 32
    → time < 2 ^ 64
    → size ≤ 64000
    → process_packet has_listener
        (received (header command time size body) ++ stale)
        (length (received (header command time size body)))
      ≡ (if leb (message_size size) (152 + length (take 3944 body))
          then delivered (
              notify_v1 has_listener (record {
                command = command;
                time = time;
                data_size = size;
                payload = take size (take 3944 body ++ stale);
              }))
          else dropped invalid_size)
unfolding header
arrives has_listener command time size body stale hc ht hs =
    rw (length-header command time size (take 3944 body)) (
      process_packet-header command time size (take 3944 body ++ stale) has_listener
        (152 + length (take 3944 body)) (omega arith)
      ∙ accept_header has_listener command time hc ht size (152 + length (take 3944 body))
          (take 3944 body ++ stale) hs (omega arith) (omega (arith, length-take 3944 body)))

notify_v1-listener :
    (command time size : ℕ) (payload : List ℕ)
    → notify_v1 true
        (record { command = command; time = time; data_size = size; payload = payload })
      ≡ on_command command time payload
        ∷ (if command == cmd_canbus_data then on_data payload ∷ [] else [])
unfolding notify_v1
notify_v1-listener command time size payload = refl

-- A whole message with its time, as one datagram.
pub header_arrives :
    (command time : ℕ) (payload stale : List ℕ)
    → command < 2 ^ 32
    → time < 2 ^ 64
    → length payload ≤ 3944
    → process_packet true
        (received (header command time (length payload) payload) ++ stale)
        (length (received (header command time (length payload) payload)))
      ≡ delivered (
          on_command command time payload
          ∷ (if command == cmd_canbus_data then on_data payload ∷ [] else []))
header_arrives command time payload stale hc ht hl =
    arrives true command time (length payload) payload stale hc ht (omega arith)
    ∙ rw
        (
          take-all 3944 payload hl,
          le→leb (152 + length payload) (152 + length payload) (omega arith),
          take-append_left payload stale (length payload) refl,
        )
        (ap delivered (notify_v1-listener command time (length payload) payload))

-- A command with at most 3944 bytes of payload reaches the command listener of the other side as it
-- was given to the client, with time 0, whatever the receive block held before; the target listener
-- gets the payload too if the command is CMD_CANBUS_DATA.
pub process_packet-raw_command :
    (command : ℕ) (payload stale : List ℕ)
    → command < 2 ^ 32
    → length payload ≤ 3944
    → (datagram : List ℕ) × (raw_command command payload ≡ some datagram)
      × (process_packet true (received datagram ++ stale) (length (received datagram))
          ≡ delivered (
              on_command command 0 payload
              ∷ (if command == cmd_canbus_data then on_data payload ∷ [] else [])))
process_packet-raw_command command payload stale hc hl = (
  header command 0 (length payload) payload,
  raw_command-small command payload (omega arith),
  header_arrives command 0 payload stale hc (omega arith) hl,
)

-- A command with more payload than that, up to the 64000 bytes that the structure holds, is cut by
-- the receiver's 4096-byte read and dropped: no listener is called.
pub process_packet-raw_command_cut :
    (has_listener : Bool) (command : ℕ) (payload stale : List ℕ)
    → command < 2 ^ 32
    → 3944 < length payload
    → length payload ≤ 64000
    → (datagram : List ℕ) × (raw_command command payload ≡ some datagram)
      × (process_packet has_listener (received datagram ++ stale) (length (received datagram))
          ≡ dropped invalid_size)
process_packet-raw_command_cut has_listener command payload stale hc lo hi = (
  header command 0 (length payload) payload,
  raw_command-small command payload hi,
  arrives has_listener command 0 (length payload) payload stale hc (omega arith) hi
      ∙ rw (
          leb-false (message_size (length payload)) (152 + length (take 3944 payload))
            (omega (arith, length-take 3944 payload))),
)
