-- ===== src/Gateway/Answers.antt =====
-- Whom the client's link answers: the sender of the last datagram that was read, which need not be the
-- one whose command is handled.
use ksg_canbus_rpi_sniffer.Prelude.{
  ℕ, ◌^◌, ◌<◌, ◌≤◌, ◌≡◌, refl, ap, sym, ◌∙◌, true, false, Option, some, List, [], ◌∷◌, ◌++◌, map,
  if◌then◌else◌, if-false, ◌==◌, length, arith,
}
use mathlib.Core.List.{append-nil}
use mathlib.Core.Option.{some-injective}
use ksg_canbus_rpi_sniffer.Filter.Rule.{CanFilterRule}
use ksg_canbus_rpi_sniffer.Protocol.Message.{
  raw_command, cmd_canbus_data, on_command, callbacks, delivered,
}
use ksg_canbus_rpi_sniffer.Protocol.Udp.{process_packet, received, max_frame_size}
use ksg_canbus_rpi_sniffer.Protocol.RoundTrip.{
  process_packet-raw_command, raw_command-small, length-header,
}
use ksg_canbus_rpi_sniffer.Cache.Ring.{
  Cache, Frame, work, look, sees, num_blocks_for, block_size_for,
}
use ksg_canbus_rpi_sniffer.Cache.Refine.{empty}
use ksg_canbus_rpi_sniffer.Cache.Rep.{Rep}
use ksg_canbus_rpi_sniffer.Sockets.Udp.{Address, UdpCommunication, sendto}
use ksg_canbus_rpi_sniffer.Sockets.Replies.{write_known}
use ksg_canbus_rpi_sniffer.Sniffer.State.{
  Sniffer, Effect, send_system, send_computer, send_external, update_status, system_command,
  start_system, start_computer, start_external, start_watchdog, join_watchdog, stop_system,
  stop_computer, stop_external, delete_system, delete_computer, delete_external,
}
use ksg_canbus_rpi_sniffer.Sniffer.Commands.{on_command_received}
use ksg_canbus_rpi_sniffer.Gateway.{
  Gateway, Output, sent, called, Moment, perform, perform_all, handle, listen_all, listen, and_then,
  serves, serve_block, finish,
}
use ksg_canbus_rpi_sniffer.Gateway.Queue.{
  arrive_all, arrive_all_lem, last_sender, frames_of, push_all, noted, first_seen,
}

-- The last sender of bytes in a burst that starts with bytes of `first`.
abbrev pub last_of : Address → List (Address × List ℕ) → Address
last_of first [] = first
last_of first ((sender, []) ∷ rest) = last_of first rest
last_of first ((sender, b ∷ datagram) ∷ rest) = last_of sender rest

last_sender-last_of :
    (first : Address) (others : List (Address × List ℕ))
    → last_sender (some first) others ≡ some (last_of first others)
last_sender-last_of first [] = refl
last_sender-last_of first ((sender, []) ∷ rest) = last_sender-last_of first rest
last_sender-last_of first ((sender, b ∷ datagram) ∷ rest) = last_sender-last_of sender rest

length-frames_of : (burst : List (Address × List ℕ)) → length (frames_of burst) ≤ length burst
length-frames_of [] = omega arith
length-frames_of ((sender, []) ∷ rest) = omega (arith, length-frames_of rest)
length-frames_of ((sender, b ∷ datagram) ∷ rest) = omega (arith, length-frames_of rest)

-- Where a reply to a sender goes: to its address, on the configured port, or on its own if that is 0.
abbrev pub reply_address : UdpCommunication → Address → Address
reply_address u sender = record {
  ip = sender.ip;
  port = if u.remote_port == 0 then sender.port else u.remote_port;
}

-- One datagram for each message to the client, and every other call as it is.
unfoldable pub output : ℕ → Address → Effect → Output
output fd address (send_external text) = sent (sendto fd text address)
output fd address effect = called effect

module _ (inet_pton : List ℕ → Option ℕ) (answer : Option ℕ) where
  perform_lem :
      (fd : ℕ) (sender : Address) (u : UdpCommunication) (effect : Effect)
      → u.socket_fd ≡ some fd
      → perform inet_pton answer (record u { last_sender = some sender }) effect
        ≡ output fd (reply_address u sender) effect ∷ []
  unfolding perform output
  perform_lem fd sender u (send_external text) held =
      ap (λ r. map sent r.1) (write_known inet_pton fd sender text answer u held)
  perform_lem fd sender u (send_system frame) held = refl
  perform_lem fd sender u (send_computer frame) held = refl
  perform_lem fd sender u (update_status key value) held = refl
  perform_lem fd sender u (system_command command text) held = refl
  perform_lem fd sender u start_system held = refl
  perform_lem fd sender u start_computer held = refl
  perform_lem fd sender u start_external held = refl
  perform_lem fd sender u start_watchdog held = refl
  perform_lem fd sender u join_watchdog held = refl
  perform_lem fd sender u stop_system held = refl
  perform_lem fd sender u stop_computer held = refl
  perform_lem fd sender u stop_external held = refl
  perform_lem fd sender u delete_system held = refl
  perform_lem fd sender u delete_computer held = refl
  perform_lem fd sender u delete_external held = refl

  perform_all_lem :
      (fd : ℕ) (sender : Address) (u : UdpCommunication) (effects : List Effect)
      → u.socket_fd ≡ some fd
      → perform_all inet_pton answer (record u { last_sender = some sender }) effects
        ≡ map (output fd (reply_address u sender)) effects
  unfolding perform_all
  perform_all_lem fd sender u [] held = refl
  perform_all_lem fd sender u (effect ∷ rest) held =
      rw (perform_lem fd sender u effect held) (
        ap (◌∷◌ (output fd (reply_address u sender) effect))
          (perform_all_lem fd sender u rest held))

-- A packet that calls the command listener once.
handle_command :
    (sort : List CanFilterRule → List CanFilterRule) (m : Moment) (frame payload : List ℕ)
    (command time : ℕ) (s : Sniffer)
    → process_packet true (frame ++ m.stale) (length frame)
      ≡ delivered (on_command command time payload ∷ [])
    → handle sort m frame s
      ≡ some (on_command_received sort command payload m.now m.time m.status s)
unfolding handle listen_all listen and_then
handle_command sort m frame payload command time s e =
    ap (λ o. listen_all sort m (callbacks o) s) e
    ∙ ap some (
        ap (λ es. ((on_command_received sort command payload m.now m.time m.status s).0, es))
          (append-nil _))

-- The link of a running service with its cache.
abbrev pub linked : Sniffer → UdpCommunication → Cache → Gateway
linked s u c = record { sniffer = s; external_service = u; cache = c; connected = true }

-- The caches, used or new, that hold no frame and whose worker is in no callback: they stand for the
-- empty buffer over the blocks of CommunicationObj's cache.
abbrev pub IsEmptied : Cache → Type 0
IsEmptied c = Rep c (empty 65536 max_frame_size)

-- A datagram of a command has bytes.
some_byte :
    (command : ℕ) (payload datagram : List ℕ)
    → length payload ≤ 64000
    → raw_command command payload ≡ some datagram
    → 0 < length datagram
some_byte command payload datagram short e = omega (
  arith,
  length-header command 0 (length payload) payload,
  ap length (some-injective _ _ (sym (raw_command-small command payload short) ∙ e)),
)

module _ (sort : List CanFilterRule → List CanFilterRule) (inet_pton : List ℕ → Option ℕ)
    (answer : Option ℕ) (m : Moment) where
  serves_seen :
      (frame : Frame) (effects : List Effect) (s : Sniffer) (g : Gateway)
      → g.connected ≡ true
      → look (work true g.cache).1 ≡ sees frame
      → handle sort m frame g.sniffer ≡ some (s, effects)
      → serves sort inet_pton answer m g
        ≡ some (
          record g { sniffer = s; cache = (work true (work true g.cache).1).1 },
          perform_all inet_pton answer g.external_service effects,
        )
  unfolding serves serve_block finish
  serves_seen frame effects s g up e h = rw (up, e, h) refl

  -- The first of a burst of frames is served while the sender of the last one is noted.
  burst_served :
      (fd : ℕ) (first : Address) (datagram : List ℕ) (others : List (Address × List ℕ))
      (s' s : Sniffer) (effects : List Effect) (u : UdpCommunication) (c : Cache)
      → u.socket_fd ≡ some fd
      → IsEmptied c
      → 0 < length datagram
      → length others ≤ 13
      → handle sort m (received datagram) s ≡ some (s', effects)
      → (g : Gateway) × (serves sort inet_pton answer m
            (arrive_all ((first, datagram) ∷ others) (linked s u c))
          ≡ some (g, map (output fd (reply_address u (last_of first others))) effects))
        × (g.sniffer ≡ s')
  unfolding num_blocks_for block_size_for
  burst_served fd first [] others s' s effects u c held emptied filled few h =
      absurd (omega (arith, filled))
  burst_served fd first (b ∷ bs) others s' s effects u c held emptied filled few h =
      let datagram = b ∷ bs in
      let burst = (first, datagram) ∷ others in
      let c' = push_all (frames_of burst) c in
      let after = noted (linked s u c) (some (last_of first others)) c' in
      let seen =
        first_seen (received datagram) (frames_of others) (empty 65536 max_frame_size) emptied refl
          refl (omega (arith, length-frames_of others)) in
      (
        record after { sniffer = s'; cache = (work true (work true c').1).1 },
        ap (serves sort inet_pton answer m) (
              arrive_all_lem fd burst u.last_sender c (linked s u c) refl held
              ∙ ap (λ known. noted (linked s u c) known c') (last_sender-last_of first others))
            ∙ serves_seen (received datagram) effects s' after refl seen h
            ∙ ap
                (λ out.
                  some (record after { sniffer = s'; cache = (work true (work true c').1).1 }, out))
                (perform_all_lem inet_pton answer fd (last_of first others) u effects held),
        refl,
      )

  -- A command below 2^32, other than CMD_CANBUS_DATA, with at most 3944 bytes of payload, sent by
  -- sendRawCommand from an address to a sniffer whose service is up, with no frame in its cache and none
  -- in work, however the cache was used before; and up to 13 further datagrams from any senders, empty
  -- ones among them, that are read before the worker's next round: in that round the sniffer does what
  -- onCommandReceived does with the payload as it was given, and each message that it sends to the client
  -- goes in one sendto to the sender of the last of these datagrams that has bytes, on the configured
  -- port or, where that is 0, on this sender's own.
  pub command_answered :
      (fd command : ℕ) (payload : List ℕ) (first : Address) (others : List (Address × List ℕ))
      (s : Sniffer) (u : UdpCommunication) (c : Cache)
      → u.socket_fd ≡ some fd
      → IsEmptied c
      → command < 2 ^ 32
      → (command == cmd_canbus_data) ≡ false
      → length payload ≤ 3944
      → length others ≤ 13
      → (datagram : List ℕ) × (g : Gateway) × (raw_command command payload ≡ some datagram)
        × (serves sort inet_pton answer m (arrive_all ((first, datagram) ∷ others) (linked s u c))
            ≡ some (
              g,
              map
                  (output fd (reply_address u (last_of first others)))
                  (on_command_received sort command payload m.now m.time m.status s).1,
            ))
        × (g.sniffer ≡ (on_command_received sort command payload m.now m.time m.status s).0)
  command_answered fd command payload first others s u c held emptied word plain short few =
      let (datagram, encoded, arrived) =
        process_packet-raw_command command payload m.stale word short in
      let handled = on_command_received sort command payload m.now m.time m.status s in
      let one =
        arrived
        ∙ ap (λ rest. delivered (on_command command 0 payload ∷ rest)) (if-false _ _ _ plain) in
      let (g, served, kept) =
        burst_served fd first datagram others handled.0 s handled.1 u c held emptied
          (some_byte command payload datagram (omega arith) encoded) few
          (handle_command sort m (received datagram) payload command 0 s one) in
      (datagram, g, encoded, served, kept)
