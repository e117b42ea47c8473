-- ===== src/Gateway.antt =====
-- The client's link as a whole: the socket of UdpCommunication (src/communication), the rounds of its
-- two threads (include/base/CommunicationObj.hpp), UdpCanbusCommunication's processPacket, and the
-- handlers of Sniffer (src/sniffer/Sniffer.cpp) that the packets reach, with their answers on the same
-- socket.
pub mod Queue
pub mod Answers
pub mod RoundTrip
mod Tests
use ksg_canbus_rpi_sniffer.Prelude.{
  ℕ, Bool, true, false, Option, none, some, List, [], ◌∷◌, ◌++◌, map, if◌then◌else◌, length,
}
use ksg_canbus_rpi_sniffer.Filter.Rule.{CanFilterRule, external}
use ksg_canbus_rpi_sniffer.Protocol.Message.{Callback, on_command, on_data, callbacks}
use ksg_canbus_rpi_sniffer.Protocol.Udp.{process_packet, max_frame_size}
use ksg_canbus_rpi_sniffer.Cache.Ring
use ksg_canbus_rpi_sniffer.Cache.Ring.{Cache, Frame, Reply, work, look}
use ksg_canbus_rpi_sniffer.Sockets.Udp
use ksg_canbus_rpi_sniffer.Sockets.Udp.{
  UdpCommunication, Datagram, ReadCode, bytes, retry, failure, Sent, write,
}
use ksg_canbus_rpi_sniffer.Sniffer.State.{
  Sniffer, Effect, send_system, send_computer, send_external, update_status, system_command,
  start_system, start_computer, start_external, start_watchdog, join_watchdog, stop_system,
  stop_computer, stop_external, delete_system, delete_computer, delete_external,
}
use ksg_canbus_rpi_sniffer.Sniffer.Frames.{handle_can_data}
use ksg_canbus_rpi_sniffer.Sniffer.Commands.{on_command_received}

-- `connected` is m_running of the external service's CommunicationObj.
pub record Gateway : Type 0 where
  pub sniffer : Sniffer
  pub external_service : UdpCommunication
  pub cache : Cache
  pub connected : Bool

-- A datagram handed to sendto, or a call of another object.
pub data Output : Type 0 where
  sent : Sent → Output
  called : Effect → Output

-- What the worker's callback needs of the world: the clock, the time for a message, the status text, and
-- what the memory behind the block and the local buffer held.
pub record Moment : Type 0 where
  pub now : ℕ
  pub time : ℕ
  pub status : List ℕ
  pub stale : List ℕ
  pub stack : List ℕ

-- rxThreadLoop around UdpCommunication::read: a datagram goes into the cache, an error ends the loop.
unfoldable pub cached : ReadCode → Gateway → Gateway
cached (bytes frame) g = record g { cache = (Ring.push g.cache frame).1 }
cached retry g = g
cached failure g = record g { connected = false }

unfoldable pub arrives : Datagram → Gateway → Gateway
unfolding cached
arrives answer g =
    if g.connected
    then (let (code, service) = Udp.read max_frame_size answer g.external_service in
        cached code (record g { external_service = service }))
    else g

-- A handler's calls, with those of m_externalService->send as writes on the socket. Sniffer looks at no
-- result of send; `inet_pton` and `answer`, what sendto returns, are the system's.
module _ (inet_pton : List ℕ → Option ℕ) (answer : Option ℕ) where
  unfoldable pub perform : UdpCommunication → Effect → List Output
  perform u (send_external text) = map sent (write inet_pton u text answer).1
  perform u (send_system frame) = called (send_system frame) ∷ []
  perform u (send_computer frame) = called (send_computer frame) ∷ []
  perform u (update_status key value) = called (update_status key value) ∷ []
  perform u (system_command command text) = called (system_command command text) ∷ []
  perform u start_system = called start_system ∷ []
  perform u start_computer = called start_computer ∷ []
  perform u start_external = called start_external ∷ []
  perform u start_watchdog = called start_watchdog ∷ []
  perform u join_watchdog = called join_watchdog ∷ []
  perform u stop_system = called stop_system ∷ []
  perform u stop_computer = called stop_computer ∷ []
  perform u stop_external = called stop_external ∷ []
  perform u delete_system = called delete_system ∷ []
  perform u delete_computer = called delete_computer ∷ []
  perform u delete_external = called delete_external ∷ []

  unfoldable pub perform_all : UdpCommunication → List Effect → List Output
  unfolding perform
  perform_all u [] = []
  perform_all u (effect ∷ rest) = perform u effect ++ perform_all u rest

-- The listeners behind processPacket: the command listener is the sniffer, the target listener its
-- listener for SOURCE_EXTERNAL. `none` is an access outside the local buffer.
module _ (sort : List CanFilterRule → List CanFilterRule) (m : Moment) where
  unfoldable pub listen : Callback → Sniffer → Option (Sniffer × List Effect)
  listen (on_command command time payload) s =
      some (on_command_received sort command payload m.now m.time m.status s)
  listen (on_data payload) s = handle_can_data external payload m.now m.time m.stack s

  unfoldable pub and_then :
      List Effect → Option (Sniffer × List Effect) → Option (Sniffer × List Effect)
  and_then before none = none
  and_then before (some (s, effects)) = some (s, before ++ effects)

  unfoldable pub listen_all : List Callback → Sniffer → Option (Sniffer × List Effect)
  unfolding listen and_then
  listen_all [] s = some (s, [])
  listen_all (c ∷ rest) s = elim (listen c s) [
    | none ↦ none
    | some (s', effects) ↦ and_then effects (listen_all rest s')
  ]

  -- UdpCanbusCommunication::onDataReceived
  unfoldable pub handle : Frame → Sniffer → Option (Sniffer × List Effect)
  handle frame s = listen_all (callbacks (process_packet true (frame ++ m.stale) (length frame))) s

-- A round of the worker: take the oldest block, give it to the callback, release it.
module _ (sort : List CanFilterRule → List CanFilterRule) (inet_pton : List ℕ → Option ℕ)
    (answer : Option ℕ) where
  unfoldable pub finish : Gateway → Option (Sniffer × List Effect) → Option (Gateway × List Output)
  unfolding work
  finish g none = none
  finish g (some (s, effects)) = some (
    record g { sniffer = s; cache = (work true g.cache).1 },
    perform_all inet_pton answer g.external_service effects,
  )

  unfoldable pub serve_block : Moment → Reply → Gateway → Option (Gateway × List Output)
  unfolding finish
  serve_block m (Reply.sees frame) g = finish g (handle sort m frame g.sniffer)
  serve_block m (Reply.pushed b) g = some (g, [])
  serve_block m Reply.waits g = some (g, [])
  serve_block m Reply.exits g = some (g, [])
  serve_block m Reply.begins g = some (g, [])
  serve_block m Reply.ends g = some (g, [])
  serve_block m Reply.idle g = some (g, [])

  unfoldable pub serves : Moment → Gateway → Option (Gateway × List Output)
  unfolding serve_block work look
  serves m g =
      if g.connected
      then (let cache = (work true g.cache).1 in
          serve_block m (look cache) (record g { cache = cache }))
      else some (g, [])
