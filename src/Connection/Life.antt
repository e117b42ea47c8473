-- ===== src/Connection/Life.antt =====
-- The state of CommunicationObj and its calls. The derived class enters by what its open and read
-- return. A call is one step; stop joins its threads inside its step, and whether they end is the
-- matter of Shutdown.
use ksg_canbus_rpi_sniffer.Prelude.{
  ℕ, Bool, true, false, not, ◌&&◌, ◌||◌, Option, none, some, List, [], ◌∷◌, ◌++◌, if◌then◌else◌,
}
use ksg_canbus_rpi_sniffer.Cache.Ring
use ksg_canbus_rpi_sniffer.Cache.Ring.{Cache, Frame, init}

pub data CommunicationStatus : Type 0 where
  status_disconnected status_connecting status_connected status_error : CommunicationStatus

-- A std::thread: not joinable, in its loop, or out of its loop and not joined yet.
pub data Thread : Type 0 where
  not_joinable looping ended : Thread

pub record Communication : Type 0 where
  pub running : Bool
  pub reconnect_mode : Bool
  pub buffer_size : ℕ
  pub max_frame_size : ℕ
  pub cache_manager : Option Cache
  pub rx_thread : Thread
  pub worker_thread : Thread
  pub supervisor_thread : Thread

-- Calls of the listener and of the derived class, in order.
pub data Call : Type 0 where
  on_status_changed : CommunicationStatus → Call
  on_error : ℕ → Call
  unblock close : Call

unfoldable pub joinable : Thread → Bool
joinable not_joinable = false
joinable looping = true
joinable ended = true

-- `std::thread` is assigned to: on a joinable thread this ends the program.
unfoldable pub assign : Thread → Option Thread
assign not_joinable = some looping
assign looping = none
assign ended = none

-- CommunicationObj::CommunicationObj
unfoldable pub construct : ℕ → ℕ → Communication
construct buffer_size max_frame_size = record {
  running = false;
  reconnect_mode = false;
  buffer_size = buffer_size;
  max_frame_size = max_frame_size;
  cache_manager = none;
  rx_thread = not_joinable;
  worker_thread = not_joinable;
  supervisor_thread = not_joinable;
}

-- The part of start behind a successful open; `none` is the end of the program.
unfoldable pub start_threads :
    Communication → Option Thread → Option Thread → Option (Bool × Communication × List Call)
start_threads c none worker = none
start_threads c (some rx) none = none
start_threads c (some rx) (some worker) = some (
  true,
  record c {
    cache_manager = some (init c.buffer_size c.max_frame_size);
    running = true;
    rx_thread = rx;
    worker_thread = worker;
  },
  on_status_changed status_connected ∷ [],
)

-- `opened` is whether open() returned 0.
unfoldable pub start : Bool → Communication → Option (Bool × Communication × List Call)
unfolding start_threads assign
start opened c =
    if c.running
    then some (true, c, [])
    else if opened
    then start_threads c (assign c.rx_thread) (assign c.worker_thread)
    else some (false, c, [])

unfoldable pub stop : Communication → Communication × List Call
unfolding joinable
stop c =
    if not c.running && (not (joinable c.rx_thread) && not (joinable c.worker_thread))
    then (c, [])
    else (
      record c { running = false; rx_thread = not_joinable; worker_thread = not_joinable },
      (if c.running then on_status_changed status_disconnected ∷ [] else [])
          ++ (unblock ∷ close ∷ []),
    )

-- What read returned: bytes, 0, or an error code with its sign taken off.
pub data ReadResult : Type 0 where
  bytes_read : Frame → ReadResult
  nothing_read : ReadResult
  read_error : ℕ → ReadResult

unfoldable pub push_read : Frame → Communication → Option Cache → Communication
push_read frame c none = c
push_read frame c (some cache) = record c { cache_manager = some (Ring.push cache frame).1 }

unfoldable pub received : ReadResult → Communication → Communication × List Call
unfolding push_read
received (bytes_read frame) c = (push_read frame c c.cache_manager, [])
received nothing_read c = (c, [])
received (read_error code) c =
    if c.running
    then (
      record c { running = false; rx_thread = ended },
      on_error code ∷ on_status_changed status_error ∷ [],
    )
    else (c, [])

-- One round of rxThreadLoop, if the thread is in its loop.
unfoldable pub rx_in : Thread → ReadResult → Communication → Communication × List Call
unfolding received
rx_in not_joinable result c = (c, [])
rx_in ended result c = (c, [])
rx_in looping result c =
    if c.running then received result c else (record c { rx_thread = ended }, [])

unfoldable pub rx_round : ReadResult → Communication → Communication × List Call
unfolding rx_in
rx_round result c = rx_in c.rx_thread result c

-- workerThreadLoop ends once the connection does not run; its rounds before are those of Cache.Ring.
unfoldable pub worker_in : Thread → Communication → Communication
worker_in not_joinable c = c
worker_in ended c = c
worker_in looping c = if c.running then c else record c { worker_thread = ended }

unfoldable pub worker_exit : Communication → Communication
unfolding worker_in
worker_exit c = worker_in c.worker_thread c

unfoldable pub supervise : Communication → Option Thread → Option Communication
supervise c none = none
supervise c (some supervisor) =
    some (record c { reconnect_mode = true; supervisor_thread = supervisor })

unfoldable pub start_reconnectable_mode : Communication → Option Communication
unfolding assign supervise
start_reconnectable_mode c =
    if c.reconnect_mode then some c else supervise c (assign c.supervisor_thread)

unfoldable pub stop_reconnectable_mode : Communication → Communication × List Call
stop_reconnectable_mode c =
    if c.reconnect_mode
    then stop (record c { reconnect_mode = false; supervisor_thread = not_joinable })
    else (c, [])

-- The supervisor's round: nothing to do while the connection runs; else stop what is left of it and
-- start again.
unfoldable pub after_start :
    List Call → Option (Bool × Communication × List Call) → Option (Communication × List Call)
after_start before none = none
after_start before (some (ok, c, calls)) = some (c, before ++ calls)

unfoldable pub restart : Bool → Communication → Option (Communication × List Call)
unfolding after_start
restart opened c =
    let (stopped, calls) = stop c in
    after_start (calls ++ (on_status_changed status_connecting ∷ [])) (start opened stopped)

unfoldable pub supervisor_round : Bool → Communication → Option (Communication × List Call)
supervisor_round opened c =
    if c.reconnect_mode
    then (if c.running then some (c, []) else restart opened c)
    else some (c, [])

-- CommunicationObj::~CommunicationObj; `none` is the end of the program, by a thread that is destroyed
-- while it is joinable.
unfoldable pub destroy : Communication → Option (List Call)
unfolding joinable
destroy c =
    let (c', calls) = stop_reconnectable_mode c in
    if joinable c'.rx_thread || (joinable c'.worker_thread || joinable c'.supervisor_thread)
    then none
    else some calls
