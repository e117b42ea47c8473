-- ===== src/Connection/Shutdown.antt =====
-- The threads of CommunicationObj at the grain of its locks and of m_running: the worker thread inside
-- CacheManager::process, the RX thread inside rxThreadLoop, and a thread inside stop
-- (include/base/CommunicationObj.hpp). A step is one access of what they share.
pub mod Hang
pub mod Ends
pub mod Waits
mod Tests
use ksg_canbus_rpi_sniffer.Prelude.{
  ℕ, ◌+◌, Bool, true, false, not, ◌||◌, Option, none, some, List, [], ◌∷◌, ◌==◌, if◌then◌else◌,
}
use ksg_canbus_rpi_sniffer.Prelude.Steps.{steps}
use ksg_canbus_rpi_sniffer.Cache.Ring
use ksg_canbus_rpi_sniffer.Cache.Ring.{Cache, Frame, work, look, Reply, sees}
use ksg_canbus_rpi_sniffer.Connection.Life.{ReadResult, bytes_read, nothing_read, read_error}

-- Where the worker is in process. From `testing` to `taking` it holds m_mutex. The wait of the condition
-- variable is its predicate, at `testing`, and the block, which gives up the mutex: a notification wakes
-- who is `blocked`, and nobody else.
pub data WorkerAt : Type 0 where
  at_while at_lock testing before_block blocked woken taking : WorkerAt
  before_callback before_release finished : WorkerAt

-- Where the RX thread is in rxThreadLoop.
pub data RxAt : Type 0 where
  at_loop in_read : RxAt
  before_push : Frame → RxAt
  left : RxAt

-- Where a call of stop is. Both threads are joinable from `started` on, so that it does not return at
-- its first test; what it tells the listener is with Life.
pub data StopAt : Type 0 where
  at_turn_off at_notify at_unblock at_join_rx at_join_worker at_close returned : StopAt

pub record Threads : Type 0 where
  pub running : Bool
  pub cache : Cache
  pub heard : List Frame
  pub worker : WorkerAt
  pub rx : RxAt
  pub stopper : StopAt

unfoldable pub holds_mutex : WorkerAt → Bool
holds_mutex at_while = false
holds_mutex at_lock = false
holds_mutex testing = true
holds_mutex before_block = true
holds_mutex blocked = false
holds_mutex woken = false
holds_mutex taking = true
holds_mutex before_callback = false
holds_mutex before_release = false
holds_mutex finished = false

-- m_cond.notify_one or notify_all, with the one thread that waits.
unfoldable pub notify : WorkerAt → WorkerAt
notify at_while = at_while
notify at_lock = at_lock
notify testing = testing
notify before_block = before_block
notify blocked = woken
notify woken = woken
notify taking = taking
notify before_callback = before_callback
notify before_release = before_release
notify finished = finished

-- The callback reads the block in place.
unfoldable pub seen : Reply → List Frame → List Frame
seen (sees frame) heard = frame ∷ heard
seen (Reply.pushed b) heard = heard
seen Reply.waits heard = heard
seen Reply.exits heard = heard
seen Reply.begins heard = heard
seen Reply.ends heard = heard
seen Reply.idle heard = heard

-- A step of the worker. The RX thread holds m_mutex only inside one step, so it is free to take.
unfoldable pub worker_at : WorkerAt → Threads → Threads
unfolding work look seen
worker_at at_while s = record s { worker = if s.running then at_lock else finished }
worker_at at_lock s = record s { worker = testing }
worker_at testing s = record s {
  worker = if not (s.cache.head == s.cache.tail) || not s.running then taking else before_block;
}
worker_at before_block s = record s { worker = blocked }
worker_at blocked s = s
worker_at woken s = record s { worker = testing }
worker_at taking s =
    if s.running
    then record s { worker = before_callback; cache = (work true s.cache).1 }
    else record s { worker = finished }
worker_at before_callback s = record s {
  worker = before_release;
  heard = if s.running then seen (look s.cache) s.heard else s.heard;
}
worker_at before_release s = record s { worker = at_while; cache = (work s.running s.cache).1 }
worker_at finished s = s

-- A step of the RX thread; `result` is what read returns, if it is in read. A push waits for m_mutex.
unfoldable pub after_read : ReadResult → Threads → Threads
after_read (bytes_read frame) s = record s { rx = before_push frame }
after_read nothing_read s = record s { rx = at_loop }
after_read (read_error code) s =
    if s.running then record s { running = false; rx = left } else record s { rx = at_loop }

unfoldable pub pushed : Bool × Cache → Threads → Threads
unfolding notify
pushed (ok, cache) s = record s {
  cache = cache;
  worker = if ok then notify s.worker else s.worker;
  rx = at_loop;
}

unfoldable pub rx_at : RxAt → ReadResult → Threads → Threads
unfolding after_read pushed holds_mutex
rx_at at_loop result s = record s { rx = if s.running then in_read else left }
rx_at in_read result s = after_read result s
rx_at (before_push frame) result s =
    if holds_mutex s.worker then s else pushed (Ring.push s.cache frame) s
rx_at left result s = s

-- A step of stop. A join lasts until the thread has ended.
unfoldable pub has_left : RxAt → Bool
has_left at_loop = false
has_left in_read = false
has_left (before_push frame) = false
has_left left = true

unfoldable pub has_finished : WorkerAt → Bool
has_finished at_while = false
has_finished at_lock = false
has_finished testing = false
has_finished before_block = false
has_finished blocked = false
has_finished woken = false
has_finished taking = false
has_finished before_callback = false
has_finished before_release = false
has_finished finished = true

unfoldable pub stop_at : StopAt → Threads → Threads
unfolding notify has_left has_finished
stop_at at_turn_off s = record s { running = false; stopper = at_notify }
stop_at at_notify s = record s { worker = notify s.worker; stopper = at_unblock }
stop_at at_unblock s = record s { stopper = at_join_rx }
stop_at at_join_rx s = if has_left s.rx then record s { stopper = at_join_worker } else s
stop_at at_join_worker s = if has_finished s.worker then record s { stopper = at_close } else s
stop_at at_close s = record s { stopper = returned }
stop_at returned s = s

-- Whose step is next; a wait may also end by itself, as a std::condition_variable's may.
pub data Turn : Type 0 where
  works : Turn
  receives : ReadResult → Turn
  stops : Turn
  wakes : Turn

unfoldable pub turn : Turn → Threads → Threads
unfolding worker_at rx_at stop_at notify
turn works s = worker_at s.worker s
turn (receives result) s = rx_at s.rx result s
turn stops s = stop_at s.stopper s
turn wakes s = record s { worker = notify s.worker }

unfoldable pub turns : List Turn → Threads → Threads
unfolding turn
turns = steps turn

-- The threads that start has just made, and a call of stop.
unfoldable pub started : Cache → Threads
started cache = record {
  running = true;
  cache = cache;
  heard = [];
  worker = at_while;
  rx = at_loop;
  stopper = at_turn_off;
}
