-- ===== src/Connection/Shutdown/Waits.antt =====
-- A frame that is pushed is not slept over: push takes the mutex of CacheManager, so its notification
-- cannot come between the worker's test and its block.
use ksg_canbus_rpi_sniffer.Prelude.{◌≡◌, true, List, arith}
use ksg_canbus_rpi_sniffer.Prelude.Steps.{steps-keep}
use ksg_canbus_rpi_sniffer.Cache.Ring
use ksg_canbus_rpi_sniffer.Cache.Ring.{Cache, is_processing, work}
use ksg_canbus_rpi_sniffer.Connection.Shutdown.{
  Threads, Turn, turn, turns, started, worker_at, rx_at, stop_at, notify, after_read, pushed,
  has_left, has_finished, holds_mutex,
}
use ksg_canbus_rpi_sniffer.Connection.Shutdown.Hang.{waiting}

-- A worker that waits does so before an empty queue.
abbrev WaitsEmpty : Threads → Type 0
WaitsEmpty s = waiting s.worker ≡ true → s.cache.head ≡ s.cache.tail

turn-WaitsEmpty : (t : Turn) (s : Threads) → WaitsEmpty s → WaitsEmpty (turn t s)
unfolding turn worker_at rx_at stop_at after_read pushed notify waiting holds_mutex has_left
    has_finished Ring.push is_processing work
turn-WaitsEmpty t s h q = ground arith

started-WaitsEmpty : (cache : Cache) → WaitsEmpty (started cache)
unfolding started waiting
started-WaitsEmpty cache q = ground arith

-- Whatever steps the worker, the RX thread and a call of stop take from the start of the connection on:
-- where the worker is blocked, or about to block, the cache holds no frame.
pub waits_empty :
    (cache : Cache) (ts : List Turn)
    → waiting (turns ts (started cache)).worker ≡ true
    → (turns ts (started cache)).cache.head ≡ (turns ts (started cache)).cache.tail
unfolding turns
waits_empty cache ts q =
    steps-keep turn WaitsEmpty turn-WaitsEmpty ts (started cache) (started-WaitsEmpty cache) q
