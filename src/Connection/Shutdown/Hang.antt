-- ===== src/Connection/Shutdown/Hang.antt =====
-- The notification that is lost: notifyStop does not take the mutex of CacheManager, so it can come
-- between the worker's test of the predicate and its block.
use ksg_canbus_rpi_sniffer.Prelude.{◌≡◌, ◌≢◌, Bool, true, false, ◌&&◌, List, [], ◌∷◌, arith}
use ksg_canbus_rpi_sniffer.Connection.Life.{bytes_read, nothing_read, read_error}
use ksg_canbus_rpi_sniffer.Connection.Shutdown.{
  Threads, WorkerAt, RxAt, StopAt, Turn, works, receives, stops, wakes, turn, turns, worker_at,
  rx_at, stop_at, notify, after_read, has_finished, at_while, at_lock, testing, before_block,
  blocked, woken, taking, before_callback, before_release, finished, at_loop, in_read, before_push,
  left, at_turn_off, at_notify, at_unblock, at_join_rx, at_join_worker, at_close, returned,
}

-- A turn in which read returns no bytes, and no wait ends by itself.
unfoldable pub silent : Turn → Bool
silent works = true
silent (receives (bytes_read frame)) = false
silent (receives nothing_read) = true
silent (receives (read_error code)) = true
silent stops = true
silent wakes = false

unfoldable pub all_silent : List Turn → Bool
unfolding silent
all_silent [] = true
all_silent (t ∷ ts) = silent t && all_silent ts

unfoldable pub waiting : WorkerAt → Bool
waiting at_while = false
waiting at_lock = false
waiting testing = false
waiting before_block = true
waiting blocked = true
waiting woken = false
waiting taking = false
waiting before_callback = false
waiting before_release = false
waiting finished = false

unfoldable quiet : RxAt → Bool
quiet at_loop = true
quiet in_read = true
quiet (before_push frame) = false
quiet left = true

unfoldable joining : StopAt → Bool
joining at_turn_off = false
joining at_notify = false
joining at_unblock = true
joining at_join_rx = true
joining at_join_worker = true
joining at_close = false
joining returned = false

and_left : (a b : Bool) → a && b ≡ true → a ≡ true
and_left a b h = ground arith

and_right : (a b : Bool) → a && b ≡ true → b ≡ true
and_right a b h = ground arith

abbrev Hung : Threads → Type 0
Hung s =
    (s.running ≡ false)
    × (waiting s.worker ≡ true)
    × (quiet s.rx ≡ true)
    × (joining s.stopper ≡ true)

turn-Hung : (t : Turn) (s : Threads) → silent t ≡ true → Hung s → Hung (turn t s)
unfolding turn silent worker_at waiting quiet rx_at stop_at after_read joining has_finished
turn-Hung t s q h = ground arith

turns-Hung : (ts : List Turn) (s : Threads) → all_silent ts ≡ true → Hung s → Hung (turns ts s)
unfolding turns all_silent
turns-Hung [] s q h = h
turns-Hung (t ∷ ts) s q h =
    turns-Hung ts (turn t s) (and_right (silent t) (all_silent ts) q)
      (turn-Hung t s (and_left (silent t) (all_silent ts) q) h)

-- A thread about to block hears nothing of the two steps of stop, which leave stop joining it.
caught-Hung :
    (s : Threads)
    → s.worker ≡ before_block
    → s.rx ≡ in_read
    → s.stopper ≡ at_turn_off
    → Hung (turns (stops ∷ stops ∷ []) s)
unfolding turns turn stop_at notify waiting quiet joining
caught-Hung s w r e = ground arith

-- A worker that has found the queue empty and the connection running, and has not blocked yet, when
-- stop turns m_running off and notifies: with the RX thread in a read that brings no more bytes, and no
-- wake-up that comes by itself, whatever the threads do from there, stop does not return.
pub stop_hangs :
    (s : Threads) (ts : List Turn)
    → s.worker ≡ before_block
    → s.rx ≡ in_read
    → s.stopper ≡ at_turn_off
    → all_silent ts ≡ true
    → (turns ts (turns (stops ∷ stops ∷ []) s)).stopper ≢ returned
unfolding joining
stop_hangs s ts w r e q k =
    let (x, y, z, j) = turns-Hung ts (turns (stops ∷ stops ∷ []) s) q (caught-Hung s w r e) in
    ground arith
