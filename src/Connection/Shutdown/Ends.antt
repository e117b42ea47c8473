-- ===== src/Connection/Shutdown/Ends.antt =====
-- The shutdown that ends: how many steps of each thread bring stop to its end, where the notification
-- is not lost.
use ksg_canbus_rpi_sniffer.Prelude.{ℕ, ◌-◌, ◌≤◌, ◌≡◌, ◌≢◌, Bool, true, false, List, arith}
use ksg_canbus_rpi_sniffer.Prelude.Steps.{count, steps-keep, steps-lower}
use ksg_canbus_rpi_sniffer.Connection.Shutdown.{
  Threads, WorkerAt, RxAt, StopAt, Turn, works, receives, stops, wakes, turn, turns, worker_at,
  rx_at, stop_at, notify, after_read, pushed, has_left, has_finished, holds_mutex, at_while,
  at_lock, testing, before_block, blocked, woken, taking, before_callback, before_release, finished,
  at_loop, in_read, before_push, left, at_turn_off, at_notify, at_unblock, at_join_rx,
  at_join_worker, at_close, returned,
}

-- The steps that a thread has left, once m_running is off and stop has notified.
unfoldable worker_left : WorkerAt → ℕ
worker_left finished = 0
worker_left at_while = 1
worker_left taking = 1
worker_left testing = 2
worker_left before_release = 2
worker_left at_lock = 3
worker_left woken = 3
worker_left before_callback = 3
worker_left before_block = 0
worker_left blocked = 0

unfoldable rx_left : RxAt → ℕ
rx_left left = 0
rx_left at_loop = 1
rx_left (before_push frame) = 2
rx_left in_read = 3

unfoldable stop_left : StopAt → ℕ
stop_left returned = 0
stop_left at_close = 1
stop_left at_join_worker = 2
stop_left at_join_rx = 3
stop_left at_unblock = 4
stop_left at_notify = 5
stop_left at_turn_off = 6

unfoldable awake : WorkerAt → Bool
awake finished = true
awake at_while = true
awake taking = true
awake testing = true
awake before_release = true
awake at_lock = true
awake woken = true
awake before_callback = true
awake before_block = false
awake blocked = false

-- How many turns of a list are the worker's, the RX thread's, and those of stop.
unfoldable pub one_works : Turn → ℕ
one_works works = 1
one_works (receives result) = 0
one_works stops = 0
one_works wakes = 0

unfoldable pub one_receives : Turn → ℕ
one_receives works = 0
one_receives (receives result) = 1
one_receives stops = 0
one_receives wakes = 0

unfoldable pub one_stops : Turn → ℕ
one_stops works = 0
one_stops (receives result) = 0
one_stops stops = 1
one_stops wakes = 0

abbrev Ending : Threads → Type 0
Ending s = (s.running ≡ false) × (awake s.worker ≡ true) × (stop_left s.stopper ≤ 4)

turn-Ending : (t : Turn) (s : Threads) → Ending s → Ending (turn t s)
unfolding turn worker_at rx_at stop_at after_read pushed notify awake stop_left holds_mutex has_left
    has_finished
turn-Ending t s h = ground arith

turn-worker :
    (t : Turn) (s : Threads)
    → Ending s
    → worker_left (turn t s).worker ≤ worker_left s.worker - one_works t
unfolding turn worker_at rx_at stop_at after_read pushed notify awake worker_left holds_mutex
    has_left has_finished one_works stop_left
turn-worker t s h = ground arith

turn-rx :
    (t : Turn) (s : Threads)
    → Ending s
    → worker_left s.worker ≡ 0
    → rx_left (turn t s).rx ≤ rx_left s.rx - one_receives t
unfolding turn worker_at rx_at stop_at after_read pushed notify awake worker_left rx_left
    holds_mutex has_left has_finished one_receives stop_left
turn-rx t s h w = ground arith

turn-stop :
    (t : Turn) (s : Threads)
    → Ending s
    → worker_left s.worker ≡ 0
    → rx_left s.rx ≡ 0
    → stop_left (turn t s).stopper ≤ stop_left s.stopper - one_stops t
unfolding turn worker_at rx_at stop_at after_read pushed notify awake worker_left rx_left
    holds_mutex has_left has_finished one_stops stop_left
turn-stop t s h w r = ground arith

abbrev WorkerGone : Threads → Type 0
WorkerGone s = Ending s × (worker_left s.worker ≡ 0)

abbrev BothGone : Threads → Type 0
BothGone s = WorkerGone s × (rx_left s.rx ≡ 0)

turn-WorkerGone : (t : Turn) (s : Threads) → WorkerGone s → WorkerGone (turn t s)
turn-WorkerGone t s (h, w) = (turn-Ending t s h, let low = turn-worker t s h in omega arith)

turn-BothGone : (t : Turn) (s : Threads) → BothGone s → BothGone (turn t s)
turn-BothGone t s ((h, w), r) =
    (turn-WorkerGone t s (h, w), let low = turn-rx t s h w in omega arith)

worker_left_le : (w : WorkerAt) → worker_left w ≤ 3
unfolding worker_left
worker_left_le w = ground arith

rx_left_le : (r : RxAt) → rx_left r ≤ 3
unfolding rx_left
rx_left_le r = ground arith

stop_left-returned : (k : StopAt) → stop_left k ≡ 0 → k ≡ returned
unfolding stop_left
stop_left-returned k h = ground arith

notified-Ending :
    (s : Threads)
    → s.running ≡ false
    → s.stopper ≡ at_notify
    → s.worker ≢ before_block
    → Ending (turn stops s)
unfolding turn stop_at notify awake stop_left
notified-Ending s r e w = ground arith

works_gone :
    (ts : List Turn) (s : Threads) → Ending s → 3 ≤ count one_works ts → WorkerGone (turns ts s)
unfolding turns
works_gone ts s h f =
    let measure = λ (x : Threads). worker_left x.worker in
    let low = steps-lower turn Ending turn-Ending one_works measure turn-worker ts s h in
    let most = worker_left_le s.worker in (steps-keep turn Ending turn-Ending ts s h, omega arith)

receives_gone :
    (ts : List Turn) (s : Threads)
    → WorkerGone s
    → 3 ≤ count one_receives ts
    → BothGone (turns ts s)
unfolding turns
receives_gone ts s h g =
    let measure = λ (x : Threads). rx_left x.rx in
    let lowers = λ (t : Turn) (x : Threads) (p : WorkerGone x). turn-rx t x p.0 p.1 in
    let low = steps-lower turn WorkerGone turn-WorkerGone one_receives measure lowers ts s h in
    let most = rx_left_le s.rx in (steps-keep turn WorkerGone turn-WorkerGone ts s h, omega arith)

stops_gone :
    (ts : List Turn) (s : Threads)
    → BothGone s
    → 4 ≤ count one_stops ts
    → (turns ts s).stopper ≡ returned
unfolding stop_left turns
stops_gone ts s ((h, w), r) k =
    let measure = λ (x : Threads). stop_left x.stopper in
    let lowers = λ (t : Turn) (x : Threads) (p : BothGone x). turn-stop t x p.0.0 p.0.1 p.1 in
    let low = steps-lower turn BothGone turn-BothGone one_stops measure lowers ts s ((h, w), r) in
    stop_left-returned (turns ts s).stopper (omega (arith, h.2))

-- From a state with m_running off in which stop is about to notify, and the worker is anywhere but between
-- its test of the predicate and its block: in any order of steps that holds three of the worker, then
-- three of the RX thread (each return of its read is one), then four of stop, with any other steps
-- between them, stop returns.
pub stop_returns :
    (s : Threads) (first second third : List Turn)
    → s.running ≡ false
    → s.stopper ≡ at_notify
    → s.worker ≢ before_block
    → 3 ≤ count one_works first
    → 3 ≤ count one_receives second
    → 4 ≤ count one_stops third
    → (turns third (turns second (turns first (turn stops s)))).stopper ≡ returned
stop_returns s first second third r e w f g k =
    stops_gone third (turns second (turns first (turn stops s)))
      (receives_gone second (turns first (turn stops s))
        (works_gone first (turn stops s) (notified-Ending s r e w) f) g)
      k
