-- ===== src/Connection/Reports.antt =====
-- What the listener hears over a run of calls: the connections that it was told of, and their ends.
use ksg_canbus_rpi_sniffer.Prelude.{
  ℕ, ◌+◌, ◌≡◌, refl, ap, Bool, true, false, Option, none, some, List, [], ◌∷◌, ◌++◌, if◌then◌else◌,
  arith, if-either, subst,
}
use ksg_canbus_rpi_sniffer.Cache.Ring.{Cache, Frame}
use ksg_canbus_rpi_sniffer.Connection.Life.{
  Communication, Thread, not_joinable, looping, ended, Call, on_status_changed, on_error, unblock,
  close, status_connecting, status_connected, status_disconnected, status_error, construct, start,
  start_threads, stop, supervisor_round, restart, rx_round, ReadResult, bytes_read, nothing_read,
  read_error, received, push_read, worker_exit, rx_in, worker_in, supervise,
  start_reconnectable_mode, stop_reconnectable_mode,
}
use ksg_canbus_rpi_sniffer.Connection.Reconnect.{stop-halted, restart_lem}

-- Any call of the class, or a round of one of its threads, with the calls that it makes.
pub data Step : Communication → Communication → List Call → Type 0 where
  starts :
      (opened ok : Bool) {c c' : Communication} {calls : List Call}
      → start opened c ≡ some (ok, c', calls)
      → Step c c' calls
  stops : {c : Communication} → Step c (stop c).0 (stop c).1
  reads :
      (result : ReadResult) {c : Communication} → Step c (rx_round result c).0 (rx_round result c).1
  worker_exits : {c : Communication} → Step c (worker_exit c) []
  enters_mode : {c c' : Communication} → start_reconnectable_mode c ≡ some c' → Step c c' []
  leaves_mode :
      {c : Communication} → Step c (stop_reconnectable_mode c).0 (stop_reconnectable_mode c).1
  supervises :
      (opened : Bool) {c c' : Communication} {calls : List Call}
      → supervisor_round opened c ≡ some (c', calls)
      → Step c c' calls

pub data Run (buffer_size max_frame_size : ℕ) : Communication → List Call → Type 0 where
  begin : Run buffer_size max_frame_size (construct buffer_size max_frame_size) []
  after :
      {c c' : Communication} {before calls : List Call}
      → Run buffer_size max_frame_size c before
      → Step c c' calls
      → Run buffer_size max_frame_size c' (before ++ calls)

-- Reports of a connection, and reports of its end.
unfoldable pub opens : Call → ℕ
opens (on_status_changed status_connected) = 1
opens (on_status_changed status_disconnected) = 0
opens (on_status_changed status_connecting) = 0
opens (on_status_changed status_error) = 0
opens (on_error code) = 0
opens unblock = 0
opens close = 0

unfoldable pub ends : Call → ℕ
ends (on_status_changed status_connected) = 0
ends (on_status_changed status_disconnected) = 1
ends (on_status_changed status_connecting) = 0
ends (on_status_changed status_error) = 1
ends (on_error code) = 0
ends unblock = 0
ends close = 0

abbrev pub total : (Call → ℕ) → List Call → ℕ
total f [] = 0
total f (c ∷ rest) = f c + total f rest

abbrev pub open_now : Communication → ℕ
open_now c = if c.running then 1 else 0

total-append : (f : Call → ℕ) (xs ys : List Call) → total f (xs ++ ys) ≡ total f xs + total f ys
total-append f [] ys = omega arith
total-append f (x ∷ xs) ys = omega (arith, total-append f xs ys)

-- The calls of one step account for its change of m_running.
abbrev Balanced : Communication → Communication × List Call → Type 0
Balanced c (c', calls) = open_now c + total opens calls ≡ open_now c' + total ends calls

stop-Balanced : (c : Communication) → Balanced c (stop c)
unfolding stop opens ends
stop-Balanced c = ground arith

running-push_read :
    (frame : Frame) (c : Communication) (cache : Option Cache)
    → (push_read frame c cache).running ≡ c.running
unfolding push_read
running-push_read frame c none = refl
running-push_read frame c (some cache) = refl

received-Balanced : (result : ReadResult) (c : Communication) → Balanced c (received result c)
unfolding received opens ends
received-Balanced (bytes_read frame) c = rw (running-push_read frame c c.cache_manager)
received-Balanced nothing_read c = refl
received-Balanced (read_error code) c = ground arith

rx_in-Balanced :
    (t : Thread) (result : ReadResult) (c : Communication) → Balanced c (rx_in t result c)
unfolding rx_in
rx_in-Balanced not_joinable result c = refl
rx_in-Balanced ended result c = refl
rx_in-Balanced looping result c =
    if-either (Balanced c) c.running _ _ (λ up. received-Balanced result c) (λ down. refl)

worker_in-Balanced : (t : Thread) (c : Communication) → Balanced c (worker_in t c, [])
unfolding worker_in
worker_in-Balanced not_joinable c = refl
worker_in-Balanced ended c = refl
worker_in-Balanced looping c =
    if-either (λ c'. Balanced c (c', [])) c.running _ _ (λ up. refl) (λ down. refl)

-- The same for the results of the calls that may end the program.
StartBalanced : Communication → Option (Bool × Communication × List Call) → Type 0
StartBalanced c none = Unit
StartBalanced c (some (ok, c', calls)) = Balanced c (c', calls)

RoundBalanced : Communication → Option (Communication × List Call) → Type 0
RoundBalanced c none = Unit
RoundBalanced c (some r) = Balanced c r

ModeBalanced : Communication → Option Communication → Type 0
ModeBalanced c none = Unit
ModeBalanced c (some c') = Balanced c (c', [])

start_threads-Balanced :
    (c : Communication) (rx worker : Option Thread)
    → c.running ≡ false
    → StartBalanced c (start_threads c rx worker)
unfolding StartBalanced start_threads opens ends
start_threads-Balanced c none worker down = tt
start_threads-Balanced c (some rx) none down = tt
start_threads-Balanced c (some rx) (some worker) down = rw down

start-Balanced : (opened : Bool) (c : Communication) → StartBalanced c (start opened c)
unfolding StartBalanced start
start-Balanced opened c =
    if-either (StartBalanced c) c.running _ _ (λ up. refl)
      λ down.
        if-either (StartBalanced c) opened _ _ (λ e. start_threads-Balanced c _ _ down) (λ e. refl)

total-restart :
    (f : Call → ℕ) (stopped started : List Call)
    → total f ((stopped ++ (on_status_changed status_connecting ∷ [])) ++ started)
      ≡ total f stopped + f (on_status_changed status_connecting) + total f started
total-restart f stopped started = omega (
  arith,
  total-append f (stopped ++ (on_status_changed status_connecting ∷ [])) started,
  total-append f stopped (on_status_changed status_connecting ∷ []),
)

restart-Balanced :
    (opened : Bool) (c : Communication) → c.running ≡ false → RoundBalanced c (restart opened c)
unfolding RoundBalanced opens ends
restart-Balanced true c down = rw (restart_lem true c) (
    omega (
      arith,
      stop-Balanced c,
      ap open_now (stop-halted c),
      total-restart opens (stop c).1 (on_status_changed status_connected ∷ []),
      total-restart ends (stop c).1 (on_status_changed status_connected ∷ []),
    ))
restart-Balanced false c down = rw (restart_lem false c) (
    omega (
      arith,
      stop-Balanced c,
      ap open_now (stop-halted c),
      total-restart opens (stop c).1 ([]),
      total-restart ends (stop c).1 ([]),
    ))

supervisor_round-Balanced :
    (opened : Bool) (c : Communication) → RoundBalanced c (supervisor_round opened c)
unfolding RoundBalanced supervisor_round
supervisor_round-Balanced opened c =
    if-either (RoundBalanced c) c.reconnect_mode _ _
      (λ mode. if-either (RoundBalanced c) c.running _ _ (λ up. refl) (restart-Balanced opened c))
      (λ off. refl)

supervise-Balanced : (c : Communication) (t : Option Thread) → ModeBalanced c (supervise c t)
unfolding ModeBalanced supervise
supervise-Balanced c none = tt
supervise-Balanced c (some supervisor) = refl

start_reconnectable_mode-Balanced :
    (c : Communication) → ModeBalanced c (start_reconnectable_mode c)
unfolding ModeBalanced start_reconnectable_mode
start_reconnectable_mode-Balanced c =
    if-either (ModeBalanced c) c.reconnect_mode _ _ (λ on. refl) (λ off. supervise-Balanced c _)

stop_reconnectable_mode-Balanced : (c : Communication) → Balanced c (stop_reconnectable_mode c)
unfolding stop_reconnectable_mode
stop_reconnectable_mode-Balanced c =
    if-either (Balanced c) c.reconnect_mode _ _
      (λ on. stop-Balanced (record c { reconnect_mode = false; supervisor_thread = not_joinable }))
      (λ off. refl)

Step-Balanced :
    {c c' : Communication} {calls : List Call} → Step c c' calls → Balanced c (c', calls)
unfolding StartBalanced RoundBalanced ModeBalanced rx_round worker_exit
Step-Balanced (starts opened ok {c} e) = subst (StartBalanced c) e (start-Balanced opened c)
Step-Balanced (stops {c}) = stop-Balanced c
Step-Balanced (reads result {c}) = rx_in-Balanced c.rx_thread result c
Step-Balanced (worker_exits {c}) = worker_in-Balanced c.worker_thread c
Step-Balanced (enters_mode {c} e) = subst (ModeBalanced c) e (start_reconnectable_mode-Balanced c)
Step-Balanced (leaves_mode {c}) = stop_reconnectable_mode-Balanced c
Step-Balanced (supervises opened {c} e) =
    subst (RoundBalanced c) e (supervisor_round-Balanced opened c)

-- Over every run of whole calls and rounds from the constructor on, the listener hears of the end of
-- each connection exactly once, as DISCONNECTED or as ERROR: the reports CONNECTED are as many as
-- those, plus one while the connection runs.
pub reports_balanced :
    (buffer_size max_frame_size : ℕ) {c : Communication} {calls : List Call}
    → Run buffer_size max_frame_size c calls
    → total opens calls ≡ total ends calls + (if c.running then 1 else 0)
unfolding construct
reports_balanced b m begin = refl
reports_balanced b m (after {c} {c'} {before} {calls} run step) = omega (
  arith,
  reports_balanced b m run,
  Step-Balanced step,
  total-append opens before calls,
  total-append ends before calls,
)
