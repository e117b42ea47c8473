-- ===== src/Connection/Reconnect.antt =====
-- The supervisor brings a dropped connection back.
use ksg_canbus_rpi_sniffer.Prelude.{
  if-true, if-false, ℕ, zero, suc, replicate, ◌∙◌, ◌≡◌, refl, Bool, true, false, Option, none, some,
  List, [], ◌∷◌, ◌++◌, if◌then◌else◌, arith,
}
use ksg_canbus_rpi_sniffer.Cache.Ring.{init}
use ksg_canbus_rpi_sniffer.Connection.Life.{
  Communication, Thread, not_joinable, looping, ended, on_status_changed, status_connecting,
  status_connected, joinable, destroy, stop_reconnectable_mode, start, stop, supervisor_round,
  restart,
}

-- No connection and no thread of one.
abbrev pub halted : Communication → Communication
halted c = record c { running = false; rx_thread = not_joinable; worker_thread = not_joinable }

-- A connection with an empty cache and both threads in their loops.
abbrev pub connected : Communication → Communication
connected c = record c {
  cache_manager = some (init c.buffer_size c.max_frame_size);
  running = true;
  rx_thread = looping;
  worker_thread = looping;
}

not_joinable-joinable : (t : Thread) → joinable t ≡ false → t ≡ not_joinable
unfolding joinable
not_joinable-joinable not_joinable h = refl
not_joinable-joinable looping h = absurd (cc h)
not_joinable-joinable ended h = absurd (cc h)

pub stop-halted : (c : Communication) → (stop c).0 ≡ halted c
unfolding stop
stop-halted c =
    ground (arith, not_joinable-joinable c.rx_thread, not_joinable-joinable c.worker_thread)

-- stop settles: a second stop changes nothing and calls nobody.
pub stop-stop : (c : Communication) → stop (stop c).0 ≡ (halted c, [])
unfolding stop
stop-stop c = rw (stop-halted c)

pub start-halted :
    (opened : Bool) (c : Communication)
    → start opened (halted c)
      ≡ some (
        opened,
        if opened then connected c else halted c,
        if opened then on_status_changed status_connected ∷ [] else [],
      )
unfolding start
start-halted true c = refl
start-halted false c = refl

-- A restart never ends the program. It leaves the connection running, with an empty cache, if open
-- succeeds, and halted if not; the listener hears CONNECTING, and CONNECTED after it on success.
pub restart_lem :
    (opened : Bool) (c : Communication)
    → restart opened c
      ≡ some (
        if opened then connected c else halted c,
        ((stop c).1 ++ (on_status_changed status_connecting ∷ []))
            ++ (if opened then on_status_changed status_connected ∷ [] else []),
      )
unfolding restart
restart_lem opened c = rw (stop-halted c, start-halted opened c)

-- The supervisor's rounds, with what open returns in each.
unfoldable pub supervisor_rounds : List Bool → Communication → Option Communication
supervisor_rounds [] c = some c
supervisor_rounds (opened ∷ rest) c = elim (supervisor_round opened c) [
  | none ↦ none
  | some (c', calls) ↦ supervisor_rounds rest c'
]

supervisor_round-down :
    (opened : Bool) (c : Communication)
    → c.reconnect_mode ≡ true
    → c.running ≡ false
    → supervisor_round opened c
      ≡ some (
        if opened then connected c else halted c,
        ((stop c).1 ++ (on_status_changed status_connecting ∷ []))
            ++ (if opened then on_status_changed status_connected ∷ [] else []),
      )
unfolding supervisor_round
supervisor_round-down opened c mode down =
    if-true c.reconnect_mode _ _ mode ∙ if-false c.running _ _ down ∙ restart_lem opened c

-- From a connection that is down, in reconnectable mode: however often open fails, the rounds go on,
-- and the first round in which it succeeds leaves the connection running with an empty cache and both
-- threads started.
pub supervisor_rounds-connected :
    (failures : ℕ) (c : Communication)
    → c.reconnect_mode ≡ true
    → c.running ≡ false
    → supervisor_rounds (replicate failures false ++ (true ∷ [])) c ≡ some (connected c)
unfolding supervisor_rounds
supervisor_rounds-connected zero c mode down =
    rw (supervisor_round-down true c mode down, supervisor_rounds)
supervisor_rounds-connected (suc n) c mode down =
    rw (supervisor_round-down false c mode down, supervisor_rounds)
      (supervisor_rounds-connected n (halted c) mode refl)

-- A connection that start alone opened, outside the reconnectable mode, and that nobody stopped: its
-- destruction ends the program, since the two threads are still joinable.
pub destroy_started :
    (c : Communication)
    → c.reconnect_mode ≡ false
    → (start true (halted c) ≡ some (true, connected c, on_status_changed status_connected ∷ []))
      × (destroy (connected c) ≡ none)
unfolding destroy stop_reconnectable_mode
destroy_started c off = (start-halted true c, rw off)
