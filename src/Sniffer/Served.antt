-- ===== src/Sniffer/Served.antt =====
-- Logging goes only to a client that counts as connected, and the handlers of Sniffer keep it so.
use ksg_canbus_rpi_sniffer.Prelude.{
  if-either, [], ℕ, ◌≡◌, Bool, true, false, Option, none, some, List, leb, if◌then◌else◌, length,
}
use ksg_canbus_rpi_sniffer.Filter.Rule.{Source, external, car_system, car_computer, Verdict}
use ksg_canbus_rpi_sniffer.Filter.Engine.{init_internal}
use ksg_canbus_rpi_sniffer.Sniffer.State.{Sniffer, Effect, set_logging_state}
use ksg_canbus_rpi_sniffer.Sniffer.Frames.{after_filter, append_log, filter_frame, handle_can_data}
use ksg_canbus_rpi_sniffer.Sniffer.Commands.{sizeof_keep_alive, requested, sync_logging, keep_alive}
use ksg_canbus_rpi_sniffer.Sniffer.Watchdog.{
  time_out_detected, reset_to_default, mark_disconnected, watchdog_round,
}
use ksg_canbus_rpi_sniffer.Sniffer.KeepAlive.{
  sync_logging_lem, logging-set_logging_state, set_logging_state_lem,
}

-- Logging goes to a client that counts as connected.
unfoldable pub Served : Sniffer → Type 0
Served s = s.external_service_logging ≡ true → s.external_service_connected ≡ true

-- A handler's result is served: its state is, if it has one.
unfoldable pub ServedAfter : Sniffer × List Effect → Type 0
ServedAfter (s, effects) = Served s

unfoldable pub ServedResult : Option (Sniffer × List Effect) → Type 0
ServedResult none = Unit
ServedResult (some r) = ServedAfter r

-- The state that the constructor of Sniffer leaves; `now` is the clock.
unfoldable pub constructed : ℕ → Sniffer
constructed now = record {
  running = false;
  external_service_logging = false;
  last_external_msg_time = now;
  has_system_callback = false;
  external_service_connected = false;
  engine = init_internal;
}

pub watchdog_round-Served : (now : ℕ) (s : Sniffer) → Served s → ServedAfter (watchdog_round now s)
unfolding ServedAfter Served watchdog_round reset_to_default mark_disconnected
watchdog_round-Served now s h =
    if-either ServedAfter s.running _ _
      (λ up.
        if-either ServedAfter (time_out_detected now s) _ _
          (λ late on. absurd (cc (on, logging-set_logging_state false s))) (λ early. h))
      (λ down. h)

-- No frame changes what Served reads.
append_log-Served :
    (s : Sniffer) (sent : List Effect) (logged : Option (List Effect))
    → Served s
    → ServedResult (append_log s sent logged)
unfolding append_log ServedAfter ServedResult
append_log-Served s sent none h = tt
append_log-Served s sent (some logged) h = h

after_filter-Served :
    (s : Sniffer) (source : Source) (bytes : List ℕ) (time : ℕ) (buffer : List ℕ)
    (v : Option Verdict)
    → Served s
    → ServedResult (after_filter s source bytes time buffer v)
unfolding after_filter ServedResult
after_filter-Served s source bytes time buffer none h = tt
after_filter-Served s source bytes time buffer (some (forwarded, payload)) h =
    append_log-Served s _ _ h

handle_bus-Served :
    (source : Source) (bytes : List ℕ) (time : ℕ) (stack : List ℕ) (s : Sniffer)
    → Served s
    → ServedResult (if s.running then filter_frame s source bytes time stack else some (s, []))
unfolding filter_frame ServedAfter ServedResult
handle_bus-Served source bytes time stack s h =
    if-either ServedResult s.running _ _ (λ up. after_filter-Served s source bytes time _ _ h)
      (λ down. h)

pub handle_can_data-Served :
    (source : Source) (bytes : List ℕ) (now time : ℕ) (stack : List ℕ) (s : Sniffer)
    → Served s
    → ServedResult (handle_can_data source bytes now time stack s)
unfolding handle_can_data ServedAfter ServedResult Served
handle_can_data-Served external bytes now time stack s h = h
handle_can_data-Served car_system bytes now time stack s h =
    handle_bus-Served car_system bytes time stack s h
handle_can_data-Served car_computer bytes now time stack s h =
    handle_bus-Served car_computer bytes time stack s h

pub set_logging_state-Served :
    (enable : Bool) (s : Sniffer)
    → s.external_service_connected ≡ true
    → ServedAfter (set_logging_state enable s)
unfolding ServedAfter Served
set_logging_state-Served enable s h = rw (set_logging_state_lem enable s) (λ on. h)

sync_logging-Served :
    (enable : Bool) (s : Sniffer)
    → s.external_service_connected ≡ true
    → ServedAfter (sync_logging enable s)
sync_logging-Served enable s h =
    rw (sync_logging_lem enable s) (set_logging_state-Served enable s h)

pub keep_alive-Served :
    (bytes : List ℕ) (time : ℕ) (status : List ℕ) (s : Sniffer)
    → s.external_service_connected ≡ true
    → ServedAfter (keep_alive bytes time status s)
unfolding keep_alive ServedAfter Served
keep_alive-Served bytes time status s h =
    if-either ServedAfter (leb sizeof_keep_alive (length bytes)) _ _
      (λ e. sync_logging-Served (requested bytes) s h) (λ e on. h)
