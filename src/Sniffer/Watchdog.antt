-- ===== src/Sniffer/Watchdog.antt =====
-- Sniffer::watchdogLoop and Sniffer::resetToDefault, one round of the loop after its sleep. A round is
-- two atomic steps: the locked test, and the reset; in the reset the flag `connected` is written last.
use ksg_canbus_rpi_sniffer.Prelude.{ℕ, ◌-◌, ◌/◌, Bool, false, List, [], ltb, if◌then◌else◌}
use ksg_canbus_rpi_sniffer.Sniffer.State.{Sniffer, Effect, set_logging_state}

-- Milliseconds between two readings of the clock, cut to a whole number.
unfoldable pub elapsed_ms : ℕ → ℕ → ℕ
elapsed_ms now last = (now - last) / 1_000_000

unfoldable pub time_out_detected : ℕ → Sniffer → Bool
unfolding elapsed_ms
time_out_detected now s =
    if s.external_service_connected
    then ltb 1500 (elapsed_ms now s.last_external_msg_time)
    else false

unfoldable pub reset_to_default : Sniffer → Sniffer × List Effect
reset_to_default s = set_logging_state false s

unfoldable pub mark_disconnected : Sniffer → Sniffer
mark_disconnected s = record s { external_service_connected = false }

-- A round that no other thread interrupts.
unfoldable pub watchdog_round : ℕ → Sniffer → Sniffer × List Effect
watchdog_round now s =
    if s.running
    then (if time_out_detected now s
        then (let (s', effects) = reset_to_default s in (mark_disconnected s', effects))
        else (s, []))
    else (s, [])
