-- ===== src/Connection/Tests.antt =====
-- The connection's theorems at a concrete run.
use ksg_canbus_rpi_sniffer.Prelude.{
  ◌+◌, ◌≡◌, refl, true, false, some, none, [], ◌∷◌, ◌++◌, replicate,
}
use ksg_canbus_rpi_sniffer.Connection.Life.{
  Communication, construct, looping, on_status_changed, on_error, status_connecting,
  status_connected, status_error, start, destroy, start_reconnectable_mode, supervisor_round,
  restart, stop, rx_round, read_error,
}
use ksg_canbus_rpi_sniffer.Connection.Reconnect.{
  connected, halted, supervisor_rounds, supervisor_rounds-connected, destroy_started,
}
use ksg_canbus_rpi_sniffer.Connection.Reports.{
  begin, after, enters_mode, supervises, reads, total, opens, ends, reports_balanced,
}

abbrev idle : Communication
idle = record (construct 65536 88) { reconnect_mode = true; supervisor_thread = looping }

supervisor_rounds-connected_example :
    supervisor_rounds (replicate 3 false ++ (true ∷ [])) idle ≡ some (connected idle)
unfolding construct
supervisor_rounds-connected_example = supervisor_rounds-connected 3 idle refl refl

-- The connection comes up, and its read fails.
reports_balanced_example :
    total opens (
      on_status_changed status_connecting
      ∷ on_status_changed status_connected
      ∷ on_error 1
      ∷ on_status_changed status_error
      ∷ [])
    ≡ total ends (
        on_status_changed status_connecting
        ∷ on_status_changed status_connected
        ∷ on_error 1
        ∷ on_status_changed status_error
        ∷ [])
      + 0
unfolding construct rx_round start_reconnectable_mode supervisor_round restart stop start
reports_balanced_example = reports_balanced 65536 88 (
    after
      (after (after begin (enters_mode {c' = idle} refl))
        (supervises true {c' = connected idle} refl))
      (reads (read_error 1)))

destroy_started_example :
    (start true (halted (construct 65536 88))
      ≡ some (true, connected (construct 65536 88), on_status_changed status_connected ∷ []))
    × (destroy (connected (construct 65536 88)) ≡ none)
unfolding construct
destroy_started_example = destroy_started (construct 65536 88) refl
