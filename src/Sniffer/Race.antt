-- ===== src/Sniffer/Race.antt =====
-- The watchdog's round cut between its locked test, its reset, and the write of the flag `connected`,
-- which the source does not hold a lock for, with a command of the client in between.
use ksg_canbus_rpi_sniffer.Prelude.{if-true, ℕ, ◌≡◌, refl, ap, ◌∙◌, true, false, List, []}
use ksg_canbus_rpi_sniffer.Filter.Rule.{CanFilterRule}
use ksg_canbus_rpi_sniffer.Protocol.Message.{cmd_logging_on}
use ksg_canbus_rpi_sniffer.Sniffer.State.{Sniffer, Effect}
use ksg_canbus_rpi_sniffer.Sniffer.Commands.{dispatch, on_command_received}
use ksg_canbus_rpi_sniffer.Sniffer.Watchdog.{reset_to_default, mark_disconnected, watchdog_round}
use ksg_canbus_rpi_sniffer.Sniffer.KeepAlive.{set_logging_state_lem}
use ksg_canbus_rpi_sniffer.Sniffer.Timeout.{round_idle, time_out_detected-off}

module _ (sort : List CanFilterRule → List CanFilterRule) where
  -- The watchdog resets, the client's command comes in, and the watchdog finishes its round.
  unfoldable pub interrupted_round : ℕ → List ℕ → ℕ → ℕ → List ℕ → Sniffer → Sniffer
  interrupted_round command bytes now time status s =
      mark_disconnected
        (on_command_received sort command bytes now time status (reset_to_default s).0).0

  logging_on :
      (bytes : List ℕ) (now time : ℕ) (status : List ℕ) (s : Sniffer)
      → s.running ≡ true
      → (on_command_received sort cmd_logging_on bytes now time status s).0 ≡ record s {
        external_service_connected = true;
        last_external_msg_time = now;
        external_service_logging = true;
      }
  unfolding on_command_received dispatch
  logging_on bytes now time status s up =
      ap (λ (r : Sniffer × List Effect). r.0)
        (if-true s.running _ _ up
          ∙ set_logging_state_lem true
              (record s { external_service_connected = true; last_external_msg_time = now }))

  interrupted_round-logging_on :
      (bytes : List ℕ) (now time : ℕ) (status : List ℕ) (s : Sniffer)
      → s.running ≡ true
      → interrupted_round cmd_logging_on bytes now time status s ≡ record s {
        external_service_connected = false;
        last_external_msg_time = now;
        external_service_logging = true;
      }
  unfolding interrupted_round mark_disconnected reset_to_default
  interrupted_round-logging_on bytes now time status s up =
      ap
        (λ (r : Sniffer × List Effect).
          mark_disconnected (on_command_received sort cmd_logging_on bytes now time status r.0).0)
        (set_logging_state_lem false s)
      ∙ ap mark_disconnected
          (logging_on bytes now time status (record s { external_service_logging = false }) up)

  -- When a command that turns logging on is handled between the watchdog's reset and its write of the
  -- flag `connected`, the running sniffer ends with logging on and the client marked as disconnected,
  -- and every later round of the watchdog, at whatever time, changes nothing: the time-out does not
  -- turn this logging off.
  pub watchdog_round-interrupted :
      (bytes : List ℕ) (now time : ℕ) (status : List ℕ) (s : Sniffer)
      → s.running ≡ true
      → ((interrupted_round cmd_logging_on bytes now time status s).external_service_logging ≡ true)
        × ((later : ℕ)
            → watchdog_round later (interrupted_round cmd_logging_on bytes now time status s)
              ≡ (interrupted_round cmd_logging_on bytes now time status s, []))
  watchdog_round-interrupted bytes now time status s up =
      rw (interrupted_round-logging_on bytes now time status s up)
        (refl, λ later. round_idle later _ up (time_out_detected-off later _ refl))
