-- ===== src/Sniffer/State.antt =====
-- The members of Sniffer that its handlers read and write, and what a handler does to the world.
use Prim.Native.String.{String}
use ksg_canbus_rpi_sniffer.Prelude.{ℕ, Bool, true, false, List, [], ◌∷◌, ◌++◌, if◌then◌else◌}
use ksg_canbus_rpi_sniffer.Filter.Engine.{Engine}

-- Times are readings of the steady clock, in nanoseconds.
pub record Sniffer : Type 0 where
  pub running : Bool
  pub external_service_logging : Bool
  pub last_external_msg_time : ℕ
  pub has_system_callback : Bool
  pub external_service_connected : Bool
  pub engine : Engine

-- A status text: as written, or the decimal digits of a number.
pub data StatusText : Type 0 where
  text : String → StatusText
  decimal : ℕ → StatusText

-- Calls of the objects that Sniffer uses, in order.
pub data Effect : Type 0 where
  send_system send_computer send_external : List ℕ → Effect
  update_status : String → StatusText → Effect
  system_command : ℕ → List ℕ → Effect
  start_system start_computer start_external start_watchdog : Effect
  join_watchdog stop_system stop_computer stop_external : Effect
  delete_system delete_computer delete_external : Effect

unfoldable pub bool_eq : Bool → Bool → Bool
bool_eq true b = b
bool_eq false true = false
bool_eq false false = true

-- Sniffer::setLoggingState
unfoldable pub set_logging_state : Bool → Sniffer → Sniffer × List Effect
unfolding bool_eq
set_logging_state enable s = if bool_eq s.external_service_logging enable then (s, []) else (
  record s { external_service_logging = enable },
  update_status "Logging Active [Setting]" (text (if enable then "ON" else "OFF")) ∷ [],
)

-- Sniffer::start; the argument is what the external service's start returned.
unfoldable pub start : Bool → Sniffer → Bool × Sniffer × List Effect
start external_started s = if s.running then (true, s, []) else (
  external_started,
  record s { running = true },
  start_system ∷ start_computer ∷ start_external ∷ start_watchdog ∷ [],
)

-- Sniffer::stop, with the three communication objects in place.
unfoldable pub stop : Sniffer → Sniffer × List Effect
stop s =
    if s.running
    then (
      record s { running = false },
      join_watchdog ∷ stop_system ∷ stop_computer ∷ stop_external ∷ [],
    )
    else (s, [])

-- Sniffer::~Sniffer, with the three communication objects in place.
unfoldable pub destroy : Sniffer → List Effect
unfolding stop
destroy s = (stop s).1 ++ (delete_system ∷ delete_computer ∷ delete_external ∷ [])

-- Sniffer::setSystemCallback with a callback, or with null.
unfoldable pub set_system_callback : Bool → Sniffer → Sniffer
set_system_callback present s = record s { has_system_callback = present }
