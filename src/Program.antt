-- ===== src/Program.antt =====
-- The program's main (main.cpp) with the thread that it gives to MainService::run (core/MainService.cpp):
-- the wait for a signal and the shutdown behind it. A step is one access of the two flags, one join, or
-- the work between two of them.
pub mod Hang
pub mod Exit
mod Tests
use ksg_canbus_rpi_sniffer.Prelude.{ℕ, Bool, true, false, List, [], ◌∷◌, ◌++◌, if◌then◌else◌}
use ksg_canbus_rpi_sniffer.Prelude.Steps.{steps}
use ksg_canbus_rpi_sniffer.Text.{codes}
use ksg_canbus_rpi_sniffer.Leds.Files.{
  AttrValue, FileAnswer, FileWrite, exists, take_control, turn_on, turn_off,
}

-- The configuration file: the first argument, if there is one.
unfoldable pub config_path : List (List ℕ) → List ℕ
config_path [] = codes "sniffer.prop"
config_path (path ∷ rest) = path

-- Where the service's thread is in run.
pub data ServiceAt : Type 0 where
  at_test at_load at_set at_while in_round at_destroy left : ServiceAt

-- Where main is.
pub data MainAt : Type 0 where
  at_wait at_stop at_join at_leds at_delete exited : MainAt

pub record Program : Type 0 where
  pub keep_running : Bool
  pub running : Bool
  pub service : ServiceAt
  pub main_thread : MainAt
  pub writes : List FileWrite

-- main behind the start of the thread.
unfoldable pub launched : Program
launched = record {
  keep_running = true;
  running = false;
  service = at_test;
  main_thread = at_wait;
  writes = [];
}

-- signal_handler
unfoldable pub signal_handler : Program → Program
signal_handler p = record p { keep_running = false }

-- run: the test of m_running, the parameters, the flag, and the rounds of the loop, which
-- Service.Main models.
unfoldable pub service_at : ServiceAt → Program → Program
service_at at_test p = record p { service = if p.running then left else at_load }
service_at at_load p = record p { service = at_set }
service_at at_set p = record p { running = true; service = at_while }
service_at at_while p = record p { service = if p.running then in_round else at_destroy }
service_at in_round p = record p { service = at_while }
service_at at_destroy p = record p { service = left }
service_at left p = p

unfoldable pub has_left : ServiceAt → Bool
has_left at_test = false
has_left at_load = false
has_left at_set = false
has_left at_while = false
has_left in_round = false
has_left at_destroy = false
has_left left = true

module _ (present : List ℕ → Bool) (answer : List ℕ → AttrValue → FileAnswer) where
  unfoldable pub reset_led : List ℕ → List FileWrite → List FileWrite
  reset_led led_name switched =
      if exists present led_name then (take_control answer led_name).1 ++ switched else []

  -- The end of main: PWR is turned on, and ACT off.
  unfoldable pub reset_leds : List FileWrite
  unfolding reset_led
  reset_leds =
      reset_led (codes "PWR") (turn_on answer (codes "PWR")).1
      ++ reset_led (codes "ACT") (turn_off answer (codes "ACT")).1

  unfoldable pub main_at : MainAt → Program → Program
  unfolding has_left
  main_at at_wait p = record p { main_thread = if p.keep_running then at_wait else at_stop }
  main_at at_stop p = record p { running = false; main_thread = at_join }
  main_at at_join p = record p { main_thread = if has_left p.service then at_leds else at_join }
  main_at at_leds p = record p { writes = p.writes ++ reset_leds; main_thread = at_delete }
  main_at at_delete p = record p { main_thread = exited }
  main_at exited p = p

-- Whose step is next: main's, the service's, or a signal.
pub data Turn : Type 0 where
  main_steps service_steps signals : Turn

module _ (present : List ℕ → Bool) (answer : List ℕ → AttrValue → FileAnswer) where
  unfoldable pub turn : Turn → Program → Program
  unfolding main_at service_at signal_handler
  turn main_steps p = main_at present answer p.main_thread p
  turn service_steps p = service_at p.service p
  turn signals p = signal_handler p

  unfoldable pub turns : List Turn → Program → Program
  unfolding turn
  turns = steps turn
