-- ===== src/Leds/Signals.antt =====
-- What Sniffer shows of its connections: the constructor's part on LEDs, and handleStatusChanged.
use ksg_canbus_rpi_sniffer.Prelude.{ℕ, Bool, false, ◌||◌, List, [], ◌++◌, if◌then◌else◌}
use ksg_canbus_rpi_sniffer.Text.{codes, snprintf, is_empty}
use ksg_canbus_rpi_sniffer.Filter.Rule.{Source, car_system, car_computer, external}
use ksg_canbus_rpi_sniffer.Connection.Life.{
  CommunicationStatus, status_connected, status_disconnected, status_connecting, status_error,
}
use ksg_canbus_rpi_sniffer.Service.Config.{extract_interface_name, extract_led_name}
use ksg_canbus_rpi_sniffer.Service.Main.{SnifferParams}
use ksg_canbus_rpi_sniffer.Leds.Files.{
  AttrValue, FileAnswer, FileWrite, exists, take_control, set_timer,
}

pub record LedConfig : Type 0 where
  pub system_interface_name : List ℕ
  pub computer_interface_name : List ℕ
  pub system_led_name : List ℕ
  pub computer_led_name : List ℕ
  pub is_leds_feature_on : Bool

abbrev pub led_init_on_ms : ℕ
led_init_on_ms = 200

abbrev pub led_init_off_ms : ℕ
led_init_off_ms = 1500

-- The line of the status display: its key and its text.
pub record StatusLine : Type 0 where
  pub key : List ℕ
  pub shown : List ℕ

unfoldable pub status_text : CommunicationStatus → List ℕ
status_text status_connected = codes "CONNECTED"
status_text status_disconnected = codes "DISCONNECTED"
status_text status_connecting = codes "UNKNOWN"
status_text status_error = codes "ERROR"

-- The three choices by `source == SOURCE_CAR_SYSTEM`.
unfoldable pub status_key : Source → List ℕ
status_key car_system = codes "Connection: System"
status_key car_computer = codes "Connection: Computer"
status_key external = codes "Connection: Computer"

unfoldable pub source_led : Source → LedConfig → List ℕ
source_led car_system config = config.system_led_name
source_led car_computer config = config.computer_led_name
source_led external config = config.computer_led_name

unfoldable pub source_interface : Source → LedConfig → List ℕ
source_interface car_system config = config.system_interface_name
source_interface car_computer config = config.computer_interface_name
source_interface external config = config.computer_interface_name

unfoldable pub led_config : (List ℕ → Bool) → SnifferParams → LedConfig
led_config present params =
    let system_config = snprintf 64 params.car_system_can_name in
    let computer_config = snprintf 64 params.car_computer_can_name in
    let system_led = extract_led_name 64 system_config in
    let computer_led = extract_led_name 64 computer_config in
    record {
      system_interface_name = extract_interface_name 64 system_config;
      computer_interface_name = extract_interface_name 64 computer_config;
      system_led_name = system_led;
      computer_led_name = computer_led;
      is_leds_feature_on = exists present system_led || exists present computer_led;
    }

-- `present` is access(path, F_OK) == 0, `answer` the end of a write.
unfoldable pub is_real_hardware : (List ℕ → Bool) → List ℕ → Bool
is_real_hardware present interface_name =
    if is_empty interface_name
    then false
    else present (snprintf 256 (codes "/sys/class/net/" ++ (interface_name ++ codes "/uevent")))

module _ (present : List ℕ → Bool) (answer : List ℕ → AttrValue → FileAnswer) where
  -- takeControl and setTimer, whose results the constructor does not read.
  unfoldable pub init_led : List ℕ → List FileWrite
  init_led led_name =
      if exists present led_name
      then (take_control answer led_name).1
        ++ (set_timer answer led_name led_init_on_ms led_init_off_ms).1
      else []

  unfoldable pub construct : SnifferParams → LedConfig × List FileWrite
  unfolding init_led
  construct params =
      let config = led_config present params in
      (
        config,
        if config.is_leds_feature_on
            then init_led config.system_led_name ++ init_led config.computer_led_name
            else [],
      )

  unfoldable pub blink : CommunicationStatus → List ℕ → List ℕ → List FileWrite
  blink status_connected led_name interface_name =
      if is_real_hardware present interface_name
      then (set_timer answer led_name 1500 1500).1
      else (set_timer answer led_name led_init_on_ms led_init_off_ms).1
  blink status_disconnected led_name interface_name = (set_timer answer led_name 1000 200).1
  blink status_connecting led_name interface_name = []
  blink status_error led_name interface_name = (set_timer answer led_name 200 200).1

  unfoldable pub handle_status_changed :
      Source → CommunicationStatus → LedConfig → StatusLine × List FileWrite
  unfolding blink source_led source_interface status_key status_text
  handle_status_changed source status config = (
    record { key = status_key source; shown = status_text status },
    if config.is_leds_feature_on
        then (if exists present (source_led source config)
            then blink status (source_led source config) (source_interface source config)
            else [])
        else [],
  )

  -- CanListener::onError
  unfoldable pub on_error : Source → LedConfig → StatusLine × List FileWrite
  unfolding handle_status_changed
  on_error source config = handle_status_changed source status_error config
