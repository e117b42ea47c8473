-- ===== src/Service/Main.antt =====
-- MainService: onSystemCommand, createSniffer, destroySniffer and the rounds of run.
use ksg_canbus_rpi_sniffer.Prelude.{
  ℕ, ◌-◌, ◌%◌, Bool, true, false, Option, none, some, List, [], ◌∷◌, ◌++◌, ltb, ◌==◌, if◌then◌else◌,
  length,
}
use ksg_canbus_rpi_sniffer.Text.{snprintf, is_empty, codes, c_string}
use ksg_canbus_rpi_sniffer.Protocol.Message.{cmd_set_params, cmd_get_params_req, cmd_get_params_res}
use ksg_canbus_rpi_sniffer.Params.Store.{Table, get}
use ksg_canbus_rpi_sniffer.Params.File.{Decimal, get_int, get_all, update, construct}
use ksg_canbus_rpi_sniffer.Service.Config.{CanInterfaceConfig, parse_can_config, sniffer_name}
use ksg_canbus_rpi_sniffer.Service.Usb
use ksg_canbus_rpi_sniffer.Service.Usb.{UsbWatchdog, UsbCall}

pub record SnifferParams : Type 0 where
  pub car_system_can_name : List ℕ
  pub car_computer_can_name : List ℕ
  pub external_service_port : ℕ
  pub external_client_port : ℕ

-- m_params with its file, m_sniffer as the parameters that it was built with, and the watchdogs.
pub record MainService : Type 0 where
  pub params : Option Table
  pub file : Option (List ℕ)
  pub sniffer : Option SnifferParams
  pub system_watchdog : Option UsbWatchdog
  pub computer_watchdog : Option UsbWatchdog
  pub running : Bool
  pub restart_requested : Bool

pub data Call : Type 0 where
  update_status : List ℕ → List ℕ → Call
  network_status : ℕ → ℕ → Call
  new_sniffer : SnifferParams → Call
  set_system_callback start_sniffer stop_sniffer : Call
  usb_call : UsbCall → Call
  send_system_response : ℕ → List ℕ → Call

-- DEFAULT_PARAMS
abbrev pub default_params : List ℕ
default_params =
    codes
      "car_system_can_name=vcan0\ncar_computer_can_name=vcan1\ncar_system_baudrate=s6\ncar_computer_baudrate=s6\nexternal_service_port=9095\nexternal_client_port=9096\n"

unfoldable pub initial : MainService
initial = record {
  params = none;
  file = none;
  sniffer = none;
  system_watchdog = none;
  computer_watchdog = none;
  running = false;
  restart_requested = false;
}

-- The first part of run; `file` is the configuration file.
unfoldable pub begin_run : Bool → Option (List ℕ) → MainService → MainService
begin_run writable file s =
    if s.running
    then s
    else (let (table, file') = construct writable (some default_params) file in
        record s { params = some table; file = file'; running = true })

unfoldable pub stop : MainService → MainService
stop s = record s { running = false }

unfoldable pub some_text : Option (List ℕ) → List ℕ → List ℕ
some_text none default_text = default_text
some_text (some text) default_text = text

-- (uint16_t) of an int
unfoldable pub to_uint16 : Decimal → ℕ
to_uint16 n = if n.negative then (65536 - n.magnitude % 65536) % 65536 else n.magnitude % 65536

unfoldable pub system_config : Table → CanInterfaceConfig
unfolding some_text
system_config table =
    parse_can_config (some (some_text (get (codes "car_system_can_name") table) (codes "vcan0")))

unfoldable pub computer_config : Table → CanInterfaceConfig
unfolding some_text
computer_config table =
    parse_can_config (some (some_text (get (codes "car_computer_can_name") table) (codes "vcan1")))

unfoldable pub sniffer_params : Table → SnifferParams
sniffer_params table = record {
  car_system_can_name = sniffer_name (system_config table);
  car_computer_can_name = sniffer_name (computer_config table);
  external_service_port = to_uint16 (get_int (codes "external_service_port") 9095 table);
  external_client_port = to_uint16 (get_int (codes "external_client_port") 9096 table);
}

-- "%s (USB: %s)"
unfoldable pub setting : CanInterfaceConfig → List ℕ
setting config = snprintf 1024 (
    config.interface_name
    ++ (codes " (USB: "
        ++ ((if is_empty config.usb_id then codes "N/A" else config.usb_id) ++ codes ")")))

-- A watchdog for an interface with a USB id, started.
unfoldable pub watchdog_for :
    CanInterfaceConfig → Option (List ℕ) → Option UsbWatchdog × List UsbCall
watchdog_for config baudrate =
    if is_empty config.usb_id
    then (none, [])
    else (let (w, calls) = Usb.start (Usb.construct config.interface_name config.usb_id baudrate) in
        (some w, calls))

abbrev pub usb_calls : List UsbCall → List Call
usb_calls [] = []
usb_calls (c ∷ rest) = usb_call c ∷ usb_calls rest

unfoldable pub build_sniffer : Table → MainService → MainService × List Call
build_sniffer table s =
    let params = sniffer_params table in
    let (system_watchdog, system_calls) =
      watchdog_for (system_config table) (get (codes "car_system_baudrate") table) in
    let (computer_watchdog, computer_calls) =
      watchdog_for (computer_config table) (get (codes "car_computer_baudrate") table) in
    (
      record s {
        sniffer = some params;
        system_watchdog = system_watchdog;
        computer_watchdog = computer_watchdog;
      },
      (update_status (codes "System CAN [Setting]") (setting (system_config table))
            ∷ update_status (codes "Computer CAN [Setting]") (setting (computer_config table))
            ∷ network_status params.external_service_port params.external_client_port
            ∷ new_sniffer params
            ∷ set_system_callback
            ∷ [])
          ++ (usb_calls system_calls ++ (usb_calls computer_calls ++ (start_sniffer ∷ []))),
    )

-- createSniffer, once run has made m_params; `none` is a null m_params that is read.
unfoldable pub create_with : Option Table → MainService → Option (MainService × List Call)
create_with none s = none
create_with (some table) s = some (build_sniffer table s)

unfoldable pub create_if : Option SnifferParams → MainService → Option (MainService × List Call)
unfolding create_with
create_if none s = create_with s.params s
create_if (some built) s = some (s, [])

unfoldable pub create_sniffer : MainService → Option (MainService × List Call)
unfolding create_if
create_sniffer s = create_if s.sniffer s

unfoldable pub stop_watchdog : Option UsbWatchdog → List UsbCall
stop_watchdog none = []
stop_watchdog (some w) = (Usb.stop w).1

unfoldable pub stop_built : Option SnifferParams → List Call
stop_built none = []
stop_built (some built) = stop_sniffer ∷ []

unfoldable pub destroy_sniffer : MainService → MainService × List Call
unfolding stop_watchdog stop_built
destroy_sniffer s = (
  record s { sniffer = none; system_watchdog = none; computer_watchdog = none },
  usb_calls (stop_watchdog s.system_watchdog)
      ++ (usb_calls (stop_watchdog s.computer_watchdog) ++ stop_built s.sniffer),
)

-- The destructor
unfoldable pub destroy : MainService → MainService × List Call
unfolding stop destroy_sniffer
destroy s = let (s', calls) = destroy_sniffer (stop s) in (record s' { params = none }, calls)

-- onSystemCommand
unfoldable pub set_params : Bool → List ℕ → Option Table → MainService → MainService
set_params writable bytes none s = s
set_params writable bytes (some table) s =
    let (table', file') = update writable (some (c_string bytes)) table s.file in
    record s { params = some table'; file = file'; restart_requested = true }

unfoldable pub respond : Option (List ℕ) → List Call
respond none = []
respond (some text) = send_system_response cmd_get_params_res text ∷ []

unfoldable pub get_params : Option Table → Option SnifferParams → List Call
unfolding respond
get_params none built = []
get_params (some table) none = []
get_params (some table) (some built) = respond (get_all 16384 table)

unfoldable pub on_system_command : Bool → ℕ → List ℕ → MainService → MainService × List Call
unfolding set_params get_params
on_system_command writable command bytes s =
    if command == cmd_set_params
    then (if ltb 0 (length bytes) then (set_params writable bytes s.params s, []) else (s, []))
    else if command == cmd_get_params_req
    then (s, get_params s.params s.sniffer)
    else (s, [])

-- A round of run: before its sleep, and behind it.
unfoldable pub round_end : MainService → MainService × List Call
round_end s =
    if s.restart_requested
    then (let (s', calls) = destroy_sniffer s in (record s' { restart_requested = false }, calls))
    else (s, [])
