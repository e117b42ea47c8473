-- ===== src/Service/Usb.antt =====
-- UsbWatchdog: its life, the search for the serial device, and one round of watchdogLoop.
use ksg_canbus_rpi_sniffer.Prelude.{
  ℕ, Bool, true, false, not, Option, none, some, List, [], ◌∷◌, ◌++◌, if◌then◌else◌,
}
use ksg_canbus_rpi_sniffer.Text.{snprintf, is_empty, codes}
use ksg_canbus_rpi_sniffer.Protocol.Message.{strncmp_eq}

pub record UsbWatchdog : Type 0 where
  pub can_interface_name : List ℕ
  pub usb_uniq_name : List ℕ
  pub baudrate : List ℕ
  pub running : Bool

unfoldable pub baudrate_or_default : Option (List ℕ) → List ℕ
baudrate_or_default none = codes "s6"
baudrate_or_default (some rate) = rate

unfoldable pub construct : List ℕ → List ℕ → Option (List ℕ) → UsbWatchdog
unfolding baudrate_or_default
construct can_interface_name usb_uniq_name baudrate = record {
  can_interface_name = snprintf 64 can_interface_name;
  usb_uniq_name = snprintf 64 usb_uniq_name;
  baudrate = snprintf 16 (baudrate_or_default baudrate);
  running = false;
}

-- Calls that a watchdog makes, in order. `kill_existing_slcand` is the scan of Processes.
pub data UsbCall : Type 0 where
  start_thread join_thread kill_existing_slcand wait_for_interface : UsbCall
  update_status system : List ℕ → UsbCall

unfoldable pub start : UsbWatchdog → UsbWatchdog × List UsbCall
start w =
    if w.running
    then (w, [])
    else if is_empty w.usb_uniq_name
    then (w, [])
    else (record w { running = true }, start_thread ∷ [])

unfoldable pub stop : UsbWatchdog → UsbWatchdog × List UsbCall
stop w =
    if w.running
    then (record w { running = false }, join_thread ∷ kill_existing_slcand ∷ [])
    else (w, [])

-- An entry of the USB device's directory: whether it is a directory, and the names in its `tty`, if
-- that can be opened.
pub record DeviceEntry : Type 0 where
  pub is_directory : Bool
  pub tty_names : Option (List (List ℕ))

-- strncmp(name, "ttyACM", 6) == 0
unfoldable pub is_tty_acm : List ℕ → Bool
is_tty_acm name = strncmp_eq 6 name (codes "ttyACM")

unfoldable pub first_tty : List (List ℕ) → Option (List ℕ)
first_tty [] = none
first_tty (name ∷ rest) = if is_tty_acm name then some name else first_tty rest

unfoldable pub tty_of : DeviceEntry → Option (List ℕ)
tty_of entry =
    if entry.is_directory
    then (elim entry.tty_names [ none ↦ none | some names ↦ first_tty names ])
    else none

unfoldable pub or_else : Option (List ℕ) → Option (List ℕ) → Option (List ℕ)
or_else none later = later
or_else (some name) later = some name

unfoldable pub find_in : List DeviceEntry → Option (List ℕ)
unfolding or_else
find_in [] = none
find_in (entry ∷ rest) = or_else (tty_of entry) (find_in rest)

-- findTtyAcm; `none` as the argument is a directory that cannot be opened.
unfoldable pub find_tty_acm : Option (List DeviceEntry) → Option (List ℕ)
find_tty_acm none = none
find_tty_acm (some entries) = find_in entries

-- "slcand -f -o -c -%s /dev/%s %s &" and "ip link set %s up"
unfoldable pub slcand_command : UsbWatchdog → List ℕ → List ℕ
slcand_command w tty = snprintf 1024 (
    codes "slcand -f -o -c -"
    ++ (w.baudrate
        ++ (codes " /dev/" ++ (tty ++ (codes " " ++ (w.can_interface_name ++ codes " &"))))))

unfoldable pub link_up_command : UsbWatchdog → List ℕ
link_up_command w = snprintf 1024 (codes "ip link set " ++ (w.can_interface_name ++ codes " up"))

unfoldable pub map_interface : UsbWatchdog → Option (List ℕ) → List UsbCall
unfolding slcand_command link_up_command
map_interface w none = update_status (codes "USB FOUND, NO TTY") ∷ []
map_interface w (some tty) =
    kill_existing_slcand
    ∷ system (slcand_command w (snprintf 256 tty))
    ∷ wait_for_interface
    ∷ system (link_up_command w)
    ∷ update_status (codes "INTERFACE UP")
    ∷ []

-- One round of watchdogLoop before its wait: whether the USB device and the network interface are
-- there, and the device's directory.
unfoldable pub watchdog_round : Bool → Bool → Option (List DeviceEntry) → UsbWatchdog → List UsbCall
unfolding map_interface
watchdog_round usb_present net_present directory w =
    if not usb_present
    then kill_existing_slcand ∷ update_status (codes "USB DISCONNECTED") ∷ []
    else if not net_present
    then update_status (codes "MAPPING...") ∷ map_interface w (find_tty_acm directory)
    else update_status (codes "ACTIVE") ∷ []
