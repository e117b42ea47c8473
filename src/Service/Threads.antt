-- ===== src/Service/Threads.antt =====
-- The runs of the service, and the count of the USB watchdogs' threads.
use ksg_canbus_rpi_sniffer.Prelude.{
  ℕ, ◌+◌, ◌≡◌, Bool, Option, none, some, List, [], ◌∷◌, ◌++◌, if◌then◌else◌,
}
use ksg_canbus_rpi_sniffer.Service.Usb.{
  UsbWatchdog, UsbCall, start_thread, join_thread, kill_existing_slcand, wait_for_interface, system,
}
use ksg_canbus_rpi_sniffer.Service.Main.{
  MainService, SnifferParams, Call, update_status, network_status, new_sniffer, set_system_callback,
  start_sniffer, stop_sniffer, usb_call, send_system_response, initial, begin_run, stop,
  create_sniffer, destroy_sniffer, destroy, on_system_command, round_end,
}

-- What run and the client's commands do, with the calls that each makes.
pub data Step : MainService → MainService → List Call → Type 0 where
  begins :
      (writable : Bool) (file : Option (List ℕ)) {s : MainService}
      → Step s (begin_run writable file s) []
  stops : {s : MainService} → Step s (stop s) []
  creates :
      {s s' : MainService} {calls : List Call}
      → create_sniffer s ≡ some (s', calls)
      → Step s s' calls
  ends_round : {s : MainService} → Step s (round_end s).0 (round_end s).1
  ends : {s : MainService} → Step s (destroy s).0 (destroy s).1
  destroys : {s : MainService} → Step s (destroy_sniffer s).0 (destroy_sniffer s).1
  commands :
      (writable : Bool) (command : ℕ) (bytes : List ℕ) {s : MainService}
      → Step s
          (on_system_command writable command bytes s).0
          (on_system_command writable command bytes s).1

pub data Run : MainService → List Call → Type 0 where
  begin : Run initial []
  after :
      {s s' : MainService} {before calls : List Call}
      → Run s before
      → Step s s' calls
      → Run s' (before ++ calls)

unfoldable pub starts : Call → ℕ
starts (usb_call start_thread) = 1
starts (usb_call join_thread) = 0
starts (usb_call kill_existing_slcand) = 0
starts (usb_call wait_for_interface) = 0
starts (usb_call (UsbCall.update_status text)) = 0
starts (usb_call (system text)) = 0
starts (update_status key text) = 0
starts (network_status service client) = 0
starts (new_sniffer params) = 0
starts set_system_callback = 0
starts start_sniffer = 0
starts stop_sniffer = 0
starts (send_system_response command text) = 0

unfoldable pub joins : Call → ℕ
joins (usb_call start_thread) = 0
joins (usb_call join_thread) = 1
joins (usb_call kill_existing_slcand) = 0
joins (usb_call wait_for_interface) = 0
joins (usb_call (UsbCall.update_status text)) = 0
joins (usb_call (system text)) = 0
joins (update_status key text) = 0
joins (network_status service client) = 0
joins (new_sniffer params) = 0
joins set_system_callback = 0
joins start_sniffer = 0
joins stop_sniffer = 0
joins (send_system_response command text) = 0

abbrev pub total : (Call → ℕ) → List Call → ℕ
total f [] = 0
total f (c ∷ rest) = f c + total f rest

-- The threads of the watchdogs that the service holds.
abbrev pub live : Option UsbWatchdog → ℕ
live none = 0
live (some w) = if w.running then 1 else 0

abbrev pub threads : MainService → ℕ
threads s = live s.system_watchdog + live s.computer_watchdog

-- Watchdogs without a sniffer: there are none.
abbrev pub NoStray : Option SnifferParams → ℕ → Type 0
NoStray none held = held ≡ 0
NoStray (some built) held = Unit

abbrev pub Tidy : MainService → Type 0
Tidy s = NoStray s.sniffer (threads s)
