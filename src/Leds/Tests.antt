-- ===== src/Leds/Tests.antt =====
-- The theorems on LEDs at a concrete configuration.
use mathlib.Core.List.Perm
use ksg_canbus_rpi_sniffer.Prelude.{ℕ, ◌≡◌, true, some, Bool, List, [], ◌∷◌, take, arith}
use ksg_canbus_rpi_sniffer.Text.{codes, str_eq}
use ksg_canbus_rpi_sniffer.Filter.Rule.{external, car_system, car_computer}
use ksg_canbus_rpi_sniffer.Connection.Life.{
  status_disconnected, status_connected, on_status_changed, on_error,
}
use ksg_canbus_rpi_sniffer.Leds.Files.{AttrValue, FileAnswer, complete}
use ksg_canbus_rpi_sniffer.Leds.Signals.{LedConfig, status_text}
use ksg_canbus_rpi_sniffer.Leds.Display.{reports, computer_line_shared}
use ksg_canbus_rpi_sniffer.Status.Manager.{Message, get_status}
use ksg_canbus_rpi_sniffer.Status.Directory.{visible, usb_line}
use ksg_canbus_rpi_sniffer.Status.Texts.{texts_of}
use ksg_canbus_rpi_sniffer.Status.Truncation.{print_all}

abbrev config : LedConfig
config = record {
  system_interface_name = codes "can0";
  computer_interface_name = codes "can1";
  system_led_name = codes "led0";
  computer_led_name = codes "led1";
  is_leds_feature_on = true;
}

abbrev present : List ℕ → Bool
present path = true

abbrev answer : List ℕ → AttrValue → FileAnswer
answer path value = complete

-- The bus to the computer fails, and the external service's socket opens.
abbrev lines : List Message
lines = record { key = codes "Connection: Computer"; text = codes "CONNECTED" } ∷ []

abbrev as_stored : List Message → List Message
as_stored messages = messages

computer_line_shared_example :
    (final : List Message) × (get_status as_stored 1024 (codes "." ∷ codes ".." ∷ []) (
        reports present answer config
          ((car_computer, on_error 5)
            ∷ (external, on_status_changed status_connected)
            ∷ (car_system, on_status_changed status_disconnected)
            ∷ [])
          lines)
      ≡ some (final, take 1023 (print_all (as_stored final))))
    × (texts_of (codes "Connection: Computer") (as_stored final) ≡ codes "CONNECTED" ∷ [])
unfolding visible usb_line texts_of str_eq status_text
computer_line_shared_example =
    computer_line_shared present answer config as_stored 1024 (codes "." ∷ codes ".." ∷ [])
      ((car_computer, on_error 5) ∷ []) ((car_system, on_status_changed status_disconnected) ∷ [])
      external status_connected lines (λ list. Perm.refl list) (omega arith)
      (omega arith, (omega arith, tt)) (omega arith) tt tt (omega arith)
