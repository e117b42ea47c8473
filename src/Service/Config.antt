-- ===== src/Service/Config.antt =====
-- parseCanConfig, and extractInterfaceName and extractLedName on the other side.
use ksg_canbus_rpi_sniffer.Prelude.{ℕ, ◌-◌, Option, none, some, List, [], ◌∷◌, ◌++◌, take}
use ksg_canbus_rpi_sniffer.Text.{snprintf, strchr}

pub record CanInterfaceConfig : Type 0 where
  pub interface_name : List ℕ
  pub usb_id : List ℕ
  pub led_name : List ℕ

-- The size of each of the three arrays, and of the names in SnifferParams and in Sniffer.
abbrev pub name_size : ℕ
name_size = 64

abbrev pub only_interface : List ℕ → CanInterfaceConfig
only_interface raw = record { interface_name = snprintf name_size raw; usb_id = []; led_name = [] }

unfoldable pub parse_rest : List ℕ → List ℕ → Option (List ℕ × List ℕ) → CanInterfaceConfig
parse_rest raw interface none = only_interface raw
parse_rest raw interface (some (usb, led)) = record {
  interface_name = snprintf name_size interface;
  usb_id = snprintf name_size usb;
  led_name = snprintf name_size led;
}

unfoldable pub parse_first : List ℕ → Option (List ℕ × List ℕ) → CanInterfaceConfig
unfolding parse_rest
parse_first raw none = only_interface raw
parse_first raw (some (interface, rest)) = parse_rest raw interface (strchr b'#' rest)

-- The raw text, or null.
unfoldable pub parse_can_config : Option (List ℕ) → CanInterfaceConfig
unfolding parse_first
parse_can_config none = record { interface_name = []; usb_id = []; led_name = [] }
parse_can_config (some []) = record { interface_name = []; usb_id = []; led_name = [] }
parse_can_config (some (b ∷ raw)) = parse_first (b ∷ raw) (strchr b'#' (b ∷ raw))

-- "%s#%s" into a name of SnifferParams, in createSniffer.
unfoldable pub sniffer_name : CanInterfaceConfig → List ℕ
sniffer_name config = snprintf name_size (config.interface_name ++ (b'#' ∷ config.led_name))

unfoldable pub interface_part : ℕ → List ℕ → Option (List ℕ × List ℕ) → List ℕ
interface_part out_size full none = snprintf out_size full
interface_part out_size full (some (interface, led)) = take (out_size - 1) interface

unfoldable pub extract_interface_name : ℕ → List ℕ → List ℕ
unfolding interface_part
extract_interface_name out_size full = interface_part out_size full (strchr b'#' full)

unfoldable pub led_part : ℕ → Option (List ℕ × List ℕ) → List ℕ
led_part out_size none = []
led_part out_size (some (interface, led)) = snprintf out_size led

unfoldable pub extract_led_name : ℕ → List ℕ → List ℕ
unfolding led_part
extract_led_name out_size full = led_part out_size (strchr b'#' full)
