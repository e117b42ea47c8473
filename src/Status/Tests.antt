-- ===== src/Status/Tests.antt =====
-- The theorems on the status text at concrete messages.
use ksg_canbus_rpi_sniffer.Prelude.{
  ℕ, zero, suc, ◌≡◌, refl, some, none, List, [], ◌∷◌, ◌++◌, take, replicate, arith, ◌<◌, length,
}
use ksg_canbus_rpi_sniffer.Text.{codes}
use ksg_canbus_rpi_sniffer.Status.Manager.{Message, update_status, get_status, available_usb}
use ksg_canbus_rpi_sniffer.Status.UsbList.{joined}
use ksg_canbus_rpi_sniffer.Status.Directory.{visible, usb_line, AllNamed, available_usb_overrun}
use ksg_canbus_rpi_sniffer.Status.Truncation.{print_all, get_status-print_all}

abbrev messages : List Message
messages = record { key = codes "Logging Active [Setting]"; text = codes "ON" } ∷ []

abbrev as_stored : List Message → List Message
as_stored lines = lines

-- What readdir gives for two devices.
abbrev two_devices : List (List ℕ)
two_devices = codes "." ∷ codes ".." ∷ codes "usb1" ∷ codes "1-1" ∷ []

get_status-print_all_example :
    get_status as_stored 32 two_devices messages
    ≡ some (
      update_status (codes "available_usb") (usb_line (visible two_devices)) messages,
      take 31 (
          print_all
            (update_status (codes "available_usb") (usb_line (visible two_devices)) messages)),
    )
unfolding visible usb_line joined
get_status-print_all_example =
    get_status-print_all as_stored 32 two_devices messages (omega arith)
      (omega arith, (omega arith, (omega arith, (omega arith, tt)))) (omega arith)

two_devices-line : usb_line (visible two_devices) ≡ codes "usb1, 1-1"
unfolding visible usb_line joined
two_devices-line = refl

-- Nine names of the greatest length that a directory's entry has.
abbrev long_name : List ℕ
long_name = replicate 255 b'u'

abbrev long_names : List (List ℕ)
long_names = replicate 8 long_name

replicate-AllNamed :
    (n : ℕ) (name : List ℕ) (rest : List (List ℕ))
    → 0 < length name
    → AllNamed rest
    → AllNamed (replicate n name ++ rest)
replicate-AllNamed zero name rest h all = all
replicate-AllNamed (suc n) name rest h all = (h, replicate-AllNamed n name rest h all)

abbrev directory : List (List ℕ)
directory = codes "." ∷ codes ".." ∷ (replicate 9 long_name ++ (codes "1-1" ∷ []))

available_usb_overrun_example : available_usb directory ≡ none
unfolding visible joined
available_usb_overrun_example =
    available_usb_overrun directory long_name long_names (codes "1-1") []
      (
        omega arith,
        (
          omega arith,
          replicate-AllNamed 9 long_name (codes "1-1" ∷ []) (omega arith) (omega arith, tt),
        ),
      )
      refl (omega arith)
