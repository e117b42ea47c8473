-- ===== src/Service/Names.antt =====
-- A configured name, from the raw parameter to the interface and the LED that the sniffer uses.
use mathlib.Core.List.{append_assoc}
use ksg_canbus_rpi_sniffer.Prelude.{
  ℕ, ◌+◌, ◌≤◌, ◌<◌, ◌≡◌, refl, ◌∙◌, some, List, [], ◌∷◌, ◌++◌, length, length-append, take-all,
  arith,
}
use ksg_canbus_rpi_sniffer.Text.{strchr, strchr-append, strchr-Lacks-none, Lacks}
use ksg_canbus_rpi_sniffer.Service.Config.{
  parse_can_config, parse_first, parse_rest, sniffer_name, extract_interface_name, interface_part,
  extract_led_name, led_part,
}

-- What the sniffer makes of a raw parameter.
abbrev pub sniffer_interface : List ℕ → List ℕ
sniffer_interface raw = extract_interface_name 64 (sniffer_name (parse_can_config (some raw)))

abbrev pub sniffer_led : List ℕ → List ℕ
sniffer_led raw = extract_led_name 64 (sniffer_name (parse_can_config (some raw)))

parse_can_config_lem :
    (raw : List ℕ)
    → 0 < length raw
    → parse_can_config (some raw) ≡ parse_first raw (strchr b'#' raw)
unfolding parse_can_config
parse_can_config_lem [] h = elim h [ ]
parse_can_config_lem (b ∷ raw) h = refl

-- The sniffer's side, of a name that fits.
extract_lem :
    (interface led : List ℕ)
    → Lacks b'#' interface
    → length interface + length led ≤ 62
    → (extract_interface_name 64 (interface ++ (b'#' ∷ led)) ≡ interface)
      × (extract_led_name 64 (interface ++ (b'#' ∷ led)) ≡ led)
unfolding extract_interface_name interface_part extract_led_name led_part
extract_lem interface led plain fits =
    rw
      (
        strchr-append b'#' interface led plain,
        take-all 63 interface (omega arith),
        take-all 63 led (omega arith),
      )
      (refl, refl)

sniffer_name-fits :
    (interface usb led : List ℕ)
    → length interface + length led ≤ 62
    → sniffer_name (record { interface_name = interface; usb_id = usb; led_name = led })
      ≡ interface ++ (b'#' ∷ led)
unfolding sniffer_name
sniffer_name-fits interface usb led fits =
    take-all 63 (interface ++ (b'#' ∷ led))
      (omega (arith, length-append {0} interface (b'#' ∷ led)))

parse_two_hashes :
    (interface usb led : List ℕ)
    → Lacks b'#' interface
    → Lacks b'#' usb
    → length interface + length led ≤ 62
    → length usb ≤ 63
    → parse_can_config (some (interface ++ (b'#' ∷ (usb ++ (b'#' ∷ led)))))
      ≡ record { interface_name = interface; usb_id = usb; led_name = led }
unfolding parse_first parse_rest
parse_two_hashes interface usb led plain plain_usb fits usb_fits =
    parse_can_config_lem (interface ++ (b'#' ∷ (usb ++ (b'#' ∷ led))))
      (omega (arith, length-append {0} interface (b'#' ∷ (usb ++ (b'#' ∷ led)))))
    ∙ rw (
      strchr-append b'#' interface (usb ++ (b'#' ∷ led)) plain,
      strchr-append b'#' usb led plain_usb,
      take-all 63 interface (omega arith),
      take-all 63 usb usb_fits,
      take-all 63 led (omega arith),
    )

parse_no_hash :
    (interface : List ℕ)
    → Lacks b'#' interface
    → 0 < length interface
    → length interface ≤ 62
    → parse_can_config (some interface)
      ≡ record { interface_name = interface; usb_id = []; led_name = [] }
unfolding parse_first
parse_no_hash interface plain some_byte fits =
    parse_can_config_lem interface some_byte
    ∙ rw (strchr-Lacks-none b'#' interface plain, take-all 63 interface (omega arith))

parse_one_hash :
    (interface rest : List ℕ)
    → Lacks b'#' interface
    → Lacks b'#' rest
    → length interface + length rest ≤ 60
    → parse_can_config (some (interface ++ (b'#' ∷ rest)))
      ≡ record { interface_name = interface ++ (b'#' ∷ rest); usb_id = []; led_name = [] }
unfolding parse_first parse_rest
parse_one_hash interface rest plain plain_rest fits =
    let total = length-append {0} interface (b'#' ∷ rest) in
    parse_can_config_lem (interface ++ (b'#' ∷ rest)) (omega (arith, total))
    ∙ rw (
      strchr-append b'#' interface rest plain,
      strchr-Lacks-none b'#' rest plain_rest,
      take-all 63 (interface ++ (b'#' ∷ rest)) (omega (arith, total)),
    )

-- A parameter `interface#usb#led`, with no '#' in the first two parts, at most 63 bytes of USB id and
-- at most 62 bytes of interface and LED together: each part comes out as it was written, the USB id for
-- the watchdog and the other two in the sniffer.
pub names_full :
    (interface usb led : List ℕ)
    → Lacks b'#' interface
    → Lacks b'#' usb
    → length interface + length led ≤ 62
    → length usb ≤ 63
    → ((parse_can_config (some (interface ++ (b'#' ∷ (usb ++ (b'#' ∷ led)))))).usb_id ≡ usb)
      × (sniffer_interface (interface ++ (b'#' ∷ (usb ++ (b'#' ∷ led)))) ≡ interface)
      × (sniffer_led (interface ++ (b'#' ∷ (usb ++ (b'#' ∷ led)))) ≡ led)
names_full interface usb led plain plain_usb fits usb_fits =
    let parsed = parse_two_hashes interface usb led plain plain_usb fits usb_fits in
    let named = sniffer_name-fits interface usb led fits in
    let extracted = extract_lem interface led plain fits in
    rw (parsed, named) (refl, extracted.0, extracted.1)

-- A parameter with no '#', of 1 to 62 bytes, is the sniffer's interface; there is no LED and no USB id.
pub names_plain :
    (interface : List ℕ)
    → Lacks b'#' interface
    → 0 < length interface
    → length interface ≤ 62
    → ((parse_can_config (some interface)).usb_id ≡ [])
      × (sniffer_interface interface ≡ interface)
      × (sniffer_led interface ≡ [])
names_plain interface plain some_byte fits =
    let parsed = parse_no_hash interface plain some_byte fits in
    let named = sniffer_name-fits interface [] [] (omega arith) in
    let extracted = extract_lem interface [] plain (omega arith) in
    rw (parsed, named) (refl, extracted.0, extracted.1)

-- A parameter with exactly one '#', with at most 60 bytes around it: parseCanConfig keeps it whole as the name of
-- the interface, but the sniffer cuts it at the '#' again. Its interface is only the part before, and
-- its LED is the part behind with a '#' at its end.
pub names_one_hash :
    (interface rest : List ℕ)
    → Lacks b'#' interface
    → Lacks b'#' rest
    → length interface + length rest ≤ 60
    → ((parse_can_config (some (interface ++ (b'#' ∷ rest)))).interface_name
        ≡ interface ++ (b'#' ∷ rest))
      × (sniffer_interface (interface ++ (b'#' ∷ rest)) ≡ interface)
      × (sniffer_led (interface ++ (b'#' ∷ rest)) ≡ rest ++ (b'#' ∷ []))
names_one_hash interface rest plain plain_rest fits =
    let parsed = parse_one_hash interface rest plain plain_rest fits in
    let named =
      sniffer_name-fits (interface ++ (b'#' ∷ rest)) [] []
        (omega (arith, length-append {0} interface (b'#' ∷ rest)))
      ∙ append_assoc interface (b'#' ∷ rest) (b'#' ∷ []) in
    let extracted =
      extract_lem interface (rest ++ (b'#' ∷ [])) plain
        (omega (arith, length-append {0} rest (b'#' ∷ []))) in
    rw (parsed, named) (refl, extracted.0, extracted.1)
