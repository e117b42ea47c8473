-- ===== src/Status/Manager.antt =====
-- The map of messages, get_status, and the list of USB devices. The order in which an unordered_map is
-- walked through belongs to the standard library and is a parameter.
use ksg_canbus_rpi_sniffer.Prelude.{
  ℕ, ◌+◌, ◌-◌, Bool, false, Option, none, some, List, [], ◌∷◌, ◌++◌, leb, ◌==◌, if◌then◌else◌,
  length, take,
}
use ksg_canbus_rpi_sniffer.Text.{codes, snprintf, str_eq}

pub record Message : Type 0 where
  pub key : List ℕ
  pub text : List ℕ

-- update_status: the message of a key that is there is replaced.
unfoldable pub update_status : List ℕ → List ℕ → List Message → List Message
update_status key text [] = record { key = key; text = text } ∷ []
update_status key text (m ∷ rest) =
    if str_eq m.key key then record m { text = text } ∷ rest else m ∷ update_status key text rest

-- "%s: %s\n"
unfoldable pub print_message : Message → List ℕ
print_message m = m.key ++ (codes ": " ++ (m.text ++ codes "\n"))

-- The rounds of get_status's loop from `current_len` on: what they append to the text.
unfoldable pub status_from : ℕ → ℕ → List Message → List ℕ
unfolding print_message
status_from max_size current_len [] = []
status_from max_size current_len (m ∷ rest) =
    let later = status_from max_size (current_len + length (print_message m)) rest in
    take (max_size - current_len - 1) (print_message m)
    ++ (if leb max_size (current_len + length (print_message m)) then [] else later)

-- update_available_usb_status: sizeof(usb_list_str), and one name. `none` is a write behind the array.
abbrev pub usb_list_size : ℕ
usb_list_size = 2048

unfoldable pub add_name : List ℕ → ℕ × List ℕ → Option (ℕ × List ℕ)
add_name name (len, text) =
    if len == 0
    then some (length name, snprintf usb_list_size name)
    else if leb len usb_list_size
    then some (
      len + length (codes ", " ++ name),
      text ++ take (usb_list_size - len - 1) (codes ", " ++ name),
    )
    else none

unfoldable pub is_hidden : List ℕ → Bool
is_hidden [] = false
is_hidden (c ∷ name) = c == b'.'

unfoldable pub usb_list_from : List (List ℕ) → Option (ℕ × List ℕ) → Option (ℕ × List ℕ)
unfolding add_name
usb_list_from names none = none
usb_list_from [] (some list) = some list
usb_list_from (name ∷ rest) (some list) =
    if is_hidden name
    then usb_list_from rest (some list)
    else usb_list_from rest (add_name name list)

-- The message for "available_usb"; the argument lists the names of the directory, or is empty where it
-- cannot be opened.
unfoldable pub usb_text : Option (ℕ × List ℕ) → Option (List ℕ)
usb_text none = none
usb_text (some (len, text)) = if len == 0 then some (codes "none") else some text

unfoldable pub available_usb : List (List ℕ) → Option (List ℕ)
unfolding usb_list_from usb_text
available_usb names = usb_text (usb_list_from names (some (0, [])))

module _ (order : List Message → List Message) where
  unfoldable pub print_status : ℕ → Option (List ℕ) → List Message → Option (List Message × List ℕ)
  print_status max_size none messages = none
  print_status max_size (some usb) messages =
      let messages' = update_status (codes "available_usb") usb messages in
      some (messages', status_from max_size 0 (order messages'))

  -- get_status into a buffer that is not null; an empty one is left alone.
  unfoldable pub get_status : ℕ → List (List ℕ) → List Message → Option (List Message × List ℕ)
  unfolding print_status
  get_status max_size names messages =
      if max_size == 0
      then some (messages, [])
      else print_status max_size (available_usb names) messages
