-- ===== src/Params/Store.antt =====
-- The table of parameters and the parsing of one text of `key=value` lines. The arrays m_keys and
-- m_values are the list of their first m_count rows.
use ksg_canbus_rpi_sniffer.Prelude.{
  ℕ, ◌-◌, Bool, true, false, ◌&&◌, Option, none, some, List, [], ◌∷◌, ◌++◌, ltb, ◌==◌,
  if◌then◌else◌, length, take,
}
use ksg_canbus_rpi_sniffer.Text.{snprintf, str_eq, is_empty, strchr, is_space}

abbrev pub max_params : ℕ
max_params = 512

abbrev pub max_key_len : ℕ
max_key_len = 32

abbrev pub max_val_len : ℕ
max_val_len = 256

abbrev pub max_line_len : ℕ
max_line_len = 320

pub record Entry : Type 0 where
  pub key : List ℕ
  pub value : List ℕ

abbrev pub Table : Type 0
Table = List Entry

-- The leading part of trim, and the part that cuts at the end; the first byte that is left of the
-- leading part is no space, so the loop's test against it changes nothing.
unfoldable pub trim_left : List ℕ → List ℕ
trim_left [] = []
trim_left (b ∷ s) = if is_space b then trim_left s else b ∷ s

unfoldable pub cons_trimmed : ℕ → List ℕ → List ℕ
cons_trimmed b [] = if is_space b then [] else b ∷ []
cons_trimmed b (c ∷ s) = b ∷ c ∷ s

unfoldable pub trim_right : List ℕ → List ℕ
unfolding cons_trimmed
trim_right [] = []
trim_right (b ∷ s) = cons_trimmed b (trim_right s)

unfoldable pub trim : List ℕ → List ℕ
trim s = trim_right (trim_left s)

abbrev pub quote : ℕ
quote = b'"'

-- val[len - 1] == '"', and the value without its last byte.
unfoldable pub ends_in_quote : List ℕ → Bool
ends_in_quote [] = false
ends_in_quote (b ∷ []) = b == quote
ends_in_quote (b ∷ c ∷ s) = ends_in_quote (c ∷ s)

unfoldable pub drop_last : List ℕ → List ℕ
drop_last [] = []
drop_last (b ∷ []) = []
drop_last (b ∷ c ∷ s) = b ∷ drop_last (c ∷ s)

unfoldable pub unquote : List ℕ → List ℕ
unquote [] = []
unquote (b ∷ s) = if b == quote && ends_in_quote s then drop_last s else b ∷ s

-- The search for an existing key, and the write to its value.
unfoldable pub has_key : List ℕ → Table → Bool
has_key key [] = false
has_key key (e ∷ rest) = if str_eq e.key key then true else has_key key rest

unfoldable pub update_value : List ℕ → List ℕ → Table → Table
update_value key value [] = []
update_value key value (e ∷ rest) =
    if str_eq e.key key
    then record e { value = snprintf max_val_len value } ∷ rest
    else e ∷ update_value key value rest

unfoldable pub add_entry : List ℕ → List ℕ → Table → Table
add_entry key value table =
    if ltb (length table) max_params
    then table
      ++ (record { key = snprintf max_key_len key; value = snprintf max_val_len value } ∷ [])
    else table

unfoldable pub set_param : Bool → List ℕ → List ℕ → Table → Table
set_param create_new key value table =
    if is_empty key
    then table
    else if has_key key table
    then update_value key value table
    else if create_new
    then add_entry key value table
    else table

-- parseLine, from the split at '=' on.
unfoldable pub parse_split : Bool → Option (List ℕ × List ℕ) → Table → Table
parse_split create_new none table = table
parse_split create_new (some (key, value)) table =
    set_param create_new (trim key) (unquote (trim value)) table

unfoldable pub parse_line : Bool → List ℕ → Table → Table
unfolding parse_split
parse_line create_new line table = parse_split create_new (strchr b'=' line) table

-- The lines that parseAndSet walks through, without their line ends.
unfoldable pub cons_first : ℕ → List (List ℕ) → List (List ℕ)
cons_first c [] = (c ∷ []) ∷ []
cons_first c (line ∷ rest) = (c ∷ line) ∷ rest

unfoldable pub lines : List ℕ → List (List ℕ)
unfolding cons_first
lines [] = []
lines (c ∷ s) = if c == b'\n' then [] ∷ lines s else cons_first c (lines s)

unfoldable pub parse_lines : Bool → List (List ℕ) → Table → Table
parse_lines create_new [] table = table
parse_lines create_new (line ∷ rest) table =
    parse_lines create_new rest (parse_line create_new (take (max_line_len - 1) line) table)

-- The input is a C string, or null.
unfoldable pub parse_and_set : Bool → Option (List ℕ) → Table → Table
parse_and_set create_new none table = table
parse_and_set create_new (some input) table = parse_lines create_new (lines input) table

unfoldable pub get : List ℕ → Table → Option (List ℕ)
get key [] = none
get key (e ∷ rest) = if str_eq e.key key then some e.value else get key rest
