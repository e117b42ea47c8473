-- ===== src/Params/File.antt =====
-- The configuration file: load, save and update, and the text that getAll sends.
use ksg_canbus_rpi_sniffer.Prelude.{
  ℕ, zero, suc, ◌+◌, ◌-◌, ◌*◌, Bool, true, false, Option, none, some, List, [], ◌∷◌, ◌++◌, ltb, leb,
  ◌&&◌, ◌==◌, if◌then◌else◌, length, take,
}
use ksg_canbus_rpi_sniffer.Text.{c_string}
use ksg_canbus_rpi_sniffer.Params.Store.{
  Entry, Table, max_line_len, cons_first, parse_line, parse_and_set, get, trim_left,
}

-- "%s=%s\n"
unfoldable pub print_entry : Entry → List ℕ
print_entry e = e.key ++ (b'=' ∷ (e.value ++ (b'\n' ∷ [])))

-- The content of the file that save writes.
unfoldable pub print_table : Table → List ℕ
print_table [] = []
print_table (e ∷ rest) = print_entry e ++ print_table rest

-- Successive fgets with a buffer of max_line_len bytes; `room` bytes are left for the current line.
unfoldable pub fgets_lines : ℕ → List ℕ → List (List ℕ)
unfolding cons_first
fgets_lines room [] = []
fgets_lines zero (c ∷ s) = (c ∷ []) ∷ fgets_lines (max_line_len - 2) s
fgets_lines (suc room) (c ∷ s) =
    if c == b'\n'
    then (c ∷ []) ∷ fgets_lines (max_line_len - 2) s
    else cons_first c (fgets_lines room s)

-- The loop of load; parseLine reads each line up to its first NUL.
unfoldable pub load_lines : List (List ℕ) → Table → Table
load_lines [] table = table
load_lines (line ∷ rest) table = load_lines rest (parse_line false (c_string line) table)

-- The file, if there is one; `writable` is whether fopen(..., "w") succeeds.
unfoldable pub save : Bool → Table → Option (List ℕ) → Option (List ℕ)
save writable table file = if writable then some (print_table table) else file

unfoldable pub load : Bool → Option (List ℕ) → Table → Table × Option (List ℕ)
load writable none table = (table, save writable table none)
load writable (some content) table =
    (load_lines (fgets_lines (max_line_len - 2) content) table, some content)

-- The constructor
unfoldable pub construct : Bool → Option (List ℕ) → Option (List ℕ) → Table × Option (List ℕ)
construct writable default_params file = load writable file (parse_and_set true default_params [])

unfoldable pub update : Bool → Option (List ℕ) → Table → Option (List ℕ) → Table × Option (List ℕ)
update writable new_params table file =
    let table' = parse_and_set false new_params table in (table', save writable table' file)

-- atoi: the sign and the magnitude of a decimal number. Values that an int does not hold are not
-- cut here.
pub record Decimal : Type 0 where
  pub negative : Bool
  pub magnitude : ℕ

abbrev pub is_digit : ℕ → Bool
is_digit c = leb b'0' c && leb c b'9'

unfoldable pub digits : ℕ → List ℕ → ℕ
digits n [] = n
digits n (c ∷ s) = if is_digit c then digits (n * 10 + (c - b'0')) s else n

unfoldable pub atoi_sign : List ℕ → Decimal
atoi_sign [] = record { negative = false; magnitude = 0 }
atoi_sign (c ∷ s) =
    if c == b'-'
    then record { negative = true; magnitude = digits 0 s }
    else if c == b'+'
    then record { negative = false; magnitude = digits 0 s }
    else record { negative = false; magnitude = digits 0 (c ∷ s) }

unfoldable pub atoi : List ℕ → Decimal
unfolding atoi_sign
atoi s = atoi_sign (trim_left s)

unfoldable pub or_default : Option (List ℕ) → ℕ → Decimal
or_default none default_val = record { negative = false; magnitude = default_val }
or_default (some s) default_val = atoi s

unfoldable pub get_int : List ℕ → ℕ → Table → Decimal
unfolding or_default
get_int key default_val table = or_default (get key table) default_val

-- getAll with a buffer of `size` bytes: each line goes through a buffer of max_line_len bytes, and the
-- first that does not fit ends the text.
unfoldable pub get_all_from : ℕ → ℕ → Table → List ℕ
get_all_from size current_len [] = []
get_all_from size current_len (e ∷ rest) =
    let line = print_entry e in
    let more = get_all_from size (current_len + length line) rest in
    if ltb (current_len + length line) size then take (max_line_len - 1) line ++ more else []

-- `none`: nothing is written.
unfoldable pub get_all : ℕ → Table → Option (List ℕ)
get_all size table = if size == 0 then none else some (get_all_from size 0 table)
