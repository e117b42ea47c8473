-- ===== src/Params/Invariant.antt =====
-- What always holds of the table: the rows fit the arrays, and only the constructor adds keys.
use ksg_canbus_rpi_sniffer.Prelude.{
  ℕ, ◌-◌, ◌≤◌, ◌<◌, ◌≡◌, refl, ◌∙◌, Bool, true, false, Bool-cases, ltb→lt, inl, inr, Option, none,
  some, List, [], ◌∷◌, ◌++◌, ltb, length, length-append, length-take, take, arith,
}
use ksg_canbus_rpi_sniffer.Text.{str_eq, is_empty, c_string, strchr}
use ksg_canbus_rpi_sniffer.Params.Store.{
  Entry, Table, max_line_len, trim, unquote, has_key, update_value, add_entry, set_param,
  parse_split, parse_line, lines, parse_lines, parse_and_set,
}
use ksg_canbus_rpi_sniffer.Params.File.{load_lines, load, update, construct}

-- A row with its terminating bytes fits into m_keys and m_values, and its key is not empty.
pub record Fits (e : Entry) : Type 0 where
  pub key_not_empty : 0 < length e.key
  pub key_fits : length e.key < 32
  pub value_fits : length e.value < 256

abbrev pub AllFit : Table → Type 0
AllFit [] = Unit
AllFit (e ∷ rest) = Fits e × AllFit rest

pub record IsValid (table : Table) : Type 0 where
  pub all_fit : AllFit table
  pub counted : length table ≤ 512

AllFit-append : (table : Table) (e : Entry) → AllFit table → Fits e → AllFit (table ++ (e ∷ []))
AllFit-append [] e h f = (f, tt)
AllFit-append (x ∷ rest) e h f = (h.0, AllFit-append rest e h.1 f)

update_value-AllFit :
    (key value : List ℕ) (table : Table) → AllFit table → AllFit (update_value key value table)
unfolding update_value
update_value-AllFit key value [] h = tt
update_value-AllFit key value (e ∷ rest) h = elim (Bool-cases (str_eq e.key key)) [
  | inl same ↦ rw same (
    record {
      key_not_empty = h.0.key_not_empty;
      key_fits = h.0.key_fits;
      value_fits = omega (arith, length-take 255 value);
    },
    h.1,
  )
  | inr other ↦ rw other (h.0, update_value-AllFit key value rest h.1)
]

length-update_value :
    (key value : List ℕ) (table : Table) → length (update_value key value table) ≡ length table
unfolding update_value
length-update_value key value [] = refl
length-update_value key value (e ∷ rest) = ground (arith, length-update_value key value rest)

add_entry-IsValid :
    (key value : List ℕ) (table : Table)
    → is_empty key ≡ false
    → IsValid table
    → IsValid (add_entry key value table)
unfolding add_entry
add_entry-IsValid [] value table named v = absurd (cc named)
add_entry-IsValid (b ∷ key) value table named v = elim (Bool-cases (ltb (length table) 512)) [
  | inl room ↦ rw room (record {
    all_fit = AllFit-append table _ v.all_fit (record {
      key_not_empty = omega arith;
      key_fits = omega (arith, length-take 30 key);
      value_fits = omega (arith, length-take 255 value);
    });
    counted = omega (arith, ltb→lt (length table) 512 room, length-append {0} table);
  })
  | inr full ↦ rw full v
]

set_param-IsValid :
    (create_new : Bool) (key value : List ℕ) (table : Table)
    → IsValid table
    → IsValid (set_param create_new key value table)
unfolding set_param
set_param-IsValid create_new key value table v = elim (Bool-cases (is_empty key)) [
  | inl e ↦ rw e v
  | inr named ↦ rw named (elim (Bool-cases (has_key key table)) [
    | inl old ↦ rw old (record {
      all_fit = update_value-AllFit key value table v.all_fit;
      counted = omega (arith, v.counted, length-update_value key value table);
    })
    | inr new ↦ rw new (elim (Bool-cases create_new) [
      | inl yes_new ↦ rw yes_new (add_entry-IsValid key value table named v)
      | inr no_new ↦ rw no_new v
    ])
  ])
]

parse_split-IsValid :
    (create_new : Bool) (parts : Option (List ℕ × List ℕ)) (table : Table)
    → IsValid table
    → IsValid (parse_split create_new parts table)
unfolding parse_split
parse_split-IsValid create_new none table v = v
parse_split-IsValid create_new (some (key, value)) table v =
    set_param-IsValid create_new (trim key) (unquote (trim value)) table v

pub parse_lines-IsValid :
    (create_new : Bool) (text : List (List ℕ)) (table : Table)
    → IsValid table
    → IsValid (parse_lines create_new text table)
unfolding parse_lines parse_line
parse_lines-IsValid create_new [] table v = v
parse_lines-IsValid create_new (line ∷ rest) table v =
    parse_lines-IsValid create_new rest _
      (parse_split-IsValid create_new (strchr b'=' (take (max_line_len - 1) line)) table v)

load_lines-IsValid :
    (text : List (List ℕ)) (table : Table) → IsValid table → IsValid (load_lines text table)
unfolding load_lines parse_line
load_lines-IsValid [] table v = v
load_lines-IsValid (line ∷ rest) table v =
    load_lines-IsValid rest _ (parse_split-IsValid false (strchr b'=' (c_string line)) table v)

load-IsValid :
    (writable : Bool) (file : Option (List ℕ)) (table : Table)
    → IsValid table
    → IsValid (load writable file table).0
unfolding load
load-IsValid writable none table v = v
load-IsValid writable (some content) table v = load_lines-IsValid _ table v

pub parse_and_set-IsValid :
    (create_new : Bool) (input : Option (List ℕ)) (table : Table)
    → IsValid table
    → IsValid (parse_and_set create_new input table)
unfolding parse_and_set
parse_and_set-IsValid create_new none table v = v
parse_and_set-IsValid create_new (some input) table v =
    parse_lines-IsValid create_new (lines input) table v

-- Whatever the defaults and the file hold, a new table fits its arrays: at most 512 rows, each key of 1
-- to 31 bytes and each value of at most 255; and every update keeps that, whatever the text.
pub construct-update-IsValid :
    (writable : Bool) (default_params file new_params file' : Option (List ℕ)) (table : Table)
    → IsValid table
    → IsValid (construct writable default_params file).0
      × IsValid (update writable new_params table file').0
unfolding construct update
construct-update-IsValid writable default_params file new_params file' table v = (
  load-IsValid writable file _ (
      parse_and_set-IsValid true default_params []
        (record { all_fit = tt; counted = omega arith })),
  parse_and_set-IsValid false new_params table v,
)

-- The keys of the table.
abbrev pub keys : Table → List (List ℕ)
keys [] = []
keys (e ∷ rest) = e.key ∷ keys rest

keys-update_value :
    (key value : List ℕ) (table : Table) → keys (update_value key value table) ≡ keys table
unfolding update_value
keys-update_value key value [] = refl
keys-update_value key value (e ∷ rest) = ground (arith, keys-update_value key value rest)

keys-parse_split :
    (parts : Option (List ℕ × List ℕ)) (table : Table)
    → keys (parse_split false parts table) ≡ keys table
unfolding parse_split set_param
keys-parse_split none table = refl
keys-parse_split (some (key, value)) table =
    ground (arith, keys-update_value (trim key) (unquote (trim value)) table)

pub keys-parse_lines :
    (text : List (List ℕ)) (table : Table) → keys (parse_lines false text table) ≡ keys table
unfolding parse_lines parse_line
keys-parse_lines [] table = refl
keys-parse_lines (line ∷ rest) table =
    keys-parse_lines rest _ ∙ keys-parse_split (strchr b'=' (take (max_line_len - 1) line)) table

pub keys-load_lines :
    (text : List (List ℕ)) (table : Table) → keys (load_lines text table) ≡ keys table
unfolding load_lines parse_line
keys-load_lines [] table = refl
keys-load_lines (line ∷ rest) table =
    keys-load_lines rest _ ∙ keys-parse_split (strchr b'=' (c_string line)) table

-- Neither the file nor an update adds, removes or reorders a key.
pub keys-load-update :
    (writable : Bool) (text file : Option (List ℕ)) (table : Table)
    → (keys (load writable file table).0 ≡ keys table)
      × (keys (update writable text table file).0 ≡ keys table)
unfolding load update parse_and_set
keys-load-update writable none none table = (refl, refl)
keys-load-update writable none (some content) table = (keys-load_lines _ table, refl)
keys-load-update writable (some text) none table = (refl, keys-parse_lines (lines text) table)
keys-load-update writable (some text) (some content) table =
    (keys-load_lines _ table, keys-parse_lines (lines text) table)
