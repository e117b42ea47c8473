-- ===== src/Params/Lookup.antt =====
-- Reading a parameter after a line has set it.
use ksg_canbus_rpi_sniffer.Prelude.{
  ℕ, ◌≡◌, sym, ap, ◌∙◌, Bool, true, false, Bool-cases, inl, inr, none, some, List, [], ◌∷◌, ◌++◌,
  if◌then◌else◌, take, arith,
}
use ksg_canbus_rpi_sniffer.Text.{str_eq, str_eq_sound, is_empty, snprintf, strchr-append, Lacks}
use ksg_canbus_rpi_sniffer.Params.Store.{
  Table, max_val_len, trim, unquote, has_key, update_value, set_param, parse_split, parse_line, get,
}

str_eq-swap : (s t u : List ℕ) → str_eq s t ≡ true → str_eq s u ≡ str_eq t u
str_eq-swap s t u h = rw (str_eq_sound s t h)

get-update_value :
    (key value j : List ℕ) (table : Table)
    → get j (update_value key value table) ≡ (
        if str_eq key j
        then (if has_key key table then some (snprintf max_val_len value) else none)
        else get j table)
unfolding get update_value has_key
get-update_value key value j [] = ground arith
get-update_value key value j (e ∷ rest) = elim (Bool-cases (str_eq e.key key)) [
  | inl same ↦ rw same (elim (Bool-cases (str_eq key j)) [
    | inl k ↦ rw (str_eq-swap e.key key j same, k)
    | inr k ↦ rw (str_eq-swap e.key key j same, k)
  ])
  | inr other ↦ rw other (elim (Bool-cases (str_eq key j)) [
    | inl k ↦ rw (
      ap (str_eq e.key) (sym (str_eq_sound key j k)) ∙ other,
      get-update_value key value j rest,
      k,
    )
    | inr k ↦ rw (get-update_value key value j rest, k)
  ])
]

-- A line `key=value` for a parameter of the table, where no byte of the key's text is a '=': reading
-- that parameter gives the value with its outer spaces and quotes off, cut to 255 bytes, and every
-- other parameter reads as before.
pub get-parse_line :
    (create_new : Bool) (key value j : List ℕ) (table : Table)
    → Lacks b'=' key
    → is_empty (trim key) ≡ false
    → has_key (trim key) table ≡ true
    → get j (parse_line create_new (key ++ (b'=' ∷ value)) table)
      ≡ (if str_eq (trim key) j then some (take 255 (unquote (trim value))) else get j table)
unfolding parse_line parse_split set_param
get-parse_line create_new key value j table plain named known = rw (
  strchr-append b'=' key value plain,
  named,
  known,
  get-update_value (trim key) (unquote (trim value)) j table,
  known,
)
