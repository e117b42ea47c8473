-- ===== src/Params/Tests.antt =====
-- Runs of the parameter table, and its theorems at concrete texts.
use ksg_canbus_rpi_sniffer.Prelude.{ℕ, ◌≡◌, refl, true, some, none, List, [], ◌∷◌, arith}
use ksg_canbus_rpi_sniffer.Text.{str_eq, strchr, is_space, codes}
use ksg_canbus_rpi_sniffer.Params.Store.{
  Table, parse_and_set, parse_lines, lines, parse_line, trim, trim_left, trim_right, unquote,
  ends_in_quote, drop_last, set_param, has_key, add_entry,
}
use ksg_canbus_rpi_sniffer.Params.File.{print_table, load, construct, update}
use ksg_canbus_rpi_sniffer.Params.Invariant.{IsValid, construct-update-IsValid}
use ksg_canbus_rpi_sniffer.Params.RoundTrip.{load-save}

abbrev port : List ℕ
port = codes "port"

abbrev table : Table
table =
    record { key = codes "name"; value = codes "can0" }
    ∷ record { key = port; value = codes "90 95" }
    ∷ []

quoted : parse_and_set true (some (codes "name=can0\n port = \"90 95\" \n")) [] ≡ table
unfolding parse_and_set parse_lines lines parse_line strchr trim trim_left trim_right is_space
    unquote ends_in_quote drop_last set_param has_key str_eq add_entry
quoted = refl

table-IsValid : IsValid table
table-IsValid = omega arith

construct-update-IsValid_example :
    IsValid (construct true (some (codes "a=b")) none).0
    × IsValid (update true (some (codes "port = 7")) table none).0
construct-update-IsValid_example =
    construct-update-IsValid true (some (codes "a=b")) none (some (codes "port = 7")) none table
      table-IsValid

load-save_example : load true (some (print_table table)) table ≡ (table, some (print_table table))
unfolding trim trim_left trim_right is_space unquote ends_in_quote str_eq
load-save_example =
    load-save true table table none
      (
        record {
          fits = omega arith;
          key_split = omega arith;
          key_line = omega arith;
          key_text = omega arith;
          key_trimmed = refl;
          value_line = omega arith;
          value_text = omega arith;
          value_trimmed = refl;
        },
        (
          record {
            fits = omega arith;
            key_split = omega arith;
            key_line = omega arith;
            key_text = omega arith;
            key_trimmed = refl;
            value_line = omega arith;
            value_text = omega arith;
            value_trimmed = refl;
          },
          tt,
        ),
      )
      (tt, ((refl, tt), tt)) refl
