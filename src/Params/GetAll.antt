-- ===== src/Params/GetAll.antt =====
-- The text that getAll sends, against the text that save writes.
use mathlib.Core.List.{append_assoc}
use ksg_canbus_rpi_sniffer.Prelude.{
  ℕ, ◌+◌, ◌<◌, ◌≤◌, ◌≡◌, refl, ap, ◌∙◌, Bool-cases, inl, inr, some, List, [], ◌∷◌, ◌++◌, ltb,
  ltb→lt, ==-false, length, length-append, take-all, arith,
}
use ksg_canbus_rpi_sniffer.Params.Store.{Table, Entry}
use ksg_canbus_rpi_sniffer.Params.File.{print_entry, print_table, get_all_from, get_all}
use ksg_canbus_rpi_sniffer.Params.Invariant.{Fits, AllFit, IsValid}

print_entry_short : (e : Entry) → Fits e → length (print_entry e) ≤ 319
unfolding print_entry
print_entry_short e f = omega (
  arith,
  length-append {0} e.key (b'=' ∷ (e.value ++ (b'\n' ∷ []))),
  length-append {0} e.value (b'\n' ∷ []),
  f.key_fits,
  f.value_fits,
)

get_all_from_prefix :
    (size current_len : ℕ) (table : Table)
    → AllFit table
    → (rest : List ℕ) × (get_all_from size current_len table ++ rest ≡ print_table table)
      × (current_len < size → current_len + length (get_all_from size current_len table) < size)
unfolding get_all_from print_table
get_all_from_prefix size current_len [] h = ([], refl, λ k. omega (arith, k))
get_all_from_prefix size current_len (e ∷ table) h =
    elim (Bool-cases (ltb (current_len + length (print_entry e)) size)) [
      | inl room ↦
          let (rest, text, short) =
            get_all_from_prefix size (current_len + length (print_entry e)) table h.1 in
          rw (room, take-all 319 (print_entry e) (print_entry_short e h.0))
            (
              rest,
              append_assoc (print_entry e) _ rest ∙ ap (◌++◌ (print_entry e)) text,
              λ k. omega (
                arith,
                short (ltb→lt _ _ room),
                length-append {0} (print_entry e)
                    (get_all_from size (current_len + length (print_entry e)) table),
              ),
            )
      | inr full ↦ rw full (print_entry e ++ print_table table, refl, λ k. omega (arith, k))
    ]

-- For a table that fits its arrays and a buffer of at least one byte, getAll writes a beginning of the
-- text that save writes; with its NUL it fits the buffer.
pub get_all_prefix :
    (size : ℕ) (table : Table)
    → IsValid table
    → 0 < size
    → (text rest : List ℕ) × (get_all size table ≡ some text)
      × (text ++ rest ≡ print_table table)
      × (length text < size)
unfolding get_all
get_all_prefix size table v h =
    let (rest, whole, short) = get_all_from_prefix size 0 table v.all_fit in
    (
      get_all_from size 0 table,
      rest,
      rw (==-false size 0 (λ e. omega arith)),
      whole,
      omega (arith, short h),
    )
