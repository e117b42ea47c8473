-- ===== src/Params/RoundTrip.antt =====
-- A saved table is read back by load.
use mathlib.Core.List.{append_assoc, append-nil}
use ksg_canbus_rpi_sniffer.Prelude.{
  ℕ, zero, suc, ◌<◌, ◌≤◌, ◌≡◌, refl, sym, ap, ◌∙◌, Bool, true, false, Bool-cases, inl, inr, Option,
  some, List, [], ◌∷◌, ◌++◌, length, length-append, take-all, arith,
}
use ksg_canbus_rpi_sniffer.Text.{
  str_eq, str_eq_refl, is_empty, strchr-append, Lacks, c_string, is_space,
}
use ksg_canbus_rpi_sniffer.Params.Store.{
  Entry, Table, trim, trim_left, trim_right, cons_trimmed, unquote, has_key, update_value,
  set_param, parse_split, parse_line,
}
use ksg_canbus_rpi_sniffer.Params.File.{print_entry, print_table, fgets_lines, load_lines, load}
use ksg_canbus_rpi_sniffer.Params.Invariant.{Fits, keys}

-- A row whose text parseLine reads back as it is.
pub record IsPlain (e : Entry) : Type 0 where
  pub fits : Fits e
  pub key_split : Lacks b'=' e.key
  pub key_line : Lacks b'\n' e.key
  pub key_text : Lacks 0 e.key
  pub key_trimmed : trim e.key ≡ e.key
  pub value_line : Lacks b'\n' e.value
  pub value_text : Lacks 0 e.value
  pub value_trimmed : unquote (trim e.value) ≡ e.value

Lacks-append : (c : ℕ) (s t : List ℕ) → Lacks c s → Lacks c t → Lacks c (s ++ t)
Lacks-append c [] t h k = k
Lacks-append c (b ∷ s) t h k = (h.0, Lacks-append c s t h.1 k)

c_string-Lacks : (s : List ℕ) → Lacks 0 s → c_string s ≡ s
unfolding c_string
c_string-Lacks [] h = refl
c_string-Lacks (b ∷ s) h = ground (arith, c_string-Lacks s)

trim_right-newline : (s : List ℕ) → trim_right (s ++ (b'\n' ∷ [])) ≡ trim_right s
unfolding trim_right is_space
trim_right-newline [] = refl
trim_right-newline (b ∷ s) = ap (cons_trimmed b) (trim_right-newline s)

trim-newline : (s : List ℕ) → trim (s ++ (b'\n' ∷ [])) ≡ trim s
unfolding trim trim_left is_space trim_right
trim-newline [] = refl
trim-newline (b ∷ s) = elim (Bool-cases (is_space b)) [
  | inl e ↦ rw e (trim-newline s)
  | inr e ↦ rw e (ap (cons_trimmed b) (trim_right-newline s))
]

fgets_line :
    (room : ℕ) (s rest : List ℕ)
    → Lacks b'\n' s
    → length s ≤ room
    → fgets_lines room (s ++ (b'\n' ∷ rest)) ≡ (s ++ (b'\n' ∷ [])) ∷ fgets_lines 318 rest
unfolding fgets_lines
fgets_line zero [] rest h k = refl
fgets_line zero (c ∷ s) rest h k = absurd (omega arith)
fgets_line (suc room) [] rest h k = refl
fgets_line (suc room) (c ∷ s) rest h k = ground (arith, fgets_line room s rest)

-- The line of an entry without its end.
abbrev line_of : Entry → List ℕ
line_of e = e.key ++ (b'=' ∷ e.value)

print_entry_lem : (e : Entry) (rest : List ℕ) → print_entry e ++ rest ≡ line_of e ++ (b'\n' ∷ rest)
unfolding print_entry
print_entry_lem e rest = simp append_assoc

fgets_entry :
    (e : Entry) (rest : List ℕ)
    → IsPlain e
    → fgets_lines 318 (print_entry e ++ rest) ≡ print_entry e ∷ fgets_lines 318 rest
fgets_entry e rest p =
    ap (fgets_lines 318) (print_entry_lem e rest)
    ∙ fgets_line 318 (line_of e) rest
        (Lacks-append b'\n' e.key (b'=' ∷ e.value) p.key_line (omega arith, p.value_line))
        (omega
          (arith, length-append {0} e.key (b'=' ∷ e.value), p.fits.key_fits, p.fits.value_fits))
    ∙ ap (λ l. l ∷ fgets_lines 318 rest) (sym (print_entry_lem e []) ∙ append-nil (print_entry e))

print_entry-Lacks_nul : (e : Entry) → IsPlain e → Lacks 0 (print_entry e)
unfolding print_entry
print_entry-Lacks_nul e p =
    Lacks-append 0 e.key (b'=' ∷ (e.value ++ (b'\n' ∷ []))) p.key_text
      (omega arith, Lacks-append 0 e.value (b'\n' ∷ []) p.value_text (omega arith))

not_empty : (s : List ℕ) → 0 < length s → is_empty s ≡ false
not_empty [] h = elim h [ ]
not_empty (b ∷ s) h = refl

parse_entry :
    (e : Entry) (table : Table)
    → IsPlain e
    → has_key e.key table ≡ true
    → parse_line false (c_string (print_entry e)) table ≡ update_value e.key e.value table
unfolding parse_line parse_split set_param
parse_entry e table p known = rw (c_string-Lacks (print_entry e) (print_entry-Lacks_nul e p)) (
    unfold print_entry in
    rw (
      strchr-append b'=' e.key (e.value ++ (b'\n' ∷ [])) p.key_split,
      trim-newline e.value,
      p.value_trimmed,
      p.key_trimmed,
      not_empty e.key p.fits.key_not_empty,
      known,
    ))

-- No key of the table is `key`.
abbrev pub NoKey : List ℕ → Table → Type 0
NoKey key [] = Unit
NoKey key (e ∷ rest) = (str_eq e.key key ≡ false) × NoKey key rest

-- The key of each row differs from the keys before it, those of `front` included.
abbrev pub Fresh : Table → Table → Type 0
Fresh front [] = Unit
Fresh front (e ∷ rest) = NoKey e.key front × Fresh (front ++ (e ∷ [])) rest

abbrev pub AllPlain : Table → Type 0
AllPlain [] = Unit
AllPlain (e ∷ rest) = IsPlain e × AllPlain rest

has_key-middle :
    (front : Table) (old e : Entry) (rest : Table)
    → old.key ≡ e.key
    → has_key e.key (front ++ (old ∷ rest)) ≡ true
unfolding has_key
has_key-middle [] old e rest same = rw (same, str_eq_refl e.key)
has_key-middle (x ∷ front) old e rest same = ground (arith, has_key-middle front old e rest same)

update_value-middle :
    (front : Table) (old e : Entry) (rest : Table)
    → NoKey e.key front
    → old.key ≡ e.key
    → length e.value < 256
    → update_value e.key e.value (front ++ (old ∷ rest)) ≡ front ++ (e ∷ rest)
unfolding update_value
update_value-middle [] old e rest h same k =
    rw (same, str_eq_refl e.key, take-all 255 e.value (omega arith))
update_value-middle (x ∷ front) old e rest h same k =
    rw (h.0) (ap (◌∷◌ x) (update_value-middle front old e rest h.1 same k))

load_print :
    (front table old : Table)
    → AllPlain table
    → Fresh front table
    → keys old ≡ keys table
    → load_lines (fgets_lines 318 (print_table table)) (front ++ old) ≡ front ++ table
unfolding load_lines print_table fgets_lines
load_print front [] [] p f k = refl
load_print front [] (o ∷ old) p f k = absurd (cc k)
load_print front (e ∷ table) [] p f k = absurd (cc k)
load_print front (e ∷ table) (o ∷ old) p f k =
    let same : o.key ≡ e.key = cc k in
    ap (λ text. load_lines text (front ++ (o ∷ old))) (fgets_entry e (print_table table) p.0)
    ∙ ap (load_lines (fgets_lines 318 (print_table table))) (
        parse_entry e (front ++ (o ∷ old)) p.0 (has_key-middle front o e old same)
        ∙ update_value-middle front o e old f.0 same p.0.fits.value_fits
        ∙ sym (append_assoc front (e ∷ []) old))
    ∙ load_print (front ++ (e ∷ [])) table old p.1 f.1 (cc k)
    ∙ append_assoc front (e ∷ []) table

-- A table whose rows are plain (they fit, no byte of them ends a line or a text, the key has no '=',
-- and trimming and unquoting change nothing) and whose keys are all different: what save writes, load
-- reads back, into any table with these keys.
pub load-save :
    (writable : Bool) (table old : Table) (file : Option (List ℕ))
    → AllPlain table
    → Fresh [] table
    → keys old ≡ keys table
    → load writable (some (print_table table)) old ≡ (table, some (print_table table))
unfolding load
load-save writable table old file p f k =
    ap (λ t. (t, some (print_table table))) (load_print [] table old p f k)
