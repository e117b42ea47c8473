-- ===== src/Status/Truncation.antt =====
-- get_status cuts the whole text once, at the size of the buffer.
use mathlib.Core.List.{append-nil}
use ksg_canbus_rpi_sniffer.Prelude.{
  ℕ, zero, suc, ◌+◌, ◌-◌, ◌≤◌, ◌<◌, ◌≡◌, sym, ap, ◌∙◌, false, Bool-cases, inl, inr, some, List, [],
  ◌∷◌, ◌++◌, leb, ◌==◌, if-true, if-false, leb→le, ==-false, length, take, take-all, take-append_le,
  arith,
}
use ksg_canbus_rpi_sniffer.Text.{codes}
use ksg_canbus_rpi_sniffer.Status.Directory.{AllNamed, visible, usb_line, available_usb_lem}
use ksg_canbus_rpi_sniffer.Status.Manager.{
  Message, update_status, print_message, status_from, available_usb, print_status, get_status,
}

-- All lines, with nothing cut.
unfoldable pub print_all : List Message → List ℕ
print_all [] = []
print_all (m ∷ rest) = print_message m ++ print_all rest

take-append_ge :
    (xs ys : List ℕ) (n k : ℕ) → k ≡ length xs + n → take k (xs ++ ys) ≡ xs ++ take n ys
take-append_ge [] ys n k h = ap (λ j. take j ys) (omega (arith, h))
take-append_ge (x ∷ xs) ys n zero h = absurd (omega (arith, h))
take-append_ge (x ∷ xs) ys n (suc k) h = ap (◌∷◌ x) (take-append_ge xs ys n k (omega (arith, h)))

ge_of_leb : (a b : ℕ) → leb a b ≡ false → b < a
ge_of_leb a b h = ground arith

status_from_lem :
    (max_size current_len : ℕ) (messages : List Message)
    → current_len < max_size
    → status_from max_size current_len messages
      ≡ take (max_size - current_len - 1) (print_all messages)
unfolding status_from print_all
status_from_lem max_size current_len [] h =
    sym (take-all (max_size - current_len - 1) [] (omega arith))
status_from_lem max_size current_len (m ∷ rest) h =
    let p = print_message m in
    let n = max_size - current_len - 1 in
    elim (Bool-cases (leb max_size (current_len + length p))) [
      | inl full ↦
          ap (λ later. take n p ++ later) (if-true (leb max_size (current_len + length p)) _ _ full)
          ∙ append-nil (take n p)
          ∙ sym (take-append_le n p (print_all rest) (omega (arith, leb→le _ _ full)))
      | inr room ↦
          let under = ge_of_leb max_size (current_len + length p) room in
          ap (λ later. take n p ++ later)
            (if-false (leb max_size (current_len + length p)) _ _ room)
          ∙ ap (◌++◌ (take n p)) (status_from_lem max_size (current_len + length p) rest under)
          ∙ ap (λ shown. shown ++ take (max_size - (current_len + length p) - 1) (print_all rest))
              (take-all n p (omega (arith, under)))
          ∙ sym (
              take-append_ge p (print_all rest) (max_size - (current_len + length p) - 1) n
                (omega (arith, under)))
    ]

pub get_status_lem :
    (order : List Message → List Message) (max_size : ℕ) (names : List (List ℕ)) (usb : List ℕ)
    (messages : List Message)
    → 0 < max_size
    → available_usb names ≡ some usb
    → get_status order max_size names messages
      ≡ some (
        update_status (codes "available_usb") usb messages,
        take
            (max_size - 1)
            (print_all (order (update_status (codes "available_usb") usb messages))),
      )
unfolding get_status print_status
get_status_lem order max_size names usb messages h e =
    if-false (max_size == 0) _ _ (==-false max_size 0 (λ z. omega (arith, h, z)))
    ∙ ap (λ list. print_status order max_size list messages) e
    ∙ ap (λ text. some (update_status (codes "available_usb") usb messages, text))
        (status_from_lem max_size 0 (order (update_status (codes "available_usb") usb messages)) h
          ∙ ap
              (λ n. take n (print_all (order (update_status (codes "available_usb") usb messages))))
              (omega arith))

-- get_status into a buffer of at least one byte, with a directory whose names are not empty and, less
-- those that start with a dot, take at most 2047 bytes with ", " between them: the text is that of all
-- messages in the map's order, one per line, cut once at the buffer's size; the line of the devices among
-- them has just these names, or "none" where there are none.
pub get_status-print_all :
    (order : List Message → List Message) (max_size : ℕ) (names : List (List ℕ))
    (messages : List Message)
    → 0 < max_size
    → AllNamed names
    → length (usb_line (visible names)) ≤ 2047
    → get_status order max_size names messages
      ≡ some (
        update_status (codes "available_usb") (usb_line (visible names)) messages,
        take (max_size - 1) (
            print_all
              (order (update_status (codes "available_usb") (usb_line (visible names)) messages))),
      )
get_status-print_all order max_size names messages some_byte named fits =
    get_status_lem order max_size names (usb_line (visible names)) messages some_byte
      (available_usb_lem names named fits)
