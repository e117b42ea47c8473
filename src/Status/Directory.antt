-- ===== src/Status/Directory.antt =====
-- The directory of the USB devices as readdir lists it, hidden entries among the rest, and the status
-- text that update_available_usb_status makes of it.
use ksg_canbus_rpi_sniffer.Prelude.{
  ℕ, ◌≤◌, ◌<◌, ◌≡◌, refl, ap, ◌∙◌, subst, Bool-cases, inl, inr, Option, none, some, List, [], ◌∷◌,
  ◌++◌, ◌==◌, if◌then◌else◌, if-either, length, arith,
}
use ksg_canbus_rpi_sniffer.Text.{codes}
use ksg_canbus_rpi_sniffer.Status.Manager.{
  add_name, is_hidden, usb_list_from, usb_text, available_usb,
}
use ksg_canbus_rpi_sniffer.Status.UsbList.{
  IsVisible, AllVisible, joined, available_usb_fits, overrun_visible,
}

-- The names of a directory that do not start with a dot, in their order.
unfoldable pub visible : List (List ℕ) → List (List ℕ)
visible [] = []
visible ([] ∷ names) = visible names
visible ((c ∷ name) ∷ names) =
    let rest = visible names in if c == b'.' then rest else (c ∷ name) ∷ rest

-- Names as a directory has them: no name is empty.
abbrev pub AllNamed : List (List ℕ) → Type 0
AllNamed [] = Unit
AllNamed (name ∷ rest) = (0 < length name) × AllNamed rest

visible-AllVisible : (names : List (List ℕ)) → AllVisible (visible names)
unfolding visible is_hidden
visible-AllVisible [] = tt
visible-AllVisible ([] ∷ names) = visible-AllVisible names
visible-AllVisible ((c ∷ name) ∷ names) =
    if-either AllVisible (c == b'.') _ _ (λ e. visible-AllVisible names)
      (λ e. ((omega arith, e), visible-AllVisible names))

usb_list_from-visible :
    (names : List (List ℕ)) (list : Option (ℕ × List ℕ))
    → AllNamed names
    → usb_list_from names list ≡ usb_list_from (visible names) list
unfolding usb_list_from visible is_hidden
usb_list_from-visible names none h = refl
usb_list_from-visible [] (some list) h = refl
usb_list_from-visible ([] ∷ names) (some list) h = absurd (omega (arith, h.0))
usb_list_from-visible ((c ∷ name) ∷ names) (some list) h = elim (Bool-cases (c == b'.')) [
  | inl e ↦ rw e (usb_list_from-visible names (some list) h.1)
  | inr e ↦ rw e (rw e (usb_list_from-visible names (add_name (c ∷ name) list) h.1))
]

available_usb-visible :
    (names : List (List ℕ)) → AllNamed names → available_usb names ≡ available_usb (visible names)
unfolding available_usb
available_usb-visible names h = ap usb_text (usb_list_from-visible names (some (0, [])) h)

-- The status text for names without dots.
unfoldable pub usb_line : List (List ℕ) → List ℕ
usb_line [] = codes "none"
usb_line (first ∷ front) = joined first front

usb_line_fits :
    (names : List (List ℕ))
    → AllVisible names
    → length (usb_line names) ≤ 2047
    → available_usb names ≡ some (usb_line names)
unfolding usb_line available_usb usb_list_from usb_text
usb_line_fits [] h fits = refl
usb_line_fits (first ∷ front) h fits = available_usb_fits first front h fits

pub available_usb_lem :
    (names : List (List ℕ))
    → AllNamed names
    → length (usb_line (visible names)) ≤ 2047
    → available_usb names ≡ some (usb_line (visible names))
available_usb_lem names h fits =
    available_usb-visible names h ∙ usb_line_fits (visible names) (visible-AllVisible names) fits

AllVisible-append :
    (front : List (List ℕ)) (name : List ℕ) (rest : List (List ℕ))
    → AllVisible (front ++ (name ∷ rest))
    → AllVisible front × IsVisible name
AllVisible-append [] name rest (h, all) = (tt, h)
AllVisible-append (next ∷ front) name rest (h, all) =
    let (before, shown) = AllVisible-append front name rest all in ((h, before), shown)

-- A directory whose names are not empty, hidden ones among them, and show, less those that start with a
-- dot, as some names that take more than 2048 bytes with ", " between them, and another one behind these:
-- update_available_usb_status writes behind its array.
pub available_usb_overrun :
    (names : List (List ℕ)) (first : List ℕ) (front : List (List ℕ)) (name : List ℕ)
    (rest : List (List ℕ))
    → AllNamed names
    → visible names ≡ first ∷ (front ++ (name ∷ rest))
    → 2048 < length (joined first front)
    → available_usb names ≡ none
available_usb_overrun names first front name rest named shown long =
    let (seen, all) = subst AllVisible shown (visible-AllVisible names) in
    let (before, last) = AllVisible-append front name rest all in
    available_usb-visible names named
    ∙ ap available_usb shown
    ∙ overrun_visible first front name rest (seen, before) last long
