-- ===== src/Status/UsbList.antt =====
-- The list of USB devices for names without a dot in front: what fits the array is all there, and what
-- does not is written behind it.
use ksg_canbus_rpi_sniffer.Prelude.{
  ℕ, ◌+◌, ◌-◌, ◌≤◌, ◌<◌, ◌≡◌, refl, sym, ap, ◌∙◌, subst, true, false, Bool-cases, inl, inr, none,
  some, List, [], ◌∷◌, ◌++◌, leb, ◌==◌, ==-false, le→leb, leb-false, if-true, if-false, length,
  length-append, take, take-all, arith,
}
use ksg_canbus_rpi_sniffer.Text.{codes}
use ksg_canbus_rpi_sniffer.Status.Manager.{
  add_name, is_hidden, usb_list_from, usb_text, available_usb,
}

-- Names that the loop takes: not empty and without a dot in front.
abbrev pub IsVisible : List ℕ → Type 0
IsVisible name = (0 < length name) × (is_hidden name ≡ false)

abbrev pub AllVisible : List (List ℕ) → Type 0
AllVisible [] = Unit
AllVisible (name ∷ rest) = IsVisible name × AllVisible rest

-- The names with ", " between them, `text` in front.
unfoldable pub joined : List ℕ → List (List ℕ) → List ℕ
joined text [] = text
joined text (name ∷ rest) = joined (text ++ (codes ", " ++ name)) rest

length-joined : (text : List ℕ) (names : List (List ℕ)) → length text ≤ length (joined text names)
unfolding joined
length-joined text [] = omega arith
length-joined text (name ∷ rest) = omega (
  arith,
  length-joined (text ++ (codes ", " ++ name)) rest,
  length-append {0} text (codes ", " ++ name),
)

add_name-fits :
    (text name : List ℕ)
    → 0 < length text
    → length (text ++ (codes ", " ++ name)) ≤ 2047
    → add_name name (length text, text)
      ≡ some (length (text ++ (codes ", " ++ name)), text ++ (codes ", " ++ name))
unfolding add_name
add_name-fits text name some_byte fits =
    let whole = length-append {0} text (codes ", " ++ name) in
    if-false (length text == 0) _ _ (==-false (length text) 0 (λ z. omega (arith, some_byte, z)))
    ∙ if-true (leb (length text) 2048) _ _ (le→leb (length text) 2048 (omega (arith, fits, whole)))
    ∙ ap (λ added. some (length text + length (codes ", " ++ name), text ++ added))
        (take-all (2048 - length text - 1) (codes ", " ++ name) (omega (arith, fits, whole)))
    ∙ ap (λ n. some (n, text ++ (codes ", " ++ name))) (sym whole)

usb_list_from-fits :
    (text : List ℕ) (names : List (List ℕ))
    → 0 < length text
    → AllVisible names
    → length (joined text names) ≤ 2047
    → usb_list_from names (some (length text, text))
      ≡ some (length (joined text names), joined text names)
unfolding usb_list_from joined
usb_list_from-fits text [] some_byte all fits = refl
usb_list_from-fits text (name ∷ rest) some_byte (visible, all) fits =
    if-false (is_hidden name) _ _ visible.1
    ∙ ap (usb_list_from rest) (
        add_name-fits text name some_byte
          (omega (arith, fits, length-joined (text ++ (codes ", " ++ name)) rest)))
    ∙ usb_list_from-fits (text ++ (codes ", " ++ name)) rest
        (omega (arith, some_byte, length-append {0} text (codes ", " ++ name))) all fits

first_name :
    (name : List ℕ) (rest : List (List ℕ))
    → IsVisible name
    → usb_list_from (name ∷ rest) (some (0, []))
      ≡ usb_list_from rest (some (length name, take 2047 name))
unfolding usb_list_from add_name
first_name name rest visible = if-false (is_hidden name) _ _ visible.1

-- The length that the code counts.
abbrev pub counted : ℕ → List (List ℕ) → ℕ
counted len [] = len
counted len (name ∷ rest) = counted (len + length (codes ", " ++ name)) rest

length-joined_counted :
    (text : List ℕ) (names : List (List ℕ))
    → length (joined text names) ≡ counted (length text) names
unfolding joined
length-joined_counted text [] = refl
length-joined_counted text (name ∷ rest) =
    length-joined_counted (text ++ (codes ", " ++ name)) rest
    ∙ ap (λ n. counted n rest) (length-append {0} text (codes ", " ++ name))

add_name-none : (len : ℕ) (text name : List ℕ) → 2048 < len → add_name name (len, text) ≡ none
unfolding add_name
add_name-none len text name h =
    if-false (len == 0) _ _ (==-false len 0 (λ z. omega (arith, h, z)))
    ∙ if-false (leb len 2048) _ _ (leb-false len 2048 h)

add_name-some :
    (len : ℕ) (text name : List ℕ)
    → 0 < len
    → leb len 2048 ≡ true
    → add_name name (len, text)
      ≡ some (len + length (codes ", " ++ name), text ++ take (2048 - len - 1) (codes ", " ++ name))
unfolding add_name
add_name-some len text name some_byte room =
    if-false (len == 0) _ _ (==-false len 0 (λ z. omega (arith, some_byte, z)))
    ∙ if-true (leb len 2048) _ _ room

usb_list_from-none :
    (len : ℕ) (text : List ℕ) (front : List (List ℕ)) (name : List ℕ) (rest : List (List ℕ))
    → 0 < len
    → AllVisible front
    → IsVisible name
    → 2048 < counted len front
    → usb_list_from (front ++ (name ∷ rest)) (some (len, text)) ≡ none
unfolding usb_list_from
usb_list_from-none len text [] name rest some_byte all visible long =
    if-false (is_hidden name) _ _ visible.1
    ∙ ap (usb_list_from rest) (add_name-none len text name long)
usb_list_from-none len text (next ∷ front) name rest some_byte (shown, all) visible long =
    if-false (is_hidden next) _ _ shown.1 ∙ elim (Bool-cases (leb len 2048)) [
      | inl room ↦
          ap (usb_list_from (front ++ (name ∷ rest))) (add_name-some len text next some_byte room)
          ∙ usb_list_from-none (len + length (codes ", " ++ next)) _ front name rest (omega arith)
              all visible long
      | inr full ↦
          ap (usb_list_from (front ++ (name ∷ rest))) (add_name-none len text next (ground arith))
    ]

pub available_usb_fits :
    (first : List ℕ) (front : List (List ℕ))
    → AllVisible (first ∷ front)
    → length (joined first front) ≤ 2047
    → available_usb (first ∷ front) ≡ some (joined first front)
unfolding available_usb usb_text
available_usb_fits first front (shown, all) fits =
    ap usb_text (
      first_name first front shown
      ∙ ap (λ text. usb_list_from front (some (length first, text)))
          (take-all 2047 first (omega (arith, fits, length-joined first front)))
      ∙ usb_list_from-fits first front shown.0 all fits)
    ∙ if-false (length (joined first front) == 0) _ _ (
        ==-false (length (joined first front)) 0
          (λ z. omega (arith, z, shown.0, length-joined first front)))

pub overrun_visible :
    (first : List ℕ) (front : List (List ℕ)) (name : List ℕ) (rest : List (List ℕ))
    → AllVisible (first ∷ front)
    → IsVisible name
    → 2048 < length (joined first front)
    → available_usb (first ∷ (front ++ (name ∷ rest))) ≡ none
unfolding available_usb usb_text
overrun_visible first front name rest (shown, all) visible long = ap usb_text (
    first_name first (front ++ (name ∷ rest)) shown
    ∙ usb_list_from-none (length first) (take 2047 first) front name rest shown.0 all visible
        (subst (λ n. 2048 < n) (length-joined_counted first front) long))
