-- ===== src/Status/Texts.antt =====
-- The messages that StatusManager keeps for one key: one, and that of the last update_status.
use mathlib.Core.Logic.{∥∥₁_elim}
use mathlib.Core.List.{Perm, Permᴰ, is_set}
use mathlib.Core.List.Permᴰ
use native.Mathlib.Nat.{ℕ_set}
use ksg_canbus_rpi_sniffer.Prelude.{
  ℕ, ◌≤◌, ◌≡◌, refl, ap, ◌∙◌, false, Bool-cases, inl, inr, List, [], ◌∷◌, if◌then◌else◌, length,
  subst, arith,
}
use ksg_canbus_rpi_sniffer.Text.{str_eq, str_eq_refl, str_eq_sound}
use ksg_canbus_rpi_sniffer.Status.Manager.{Message, update_status}

-- The texts that the messages have for a key.
unfoldable pub texts_of : List ℕ → List Message → List (List ℕ)
texts_of key [] = []
texts_of key (m ∷ rest) =
    let later = texts_of key rest in if str_eq m.key key then m.text ∷ later else later

pub texts_of-other :
    (key other text : List ℕ) (messages : List Message)
    → str_eq other key ≡ false
    → texts_of key (update_status other text messages) ≡ texts_of key messages
unfolding texts_of update_status
texts_of-other key other text [] h = rw h
texts_of-other key other text (m ∷ rest) h = elim (Bool-cases (str_eq m.key other)) [
  | inl e ↦
      let f : str_eq m.key key ≡ false = ap (λ k. str_eq k key) (str_eq_sound m.key other e) ∙ h in
      rw (e, f)
  | inr e ↦ rw e (
      ap (λ later. if str_eq m.key key then m.text ∷ later else later)
        (texts_of-other key other text rest h))
]

no_more : (text : List ℕ) (later : List (List ℕ)) → length (text ∷ later) ≤ 1 → later ≡ []
no_more text [] h = refl
no_more text (next ∷ later) h = absurd (omega (arith, h))

pub texts_of-update_status :
    (key text : List ℕ) (messages : List Message)
    → length (texts_of key messages) ≤ 1
    → texts_of key (update_status key text messages) ≡ text ∷ []
unfolding texts_of update_status
texts_of-update_status key text [] h = rw (str_eq_refl key)
texts_of-update_status key text (m ∷ rest) h = elim (Bool-cases (str_eq m.key key)) [
  | inl e ↦
      let shape : texts_of key (m ∷ rest) ≡ m.text ∷ texts_of key rest = rw e in
      rw (e, e)
        (ap (◌∷◌ text) (no_more m.text (texts_of key rest) (subst (λ ts. length ts ≤ 1) shape h)))
  | inr e ↦
      let shape : texts_of key (m ∷ rest) ≡ texts_of key rest = rw e in
      rw (e, e) (texts_of-update_status key text rest (subst (λ ts. length ts ≤ 1) shape h))
]

texts_of-permᴰ :
    (key : List ℕ) {xs ys : List Message} → Permᴰ xs ys → Permᴰ (texts_of key xs) (texts_of key ys)
unfolding texts_of
texts_of-permᴰ key Permᴰ.nil = Permᴰ.nil
texts_of-permᴰ key (Permᴰ.cons {a = a} {b = b} e p) = rw e (elim (Bool-cases (str_eq b.key key)) [
  | inl h ↦ rw h (Permᴰ.cons refl (texts_of-permᴰ key p))
  | inr h ↦ rw h (texts_of-permᴰ key p)
])
texts_of-permᴰ key (Permᴰ.swap {a = a} {b = b} {a' = a'} {b' = b'} {l = l} e f) =
    rw (e, f)
      (elim (Bool-cases (str_eq a'.key key)) [
        | inl g ↦ elim (Bool-cases (str_eq b'.key key)) [
          | inl h ↦ rw (g, h) (Permᴰ.swap refl refl)
          | inr h ↦ rw (g, h) (Permᴰ.refl _)
        ]
        | inr g ↦ rw g (Permᴰ.refl _)
      ])
texts_of-permᴰ key (Permᴰ.trans p q) = Permᴰ.trans (texts_of-permᴰ key p) (texts_of-permᴰ key q)

permᴰ-nil : {ts us : List (List ℕ)} → Permᴰ ts us → us ≡ [] → ts ≡ []
permᴰ-nil Permᴰ.nil h = refl
permᴰ-nil (Permᴰ.cons e p) h = absurd (cc h)
permᴰ-nil (Permᴰ.swap e f) h = absurd (cc h)
permᴰ-nil (Permᴰ.trans p q) h = permᴰ-nil p (permᴰ-nil q h)

permᴰ-single :
    (text : List ℕ) {ts us : List (List ℕ)} → Permᴰ ts us → us ≡ text ∷ [] → ts ≡ text ∷ []
permᴰ-single text Permᴰ.nil h = h
permᴰ-single text (Permᴰ.cons {a = a} {b = b} {l₁ = l₁} {l₂ = l₂} e p) h =
    let l : l₂ ≡ [] = cc h in let n = permᴰ-nil p l in cc (e, n, h)
permᴰ-single text (Permᴰ.swap e f) h = absurd (cc h)
permᴰ-single text (Permᴰ.trans p q) h = permᴰ-single text p (permᴰ-single text q h)

-- A rearrangement of the messages keeps the only text of a key.
pub texts_of-perm :
    (key text : List ℕ) {xs ys : List Message}
    → Perm xs ys
    → texts_of key ys ≡ text ∷ []
    → texts_of key xs ≡ text ∷ []
texts_of-perm key text p h =
    ∥∥₁_elim p (is_set (is_set ℕ_set) _ _) (λ q. permᴰ-single text (texts_of-permᴰ key q) h)
