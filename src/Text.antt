-- ===== src/Text.antt =====
-- C strings: the bytes before the NUL, and what the source uses of <string.h>, <ctype.h> and <stdio.h>.
use Prim.Native.Char.{code}
use Prim.Native.String.{String}
use ksg_canbus_rpi_sniffer.Prelude.{
  ℕ, ◌-◌, ◌≡◌, ◌≢◌, refl, Bool, true, false, ◌&&◌, ◌||◌, Option, none, some, List, [], ◌∷◌, ◌++◌,
  ◌==◌, leb, if◌then◌else◌, take, arith,
}

-- The bytes of a text in ASCII.
abbrev pub codes : String → List ℕ
codes String.[] = []
codes (String.◌∷◌ c s) = code c ∷ codes s

-- The string that starts a memory.
unfoldable pub c_string : List ℕ → List ℕ
c_string [] = []
c_string (b ∷ rest) = if b == 0 then [] else b ∷ c_string rest

-- snprintf(out, size, "%s", s), for a size that is not 0.
abbrev pub snprintf : ℕ → List ℕ → List ℕ
snprintf size s = take (size - 1) s

-- strcmp(s, t) == 0
unfoldable pub str_eq : List ℕ → List ℕ → Bool
str_eq [] [] = true
str_eq [] (c ∷ t) = false
str_eq (b ∷ s) [] = false
str_eq (b ∷ s) (c ∷ t) = b == c && str_eq s t

abbrev pub is_empty : List ℕ → Bool
is_empty [] = true
is_empty (b ∷ s) = false

-- strchr(s, c): what stands before the first c and what stands behind it.
unfoldable pub cons_before : ℕ → Option (List ℕ × List ℕ) → Option (List ℕ × List ℕ)
cons_before b none = none
cons_before b (some (before, behind)) = some (b ∷ before, behind)

unfoldable pub strchr : ℕ → List ℕ → Option (List ℕ × List ℕ)
unfolding cons_before
strchr c [] = none
strchr c (b ∷ s) = if b == c then some ([], s) else cons_before b (strchr c s)

-- isspace in the C locale
unfoldable pub is_space : ℕ → Bool
is_space c = c == 32 || (leb 9 c && leb c 13)

pub str_eq_refl : (s : List ℕ) → str_eq s s ≡ true
unfolding str_eq
str_eq_refl [] = refl
str_eq_refl (b ∷ s) = ground (arith, str_eq_refl s)

pub str_eq_sound : (s t : List ℕ) → str_eq s t ≡ true → s ≡ t
unfolding str_eq
str_eq_sound [] [] h = refl
str_eq_sound [] (c ∷ t) h = absurd (cc h)
str_eq_sound (b ∷ s) [] h = absurd (cc h)
str_eq_sound (b ∷ s) (c ∷ t) h = ground (arith, str_eq_sound s t)

-- No byte of the string is c.
abbrev pub Lacks : ℕ → List ℕ → Type 0
Lacks c [] = Unit
Lacks c (b ∷ s) = (b ≢ c) × Lacks c s

pub strchr-Lacks-none : (c : ℕ) (s : List ℕ) → Lacks c s → strchr c s ≡ none
unfolding strchr
strchr-Lacks-none c [] h = refl
strchr-Lacks-none c (b ∷ s) h = ground (arith, strchr-Lacks-none c s)

pub strchr-append : (c : ℕ) (s t : List ℕ) → Lacks c s → strchr c (s ++ (c ∷ t)) ≡ some (s, t)
unfolding strchr
strchr-append c [] t h = ground arith
strchr-append c (b ∷ s) t h = ground (arith, strchr-append c s t)
