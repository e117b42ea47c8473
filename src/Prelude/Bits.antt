-- ===== src/Prelude/Bits.antt =====
-- Bytes and words: the bit operations digit by digit, masks of ones, and checks over a whole byte.
use Prim.Native.Nat.{
  ℕ, zero, suc, ◌+◌, ◌-◌, ◌*◌, ◌/◌, ◌%◌, ◌≤◌, ◌<◌, min, max, bit_and, bit_or, digits,
}
use Prim.Native.Nat.{bit_and-bitwise, bit_or-bitwise}
use mathlib.Core.Path.{◌≡◌, refl, sym, ap, ◌∙◌}
use mathlib.Core.Bool.{Bool, true, ◌&&◌}
use native.Mathlib.Omega.{arith}

-- Addition by the first argument, for a count of rounds.
abbrev raise : ℕ → ℕ → ℕ
raise zero n = n
raise (suc k) n = suc (raise k n)

raise_lem : (k n : ℕ) → raise k n ≡ k + n
raise_lem zero n = omega arith
raise_lem (suc k) n = omega (arith, raise_lem k n)

-- The recursion behind a bit operation, with its value at 0 and its effect on one digit.
module _ (base : ℕ → ℕ) (digit : ℕ → ℕ → ℕ) where
  one_more : (n x y : ℕ) → x ≤ n → digits base digit (suc n) x y ≡ digits base digit n x y
  one_more zero zero y h = refl
  one_more zero (suc x) y h = absurd (omega (arith, h))
  one_more (suc n) zero y h = refl
  one_more (suc n) (suc x) y h =
      ap (λ r. r * 2 + digit (suc x % 2) (y % 2))
        (one_more n (suc x / 2) (y / 2) (omega (arith, h)))

  more : (k n x y : ℕ) → x ≤ n → digits base digit (raise k n) x y ≡ digits base digit n x y
  more zero n x y h = refl
  more (suc k) n x y h = one_more (raise k n) x y (omega (arith, h, raise_lem k n)) ∙ more k n x y h

  -- As many rounds as the number is large are enough for its half.
  half_rounds :
      (x y : ℕ) → digits base digit x (suc x / 2) y ≡ digits base digit (suc x / 2) (suc x / 2) y
  half_rounds x y =
      let split : raise (x - suc x / 2) (suc x / 2) ≡ x =
        omega (arith, raise_lem (x - suc x / 2) (suc x / 2)) in
      ap (λ n. digits base digit n (suc x / 2) y) (sym split)
      ∙ more (x - suc x / 2) (suc x / 2) (suc x / 2) y (omega arith)

pub bit_and_step : (x y : ℕ) → bit_and x y ≡ bit_and (x / 2) (y / 2) * 2 + min (x % 2) (y % 2)
bit_and_step zero y = simp (bit_and-bitwise) (omega arith)
bit_and_step (suc x) y =
    simp (bit_and-bitwise)
      (ap (λ r. r * 2 + min (suc x % 2) (y % 2)) (half_rounds (λ d. zero) min x (y / 2)))

pub bit_or_step : (x y : ℕ) → bit_or x y ≡ bit_or (x / 2) (y / 2) * 2 + max (x % 2) (y % 2)
bit_or_step zero y = simp (bit_or-bitwise) (omega arith)
bit_or_step (suc x) y =
    simp (bit_or-bitwise)
      (ap (λ r. r * 2 + max (suc x % 2) (y % 2)) (half_rounds (λ d. d) max x (y / 2)))

-- Bit i of a number.
abbrev pub bit : ℕ → ℕ → ℕ
bit zero x = x % 2
bit (suc i) x = bit i (x / 2)

pub bit-bit_and : (i a b : ℕ) → bit i (bit_and a b) ≡ min (bit i a) (bit i b)
bit-bit_and zero a b = omega (arith, bit_and_step a b)
bit-bit_and (suc i) a b =
    ap (bit i) (omega (arith, bit_and_step a b)) ∙ bit-bit_and i (a / 2) (b / 2)

pub bit-bit_or : (i a b : ℕ) → bit i (bit_or a b) ≡ max (bit i a) (bit i b)
bit-bit_or zero a b = omega (arith, bit_or_step a b)
bit-bit_or (suc i) a b = ap (bit i) (omega (arith, bit_or_step a b)) ∙ bit-bit_or i (a / 2) (b / 2)

bit_and-zero_below : (bound x : ℕ) → x < bound → bit_and x 0 ≡ 0
bit_and-zero_below zero x h = absurd (omega (arith, h))
bit_and-zero_below (suc bound) zero h = refl
bit_and-zero_below (suc bound) (suc x) h =
    bit_and_step (suc x) 0 ∙ omega (arith, bit_and-zero_below bound (suc x / 2) (omega (arith, h)))

-- A mask of k ones keeps the low k bits.
bit_and-one : (a : ℕ) → bit_and a 1 ≡ a % 2
bit_and-one a =
    omega (arith, bit_and_step a 1, bit_and-zero_below (suc (a / 2)) (a / 2) (omega arith))

bit_and-mask2 : (a : ℕ) → bit_and a 3 ≡ a % 4
bit_and-mask2 a = omega (arith, bit_and_step a 3, bit_and-one (a / 2))

bit_and-mask3 : (a : ℕ) → bit_and a 7 ≡ a % 8
bit_and-mask3 a = omega (arith, bit_and_step a 7, bit_and-mask2 (a / 2))

bit_and-mask4 : (a : ℕ) → bit_and a 15 ≡ a % 16
bit_and-mask4 a = omega (arith, bit_and_step a 15, bit_and-mask3 (a / 2))

bit_and-mask5 : (a : ℕ) → bit_and a 31 ≡ a % 32
bit_and-mask5 a = omega (arith, bit_and_step a 31, bit_and-mask4 (a / 2))

bit_and-mask6 : (a : ℕ) → bit_and a 63 ≡ a % 64
bit_and-mask6 a = omega (arith, bit_and_step a 63, bit_and-mask5 (a / 2))

bit_and-mask7 : (a : ℕ) → bit_and a 127 ≡ a % 128
bit_and-mask7 a = omega (arith, bit_and_step a 127, bit_and-mask6 (a / 2))

bit_and-mask8 : (a : ℕ) → bit_and a 255 ≡ a % 256
bit_and-mask8 a = omega (arith, bit_and_step a 255, bit_and-mask7 (a / 2))

bit_and-mask9 : (a : ℕ) → bit_and a 511 ≡ a % 512
bit_and-mask9 a = omega (arith, bit_and_step a 511, bit_and-mask8 (a / 2))

bit_and-mask10 : (a : ℕ) → bit_and a 1023 ≡ a % 1024
bit_and-mask10 a = omega (arith, bit_and_step a 1023, bit_and-mask9 (a / 2))

-- The mask of a standard CAN id.
pub bit_and-mask11 : (a : ℕ) → bit_and a 0x7ff ≡ a % 2048
bit_and-mask11 a = omega (arith, bit_and_step a 2047, bit_and-mask10 (a / 2))

-- A test of every number below a bound, by evaluation.
unfoldable pub all_below : ℕ → (ℕ → Bool) → Bool
all_below zero test = true
all_below (suc last) test = all_below last test && test last

pub all_below_sound :
    (bound : ℕ) (test : ℕ → Bool) (x : ℕ) → all_below bound test ≡ true → x < bound → test x ≡ true
unfolding all_below
all_below_sound zero test x passed inside = absurd (omega (arith, inside))
all_below_sound (suc last) test x passed inside = ground (arith, all_below_sound last test x)
