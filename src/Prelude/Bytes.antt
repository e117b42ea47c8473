-- ===== src/Prelude/Bytes.antt =====
-- Little-endian fields of packed structures, as the host lays them out in memory.
use Prim.Native.Nat.{ℕ, zero, suc, ◌+◌, ◌*◌, ◌/◌, ◌%◌, ◌^◌, ◌<◌}
use mathlib.Core.Path.{◌≡◌, refl, ap, ◌∙◌}
use mathlib.Core.List.{List, [], ◌∷◌, ◌++◌}
use native.Mathlib.Omega.{arith}
use ksg_canbus_rpi_sniffer.Prelude.Lists.{length, take, drop, take-append_left, drop-append_left}

-- The w bytes of a number, lowest first; what does not fit in w bytes is lost.
abbrev pub le_bytes : ℕ → ℕ → List ℕ
le_bytes zero n = []
le_bytes (suc w) n = (n % 256) ∷ le_bytes w (n / 256)

abbrev pub of_le : List ℕ → ℕ
of_le [] = 0
of_le (b ∷ bs) = b + 256 * of_le bs

-- The w bytes at offset o, as a number.
unfoldable pub field : ℕ → ℕ → List ℕ → ℕ
field o w bytes = of_le (take w (drop o bytes))

pub length-le_bytes : (w n : ℕ) → length (le_bytes w n) ≡ w
length-le_bytes zero n = refl
length-le_bytes (suc w) n = ap suc (length-le_bytes w (n / 256))

pub of_le-le_bytes_one : (n : ℕ) → n < 256 → of_le (le_bytes 1 n) ≡ n
of_le-le_bytes_one n h = omega arith

pub of_le-le_bytes_four : (n : ℕ) → n < 2 ^ 32 → of_le (le_bytes 4 n) ≡ n
of_le-le_bytes_four n h = omega arith

pub of_le-le_bytes_eight : (n : ℕ) → n < 2 ^ 64 → of_le (le_bytes 8 n) ≡ n
of_le-le_bytes_eight n h = omega arith

-- A field is read back from behind a prefix of known length.
pub field-append :
    (pre w rest : List ℕ) (o n : ℕ)
    → o ≡ length pre
    → n ≡ length w
    → field o n (pre ++ (w ++ rest)) ≡ of_le w
unfolding field
field-append pre w rest o n ho hn =
    ap of_le (ap (take n) (drop-append_left pre (w ++ rest) o ho) ∙ take-append_left w rest n hn)
