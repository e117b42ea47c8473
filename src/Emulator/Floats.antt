-- ===== src/Emulator/Floats.antt =====
-- The arithmetic of C's `double` that the emulators use. The number type is a parameter, and what
-- the theorems need of it are laws that C and IEEE 754 give: a conversion to uint16_t has 16 bits, scaling a small
-- integer by four is exact, and so is the conversion of a small integer to a double and back.
use ksg_canbus_rpi_sniffer.Prelude.{ℕ, ◌^◌, ◌<◌, ◌≡◌, Bool}

-- `literal m e` is the decimal m / 10^e, `of_difference a b` the int a - b as a double. A conversion to an integer type gives the bits of the result.
pub record Floats : Type 1 where
  pub Double : Type 0
  pub literal : ℕ → ℕ → Double
  pub of_nat : ℕ → Double
  pub of_difference : ℕ → ℕ → Double
  pub neg : Double → Double
  pub add : Double → Double → Double
  pub sub : Double → Double → Double
  pub mul : Double → Double → Double
  pub div : Double → Double → Double
  pub less : Double → Double → Bool
  pub sin : Double → Double
  pub fabs : Double → Double
  pub to_uint8 : Double → ℕ
  pub to_uint16 : Double → ℕ
  pub to_int16 : Double → ℕ
  pub to_int : Double → ℕ

-- The laws.
pub record IsExact (f : Floats) : Type 0 where
  pub to_uint16_small : (x : f.Double) → f.to_uint16 x < 2 ^ 16
  pub quarters :
      (v : ℕ)
      → v < 2 ^ 16
      → f.mul (f.div (f.of_nat v) (f.literal 40 1)) (f.literal 4 0) ≡ f.of_nat v
  pub to_int-of_nat : (v : ℕ) → v < 2 ^ 16 → f.to_int (f.of_nat v) ≡ v
