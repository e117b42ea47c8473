-- ===== src/Prelude/Steps.antt =====
-- Runs of a step function over a list of turns: what every step keeps, and measures that the turns of
-- one kind lower.
use Prim.Native.Nat.{ℕ, ◌+◌, ◌-◌, ◌≤◌}
use mathlib.Core.Path.{◌≡◌}
use mathlib.Core.List.{List, [], ◌∷◌, ◌++◌}
use native.Mathlib.Omega.{arith}

-- How many of the turns are of a kind that counts 1, where others count 0.
abbrev pub count : {T : Type 0} → (T → ℕ) → List T → ℕ
count one [] = 0
count one (t ∷ ts) = one t + count one ts

pub count-append :
    {T : Type 0} (one : T → ℕ) (xs ys : List T) → count one (xs ++ ys) ≡ count one xs + count one ys
count-append one [] ys = omega arith
count-append one (x ∷ xs) ys = omega (arith, count-append one xs ys)

module _ {S T : Type 0} (step : T → S → S) where
  abbrev pub steps : List T → S → S
  steps [] s = s
  steps (t ∷ ts) s = steps ts (step t s)

  module _ (P : S → Type 0) (keeps : (t : T) (s : S) → P s → P (step t s)) where
    pub steps-keep : (ts : List T) (s : S) → P s → P (steps ts s)
    steps-keep [] s p = p
    steps-keep (t ∷ ts) s p = steps-keep ts (step t s) (keeps t s p)

    -- A measure that each turn of the kind lowers by one at least, while the condition lasts.
    pub steps-lower :
        (one : T → ℕ) (m : S → ℕ)
        → ((t : T) (s : S) → P s → m (step t s) ≤ m s - one t)
        → (ts : List T) (s : S) → P s
        → m (steps ts s) ≤ m s - count one ts
    steps-lower one m lowers [] s p = omega arith
    steps-lower one m lowers (t ∷ ts) s p =
        let rest = steps-lower one m lowers ts (step t s) (keeps t s p) in
        let now = lowers t s p in omega arith
