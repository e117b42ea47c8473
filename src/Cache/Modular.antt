-- ===== src/Cache/Modular.antt =====
-- Steps round a ring of n places.
use native.Mathlib.Nat.{mod-eq_of_lt, mod-eq-sub-mod}
use ksg_canbus_rpi_sniffer.Prelude.{ℕ, ◌+◌, ◌-◌, ◌%◌, ◌≤◌, ◌<◌, ◌≡◌, ltb, if◌then◌else◌, arith}
use native.Mathlib.Decide.{dec_lt}

-- At most n steps from a place inside the ring go round once at most.
pub mod_once :
    (n a j : ℕ) → a < n → j ≤ n → (a + j) % n ≡ (if ltb (a + j) n then a + j else a + j - n)
mod_once n a j ha hj = elim (dec_lt (a + j) n) [
  | yes p ↦ ground (arith, mod-eq_of_lt p)
  | no p ↦ ground (
    arith,
    mod-eq-sub-mod {n = a + j} {m = n} (omega arith),
    mod-eq_of_lt {n = a + j - n} {m = n} (omega arith),
  )
]
