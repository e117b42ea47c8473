-- ===== src/Filter/Sorted.antt =====
-- In a sorted rule array the rules for an id stand together, from the first of them on.
use ksg_canbus_rpi_sniffer.Prelude.{
  ℕ, ◌≤◌, ◌<◌, ◌≡◌, refl, ap, List, [], ◌∷◌, ◌==◌, ==_iff, inl, inr, Bool-cases, take, drop, arith,
}
use ksg_canbus_rpi_sniffer.Filter.Rule.{CanFilterRule}
use ksg_canbus_rpi_sniffer.Filter.Spec.{rule_id, rules_for, All, IsSorted}
use ksg_canbus_rpi_sniffer.Filter.Table.{first, count}

pub none_above :
    (k m : ℕ) (rs : List CanFilterRule) → k < m → All (λ s. m ≤ rule_id s) rs → rules_for k rs ≡ []
none_above k m [] h a = refl
none_above k m (r ∷ rs) h a = ground (arith, none_above k m rs h a.1)

pub All-le_trans :
    (k m : ℕ) (rs : List CanFilterRule)
    → k ≤ m
    → All (λ s. m ≤ rule_id s) rs
    → All (λ s. k ≤ rule_id s) rs
All-le_trans k m [] h a = tt
All-le_trans k m (r ∷ rs) h a = (omega arith, All-le_trans k m rs h a.1)

-- With no smaller id in the array, its rules for k are a prefix.
prefix_block :
    (k : ℕ) (rs : List CanFilterRule)
    → All (λ s. k ≤ rule_id s) rs
    → IsSorted rs
    → take (count k rs) rs ≡ rules_for k rs
prefix_block k [] a s = refl
prefix_block k (r ∷ rs) a s =
    ground (arith, prefix_block k rs a.1 s.1, none_above k (rule_id r) rs, s.0)

pub block :
    (k : ℕ) (rs : List CanFilterRule)
    → IsSorted rs
    → take (count k rs) (drop (first k rs) rs) ≡ rules_for k rs
block k [] s = refl
block k (r ∷ rs) s = elim (Bool-cases (rule_id r == k)) [
  | inl e ↦
      let h = (==_iff (rule_id r) k).0 e in
      let above = All-le_trans k (rule_id r) rs (omega arith) s.0 in
      rw e (ap (◌∷◌ r) (prefix_block k rs above s.1))
  | inr e ↦ rw e (block k rs s.1)
]
