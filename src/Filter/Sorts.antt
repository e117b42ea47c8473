-- ===== src/Filter/Sorts.antt =====
-- Two sorts that keep the contract of std::sort: one keeps the order of equal ids, one turns it
-- round. The contract does not say which the program gets.
use mathlib.Core.List.{Perm, reverse, reverse-cons}
use mathlib.Core.List.Perm
use ksg_canbus_rpi_sniffer.Prelude.{
  ℕ, ◌≤◌, ◌<◌, ◌≡◌, refl, ◌∙◌, inl, inr, Bool, true, false, some, List, [], ◌∷◌, ◌++◌, ltb, leb,
  ◌==◌, if◌then◌else◌, Bool-cases, length, arith,
}
use ksg_canbus_rpi_sniffer.Filter.Rule.{CanFilterRule, Source}
use ksg_canbus_rpi_sniffer.Filter.Engine.{masked_id, load_rules, process}
use ksg_canbus_rpi_sniffer.Filter.Spec.{rule_id, rules_for, decide_frame, All, IsSorted, IsSort}
use ksg_canbus_rpi_sniffer.Filter.Table.{count}
use ksg_canbus_rpi_sniffer.Filter.Sorted.{none_above, All-le_trans}
use ksg_canbus_rpi_sniffer.Filter.Order.{loaded, process-load_rules}

abbrev before : Bool → ℕ → ℕ → Bool
before strict a b = if strict then ltb a b else leb a b

unfoldable pub insert_rule : Bool → CanFilterRule → List CanFilterRule → List CanFilterRule
insert_rule strict r [] = r ∷ []
insert_rule strict r (s ∷ ss) =
    if before strict (rule_id r) (rule_id s) then r ∷ s ∷ ss else s ∷ insert_rule strict r ss

-- Insertion sort; `true` puts a rule behind those of the same id that follow it in the list.
unfoldable pub sort_rules : Bool → List CanFilterRule → List CanFilterRule
unfolding insert_rule
sort_rules strict [] = []
sort_rules strict (r ∷ rs) = insert_rule strict r (sort_rules strict rs)

insert_rule-perm :
    (strict : Bool) (r : CanFilterRule) (ss : List CanFilterRule)
    → Perm (insert_rule strict r ss) (r ∷ ss)
unfolding insert_rule
insert_rule-perm strict r [] = Perm.refl (r ∷ [])
insert_rule-perm strict r (s ∷ ss) = elim (Bool-cases (before strict (rule_id r) (rule_id s))) [
  | inl e ↦ rw e (Perm.refl (r ∷ s ∷ ss))
  | inr e ↦ rw e (Perm.trans (Perm.cons s (insert_rule-perm strict r ss)) (Perm.swap r s ss))
]

sort_rules-perm : (strict : Bool) (rs : List CanFilterRule) → Perm (sort_rules strict rs) rs
unfolding sort_rules
sort_rules-perm strict [] = Perm.refl []
sort_rules-perm strict (r ∷ rs) =
    Perm.trans (insert_rule-perm strict r (sort_rules strict rs))
      (Perm.cons r (sort_rules-perm strict rs))

All-insert_rule :
    (strict : Bool) (m : ℕ) (r : CanFilterRule) (ss : List CanFilterRule)
    → m ≤ rule_id r
    → All (λ s. m ≤ rule_id s) ss
    → All (λ s. m ≤ rule_id s) (insert_rule strict r ss)
unfolding insert_rule
All-insert_rule strict m r [] h a = (h, tt)
All-insert_rule strict m r (s ∷ ss) h a =
    elim (Bool-cases (before strict (rule_id r) (rule_id s))) [
      | inl e ↦ rw e (h, a)
      | inr e ↦ rw e (a.0, All-insert_rule strict m r ss h a.1)
    ]

insert_rule-IsSorted :
    (strict : Bool) (r : CanFilterRule) (ss : List CanFilterRule)
    → IsSorted ss
    → IsSorted (insert_rule strict r ss)
unfolding insert_rule
insert_rule-IsSorted strict r [] h = (tt, tt)
insert_rule-IsSorted strict r (s ∷ ss) h =
    elim (Bool-cases (before strict (rule_id r) (rule_id s))) [
      | inl e ↦
          let le : rule_id r ≤ rule_id s = ground arith in
          rw e ((le, All-le_trans (rule_id r) (rule_id s) ss le h.0), h)
      | inr e ↦
          let le : rule_id s ≤ rule_id r = ground arith in
          rw e
            (All-insert_rule strict (rule_id s) r ss le h.0, insert_rule-IsSorted strict r ss h.1)
    ]

sort_rules-IsSorted : (strict : Bool) (rs : List CanFilterRule) → IsSorted (sort_rules strict rs)
unfolding sort_rules
sort_rules-IsSorted strict [] = tt
sort_rules-IsSorted strict (r ∷ rs) =
    insert_rule-IsSorted strict r (sort_rules strict rs) (sort_rules-IsSorted strict rs)

pub sort_rules-IsSort : (strict : Bool) → IsSort (sort_rules strict)
sort_rules-IsSort strict = record {
  perm = sort_rules-perm strict;
  sorted = sort_rules-IsSorted strict;
}

rules_for-insert_stable :
    (k : ℕ) (r : CanFilterRule) (ss : List CanFilterRule)
    → rules_for k (insert_rule false r ss) ≡ rules_for k (r ∷ ss)
unfolding insert_rule
rules_for-insert_stable k r [] = refl
rules_for-insert_stable k r (s ∷ ss) = ground (arith, rules_for-insert_stable k r ss)

pub rules_for-sort_stable :
    (k : ℕ) (rs : List CanFilterRule) → rules_for k (sort_rules false rs) ≡ rules_for k rs
unfolding sort_rules
rules_for-sort_stable k [] = refl
rules_for-sort_stable k (r ∷ rs) =
    rules_for-insert_stable k r (sort_rules false rs) ∙ ground (arith, rules_for-sort_stable k rs)

rules_for-insert_behind :
    (k : ℕ) (r : CanFilterRule) (ss : List CanFilterRule)
    → IsSorted ss
    → rules_for k (insert_rule true r ss)
      ≡ (if rule_id r == k then rules_for k ss ++ (r ∷ []) else rules_for k ss)
unfolding insert_rule
rules_for-insert_behind k r [] h = refl
rules_for-insert_behind k r (s ∷ ss) h =
    ground (arith, rules_for-insert_behind k r ss h.1, none_above k (rule_id s) ss, h.0)

rules_for-sort_behind :
    (k : ℕ) (rs : List CanFilterRule) → rules_for k (sort_rules true rs) ≡ reverse (rules_for k rs)
unfolding sort_rules
rules_for-sort_behind k [] = refl
rules_for-sort_behind k (r ∷ rs) =
    rules_for-insert_behind k r (sort_rules true rs) (sort_rules-IsSorted true rs)
    ∙ ground (arith, rules_for-sort_behind k rs, reverse-cons r (rules_for k rs))

-- The contract of std::sort allows the rules of an id to come out in reverse, and then the last rule
-- of the payload that is for the frame's id and applies decides, not the first.
pub process-load_rules_reversed :
    (payload : List ℕ) (can_id : ℕ) (bytes : List ℕ) (len : ℕ) (source : Source)
    → len ≤ length bytes
    → count (masked_id can_id) (loaded payload) < 256
    → IsSort (sort_rules true)
      × (process (load_rules (sort_rules true) payload) can_id bytes len source
          ≡ some (
              decide_frame
                (reverse (rules_for (masked_id can_id) (loaded payload)))
                bytes
                len
                source))
process-load_rules_reversed payload can_id bytes len source inside small = (
  sort_rules-IsSort true,
  process-load_rules (sort_rules true) (sort_rules-IsSort true) payload can_id bytes len source
        inside small
      ∙ rw (rules_for-sort_behind (masked_id can_id) (loaded payload)),
)
