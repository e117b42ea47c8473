-- ===== src/Filter/Table.antt =====
-- The lookup table that FilterEngine::loadRules builds: the 8-bit counter of an id counts its rules
-- modulo 256, and below that its pointer is at the first of them.
use ksg_canbus_rpi_sniffer.Prelude.{
  ℕ, suc, ◌+◌, ◌%◌, ◌<◌, ◌≡◌, ◌≢◌, refl, ◌∙◌, some, List, [], ◌∷◌, ◌==◌, if◌then◌else◌, length,
  arith,
}
use ksg_canbus_rpi_sniffer.Prelude.Bits.{bit_and-mask11}
use ksg_canbus_rpi_sniffer.Filter.Rule.{CanFilterRule}
use ksg_canbus_rpi_sniffer.Filter.Engine.{Engine, masked_id, add_rule, build}
use ksg_canbus_rpi_sniffer.Filter.Spec.{rule_id, rules_for}

pub masked_id-lt : (can_id : ℕ) → masked_id can_id < 2048
unfolding masked_id
masked_id-lt can_id = omega (arith, bit_and-mask11 can_id)

-- The place of the first rule for an id.
abbrev pub first : ℕ → List CanFilterRule → ℕ
first k [] = 0
first k (r ∷ rs) = if rule_id r == k then 0 else suc (first k rs)

abbrev pub count : ℕ → List CanFilterRule → ℕ
count k rs = length (rules_for k rs)

module _ (r : CanFilterRule) (i : ℕ) (e : Engine) (k : ℕ) where
  counts-add_rule :
      (add_rule r i e).id_counts k
      ≡ (if rule_id r == k then (e.id_counts k + 1) % 256 else e.id_counts k)
  unfolding add_rule masked_id
  counts-add_rule = ground (arith, masked_id-lt r.can_id)

  lookup-add_rule : (add_rule r i e).id_lookup k ≡ (
      if rule_id r == k
      then (if e.id_counts k == 0 then some i else e.id_lookup k)
      else e.id_lookup k)
  unfolding add_rule
  lookup-add_rule = ground (arith, masked_id-lt r.can_id)

pub rules-add_rule : (r : CanFilterRule) (i : ℕ) (e : Engine) → (add_rule r i e).rules ≡ e.rules
unfolding add_rule
rules-add_rule r i e = ground arith

pub rules-build : (rs : List CanFilterRule) (i : ℕ) (e : Engine) → (build rs i e).rules ≡ e.rules
unfolding build
rules-build [] i e = refl
rules-build (r ∷ rs) i e = rules-build rs (suc i) (add_rule r i e) ∙ rules-add_rule r i e

pub counts-build :
    (rs : List CanFilterRule) (i : ℕ) (e : Engine) (k : ℕ)
    → e.id_counts k < 256
    → (build rs i e).id_counts k ≡ (e.id_counts k + count k rs) % 256
unfolding build
counts-build [] i e k h = omega arith
counts-build (r ∷ rs) i e k h =
    ground (arith, counts-add_rule r i e k, counts-build rs (suc i) (add_rule r i e) k)

-- A pointer that is set stays, as long as its counter does not come back to 0.
lookup-build_kept :
    (rs : List CanFilterRule) (i : ℕ) (e : Engine) (k : ℕ)
    → e.id_counts k ≢ 0
    → e.id_counts k + count k rs < 256
    → (build rs i e).id_lookup k ≡ e.id_lookup k
unfolding build
lookup-build_kept [] i e k p h = refl
lookup-build_kept (r ∷ rs) i e k p h = ground (
  arith,
  counts-add_rule r i e k,
  lookup-add_rule r i e k,
  lookup-build_kept rs (suc i) (add_rule r i e) k,
)

pub lookup-build :
    (rs : List CanFilterRule) (i : ℕ) (e : Engine) (k : ℕ)
    → e.id_counts k ≡ 0
    → count k rs < 256
    → count k rs ≢ 0
    → (build rs i e).id_lookup k ≡ some (i + first k rs)
unfolding build
lookup-build [] i e k z h p = absurd (p refl)
lookup-build (r ∷ rs) i e k z h p = ground (
  arith,
  counts-add_rule r i e k,
  lookup-add_rule r i e k,
  lookup-build_kept rs (suc i) (add_rule r i e) k,
  lookup-build rs (suc i) (add_rule r i e) k,
)
