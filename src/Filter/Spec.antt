-- ===== src/Filter/Spec.antt =====
-- What the filter promises, read off the comments of include/communication/CanbusProtocol.h with no
-- lookup table: the rules for an id, whether a rule applies to a frame, and the first that does.
use ksg_canbus_rpi_sniffer.Prelude.{
  ℕ, ◌≤◌, Bool, true, not, ◌&&◌, ◌||◌, List, [], ◌∷◌, ltb, ◌==◌, if◌then◌else◌, get_or, bit_and,
}
use mathlib.Core.List.{Perm}
use ksg_canbus_rpi_sniffer.Filter.Rule.{CanFilterRule, Source, Verdict, act, wrong_direction}
use ksg_canbus_rpi_sniffer.Filter.Engine.{masked_id}

abbrev pub rule_id : CanFilterRule → ℕ
rule_id r = masked_id r.can_id

-- The rules for an id, in order.
abbrev pub rules_for : ℕ → List CanFilterRule → List CanFilterRule
rules_for k [] = []
rules_for k (r ∷ rs) = if rule_id r == k then r ∷ rules_for k rs else rules_for k rs

-- The rule is for this direction, and its condition on a data byte is absent or met.
unfoldable pub applies : CanFilterRule → List ℕ → ℕ → Source → Bool
applies r bytes len source =
    not (wrong_direction r source)
    && (r.data_mask == 0
        || (ltb r.data_index len
            && bit_and (get_or bytes r.data_index 0) r.data_mask == r.data_value))

-- The first rule that applies decides; if none does, the frame passes as it is.
unfoldable pub decide_frame : List CanFilterRule → List ℕ → ℕ → Source → Verdict
decide_frame [] bytes len source = (true, bytes)
decide_frame (r ∷ rs) bytes len source =
    if applies r bytes len source then act r bytes len else decide_frame rs bytes len source

abbrev pub All {ℓ κ} : {A : Type ℓ} → (A → Type κ) → List A → Type κ
All P [] = Unit
All P (x ∷ xs) = P x × All P xs

-- Ascending by the masked id, the order of the comparison in loadRules.
abbrev pub IsSorted : List CanFilterRule → Type 0
IsSorted [] = Unit {0}
IsSorted (r ∷ rs) = All (λ s. rule_id r ≤ rule_id s) rs × IsSorted rs

-- What `std::sort` documents: a rearrangement, in ascending order. It need not be stable.
pub record IsSort (sort : List CanFilterRule → List CanFilterRule) : Type 0 where
  pub perm : (rs : List CanFilterRule) → Perm (sort rs) rs
  pub sorted : (rs : List CanFilterRule) → IsSorted (sort rs)
