-- ===== src/Filter/Order.antt =====
-- FilterEngine::loadRules followed by FilterEngine::process, over any sort that keeps the contract of
-- std::sort.
use mathlib.Core.Logic.{∥∥₁_elim}
use mathlib.Core.List.{Perm, Permᴰ, Mem, mem-cons_self, mem-cons_of_mem, mem-cons, not-mem-nil}
use mathlib.Core.Logic.Or
use mathlib.Core.List.Perm
use mathlib.Core.Bool.{Bool-set}
use native.Mathlib.Nat.{ℕ_set}
use ksg_canbus_rpi_sniffer.Prelude.{
  ℕ, ◌%◌, ◌≤◌, ◌<◌, ◌≡◌, refl, sym, ap, ◌∙◌, inl, inr, ◌⊎◌, true, false, some, List, [], ◌∷◌, ◌==◌,
  ==_iff, Bool-cases, length, drop, ap, ◌/◌, ◌≤◌, suc, zero, arith,
}
use ksg_canbus_rpi_sniffer.Filter.Rule.{CanFilterRule, Source, Verdict, act, decode_rules}
use ksg_canbus_rpi_sniffer.Filter.Engine.{init_internal, masked_id, load_rules, num_rules, process}
use ksg_canbus_rpi_sniffer.Filter.Spec.{rule_id, rules_for, applies, decide_frame, IsSort}
use ksg_canbus_rpi_sniffer.Filter.Table.{count}
use ksg_canbus_rpi_sniffer.Filter.Process.{table, process-table, process-table_wrapped}

-- The rules that loadRules reads out of a payload.
abbrev pub loaded : List ℕ → List CanFilterRule
loaded bytes = decode_rules (num_rules (length bytes)) bytes

-- A rearrangement of the rules keeps the number of rules for each id.
count-permᴰ : (k : ℕ) {rs ss : List CanFilterRule} → Permᴰ rs ss → count k rs ≡ count k ss
count-permᴰ k Permᴰ.nil = refl
count-permᴰ k (Permᴰ.cons {a = a} {b = b} e p) = rw e (ground (arith, count-permᴰ k p))
count-permᴰ k (Permᴰ.swap {a = a} {b = b} {a' = a'} {b' = b'} e f) = rw (e, f) (ground arith)
count-permᴰ k (Permᴰ.trans p q) = count-permᴰ k p ∙ count-permᴰ k q

pub count-perm : (k : ℕ) {rs ss : List CanFilterRule} → Perm rs ss → count k rs ≡ count k ss
count-perm k p = ∥∥₁_elim p (ℕ_set _ _) (count-permᴰ k)

load_rules_lem :
    (sort : List CanFilterRule → List CanFilterRule) (payload : List ℕ)
    → load_rules sort payload ≡ table (sort (loaded payload))
unfolding load_rules init_internal
load_rules_lem sort payload = refl

-- A rule of the id that applies, or none that does, decides the frame.
abbrev pub Decided : List CanFilterRule → ℕ → List ℕ → ℕ → Source → Verdict → Type 0
Decided rs k bytes len source v =
    ((r : CanFilterRule) × Mem r rs
      × (rule_id r ≡ k)
      × (applies r bytes len source ≡ true)
      × (v ≡ act r bytes len))
    ⊎ (((r : CanFilterRule) → Mem r rs → rule_id r ≡ k → applies r bytes len source ≡ false)
        × (v ≡ (true, bytes)))

Decided-skip :
    (r : CanFilterRule) (rs : List CanFilterRule) (k : ℕ) (bytes : List ℕ) (len : ℕ)
    (source : Source) (v : Verdict)
    → (rule_id r ≡ k → applies r bytes len source ≡ false)
    → Decided rs k bytes len source v
    → Decided (r ∷ rs) k bytes len source v
Decided-skip r rs k bytes len source v skip (inl (s, m, e, a, o)) =
    inl (s, mem-cons_of_mem r m, e, a, o)
Decided-skip r rs k bytes len source v skip (inr (no_rule, o)) = inr (none_applies, o)
  where
    none_applies :
        (s : CanFilterRule) → Mem s (r ∷ rs) → rule_id s ≡ k → applies s bytes len source ≡ false
    none_applies s m e =
        Or.elim (Bool-set _ _) (mem-cons.0 m) (λ q. rw q (skip (ap rule_id (sym q) ∙ e)))
          (λ m'. no_rule s m' e)

decide_frame-Decided :
    (rs : List CanFilterRule) (k : ℕ) (bytes : List ℕ) (len : ℕ) (source : Source)
    → Decided rs k bytes len source (decide_frame (rules_for k rs) bytes len source)
unfolding decide_frame
decide_frame-Decided [] k bytes len source = inr (λ r m. absurd (not-mem-nil m), refl)
decide_frame-Decided (r ∷ rs) k bytes len source = elim (Bool-cases (rule_id r == k)) [
  | inr other ↦ rw other (
      Decided-skip r rs k bytes len source _ (λ e. ground arith)
        (decide_frame-Decided rs k bytes len source))
  | inl same ↦ elim (Bool-cases (applies r bytes len source)) [
    | inl a ↦ rw (same, a) (inl (r, mem-cons_self, (==_iff _ k).0 same, a, refl))
    | inr a ↦
        rw (same, a)
          (Decided-skip r rs k bytes len source _ (λ e. a)
            (decide_frame-Decided rs k bytes len source))
  ]
]

Decided-perm :
    {rs ss : List CanFilterRule}
    → Perm rs ss
    → (k : ℕ) (bytes : List ℕ) (len : ℕ) (source : Source) (v : Verdict)
    → Decided rs k bytes len source v
    → Decided ss k bytes len source v
Decided-perm p k bytes len source v (inl (r, m, e, a, o)) = inl (r, (Perm.mem_iff p).0 m, e, a, o)
Decided-perm p k bytes len source v (inr (no_rule, o)) =
    inr (λ r m e. no_rule r ((Perm.mem_iff p).1 m) e, o)

module _ (sort : List CanFilterRule → List CanFilterRule) (contract : IsSort sort)
    (payload : List ℕ) (can_id : ℕ) (bytes : List ℕ) (len : ℕ) (source : Source)
    (inside : len ≤ length bytes) where
  -- After loadRules, with fewer than 256 rules for the frame's id, process returns (it reads inside
  -- the rule array and the data) what the first rule that applies decides, in the order in which the
  -- sort left the rules of the id.
  pub process-load_rules :
      count (masked_id can_id) (loaded payload) < 256
      → process (load_rules sort payload) can_id bytes len source
        ≡ some
            (decide_frame (rules_for (masked_id can_id) (sort (loaded payload))) bytes len source)
  process-load_rules small = rw (load_rules_lem sort payload) (
      process-table (sort (loaded payload)) can_id bytes len source
        (contract.sorted (loaded payload)) inside
        (rw (count-perm (masked_id can_id) (contract.perm (loaded payload))) small))

  -- With a sort that keeps the order of the rules of the frame's id, the first rule of the payload
  -- that is for the id and applies decides.
  pub process-load_rules_stable :
      count (masked_id can_id) (loaded payload) < 256
      → rules_for (masked_id can_id) (sort (loaded payload))
        ≡ rules_for (masked_id can_id) (loaded payload)
      → process (load_rules sort payload) can_id bytes len source
        ≡ some (decide_frame (rules_for (masked_id can_id) (loaded payload)) bytes len source)
  process-load_rules_stable small stable = rw (← stable) (process-load_rules small)

  -- Under any sort: either a rule of the payload for the frame's id applies and the frame is treated
  -- as that rule says, or none applies and the frame passes untouched.
  pub process-Decided :
      count (masked_id can_id) (loaded payload) < 256
      → (v : Verdict) × (process (load_rules sort payload) can_id bytes len source ≡ some v)
        × Decided (loaded payload) (masked_id can_id) bytes len source v
  process-Decided small = (
    _,
    process-load_rules small,
    Decided-perm (contract.perm (loaded payload)) _ bytes len source _
        (decide_frame-Decided (sort (loaded payload)) _ bytes len source),
  )

  -- With 256 rules for the frame's id (or a multiple of it) the 8-bit counter is back at 0, and the
  -- frame passes untouched, also where every one of them says to drop it.
  pub process_counter_wrapped :
      count (masked_id can_id) (loaded payload) % 256 ≡ 0
      → process (load_rules sort payload) can_id bytes len source ≡ some (true, bytes)
  process_counter_wrapped h = rw (load_rules_lem sort payload) (
      process-table_wrapped (sort (loaded payload)) can_id bytes len source
        (rw (count-perm (masked_id can_id) (contract.perm (loaded payload))) h))

count-le-length : (k : ℕ) (rs : List CanFilterRule) → count k rs ≤ length rs
count-le-length k [] = omega arith
count-le-length k (r ∷ rs) = ground (arith, count-le-length k rs)

length-decode_rules : (n : ℕ) (bytes : List ℕ) → length (decode_rules n bytes) ≡ n
unfolding decode_rules
length-decode_rules zero bytes = refl
length-decode_rules (suc n) bytes = ap suc (length-decode_rules n (drop 25 bytes))

num_rules-le : (n : ℕ) → num_rules n ≤ n / 25
unfolding num_rules
num_rules-le n = ground arith

-- A payload of fewer than 256 rules cannot bring a counter round.
pub count-loaded-lt :
    (k : ℕ) (payload : List ℕ) → length payload < 6400 → count k (loaded payload) < 256
count-loaded-lt k payload h = omega (
  arith,
  count-le-length k (loaded payload),
  length-decode_rules (num_rules (length payload)) payload,
  num_rules-le (length payload),
)
