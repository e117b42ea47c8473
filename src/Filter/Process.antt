-- ===== src/Filter/Process.antt =====
-- FilterEngine::process over a table that FilterEngine::loadRules built: the table walk is a search
-- for the first rule that applies, and stays inside the rule array and the frame's data.
use ksg_canbus_rpi_sniffer.Prelude.{
  ℕ, zero, suc, ◌%◌, ◌≤◌, ◌<◌, ◌≡◌, ◌≢◌, refl, ap, ◌∙◌, inl, inr, true, none, some, List, [], ◌∷◌,
  ◌==◌, ==_iff, if◌then◌else◌, Bool-cases, get_elem?-eq-get_or, length, length-take, take, drop,
  drop-get_elem?, drop_next, arith,
}
use ksg_canbus_rpi_sniffer.Filter.Rule.{CanFilterRule, Source, condition, act}
use ksg_canbus_rpi_sniffer.Filter.Engine.{
  Engine, masked_id, build, on_match, rule_step, next, stop, process_from, process,
}
use ksg_canbus_rpi_sniffer.Filter.Spec.{rules_for, applies, decide_frame, IsSorted}
use ksg_canbus_rpi_sniffer.Filter.Table.{
  masked_id-lt, first, count, rules-build, counts-build, lookup-build,
}
use ksg_canbus_rpi_sniffer.Filter.Sorted.{block}

rule_step_lem :
    (r : CanFilterRule) (bytes : List ℕ) (len : ℕ) (source : Source)
    → len ≤ length bytes
    → rule_step r bytes len source
      ≡ (if applies r bytes len source then stop (act r bytes len) else next)
unfolding rule_step applies on_match condition
rule_step_lem r bytes len source h = ground (arith, get_elem?-eq-get_or bytes r.data_index 0)

-- The walk over n rules from index i decides by those rules.
process_from_lem :
    (n i : ℕ) (mem zs : List CanFilterRule) (bytes : List ℕ) (len : ℕ) (source : Source)
    → len ≤ length bytes
    → drop i mem ≡ zs
    → n ≤ length zs
    → process_from mem i n bytes len source ≡ some (decide_frame (take n zs) bytes len source)
unfolding process_from decide_frame
process_from_lem zero i mem zs bytes len source h e le = refl
process_from_lem (suc n) i mem [] bytes len source h e le = absurd (omega arith)
process_from_lem (suc n) i mem (z ∷ zs) bytes len source h e le = ground (
  arith,
  drop-get_elem? mem i z zs e,
  rule_step_lem z bytes len source h,
  process_from_lem n (suc i) mem zs bytes len source h (drop_next mem i z zs e),
)

count_le :
    (k : ℕ) (rs : List CanFilterRule) → IsSorted rs → count k rs ≤ length (drop (first k rs) rs)
count_le k rs s =
    omega (arith, ap length (block k rs s), length-take (count k rs) (drop (first k rs) rs))

length-zero {ℓ} : {A : Type ℓ} (xs : List A) → length xs ≡ 0 → xs ≡ []
length-zero [] h = refl
length-zero (x ∷ xs) h = absurd (omega arith)

-- A table whose counter is 0 passes every frame of the id, whatever its rules are.
process_count_zero :
    (e : Engine) (can_id : ℕ) (bytes : List ℕ) (len : ℕ) (source : Source)
    → e.id_counts (masked_id can_id) ≡ 0
    → process e can_id bytes len source ≡ some (true, bytes)
unfolding process
process_count_zero e can_id bytes len source h = ground arith

-- A table that points at a block of rules decides by that block.
process_block :
    (e : Engine) (can_id i : ℕ) (bytes : List ℕ) (len : ℕ) (source : Source)
    → len ≤ length bytes
    → e.id_counts (masked_id can_id) ≢ 0
    → e.id_lookup (masked_id can_id) ≡ some i
    → e.id_counts (masked_id can_id) ≤ length (drop i e.rules)
    → process e can_id bytes len source
      ≡ some
          (decide_frame (take (e.id_counts (masked_id can_id)) (drop i e.rules)) bytes len source)
unfolding process
process_block e can_id i bytes len source h ne look le = ground (
  arith,
  masked_id-lt can_id,
  process_from_lem (e.id_counts (masked_id can_id)) i e.rules (drop i e.rules) bytes len source h
      refl le,
)

-- The table over a rule array, before any frame.
abbrev pub cleared : List CanFilterRule → Engine
cleared rs = record { rules = rs; id_lookup = λ _. none; id_counts = λ _. 0 }

abbrev pub table : List CanFilterRule → Engine
table rs = build rs 0 (cleared rs)

pub counts-table : (rs : List CanFilterRule) (k : ℕ) → (table rs).id_counts k ≡ count k rs % 256
counts-table rs k = omega (arith, counts-build rs 0 (cleared rs) k)

rules-table : (rs : List CanFilterRule) → (table rs).rules ≡ rs
rules-table rs = rules-build rs 0 (cleared rs)

lookup-table :
    (rs : List CanFilterRule) (k : ℕ)
    → count k rs < 256
    → count k rs ≢ 0
    → (table rs).id_lookup k ≡ some (first k rs)
lookup-table rs k h ne = ground (arith, lookup-build rs 0 (cleared rs) k refl h ne)

pub process-table :
    (rs : List CanFilterRule) (can_id : ℕ) (bytes : List ℕ) (len : ℕ) (source : Source)
    → IsSorted rs
    → len ≤ length bytes
    → count (masked_id can_id) rs < 256
    → process (table rs) can_id bytes len source
      ≡ some (decide_frame (rules_for (masked_id can_id) rs) bytes len source)
unfolding decide_frame
process-table rs can_id bytes len source sorted h small =
    elim (Bool-cases (count (masked_id can_id) rs == 0)) [
      | inl z ↦
          let none_for : count k rs ≡ 0 = (==_iff _ 0).0 z in
          let e = length-zero (rules_for k rs) none_for in
          rw e (process_count_zero (table rs) can_id bytes len source (omega (arith, counts)))
      | inr n ↦
          let ne : count k rs ≢ 0 = ground arith in
          let c : (table rs).id_counts k ≡ count k rs = omega (arith, counts) in
          process_block (table rs) can_id (first k rs) bytes len source h (omega arith)
            (lookup-table rs k small ne) (rw (c, rules-table rs) (count_le k rs sorted))
          ∙ rw (c, rules-table rs, block k rs sorted)
    ]
  where
    k : ℕ
    k = masked_id can_id

    counts : (table rs).id_counts k ≡ count k rs % 256
    counts = counts-table rs k

-- With 256 rules for an id, or a multiple of it, the 8-bit counter is back at 0: the frame passes
-- untouched, whatever the rules say.
pub process-table_wrapped :
    (rs : List CanFilterRule) (can_id : ℕ) (bytes : List ℕ) (len : ℕ) (source : Source)
    → count (masked_id can_id) rs % 256 ≡ 0
    → process (table rs) can_id bytes len source ≡ some (true, bytes)
process-table_wrapped rs can_id bytes len source h =
    process_count_zero (table rs) can_id bytes len source
      (omega (arith, counts-table rs (masked_id can_id)))
