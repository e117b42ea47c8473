-- ===== src/Filter/Engine.antt =====
-- The static state of FilterEngine (src/sniffer/Sniffer.cpp) and its functions. `std::sort` belongs
-- to the standard library and is a parameter; what the code relies on is stated in Filter.Sort.
use ksg_canbus_rpi_sniffer.Prelude.{
  ℕ, zero, suc, ◌+◌, ◌/◌, ◌%◌, Bool, true, false, ◌||◌, Option, none, some, List, [], ◌∷◌, ltb, leb,
  ◌==◌, if◌then◌else◌, get_elem?, length, bit_and,
}
use ksg_canbus_rpi_sniffer.Filter.Rule.{
  CanFilterRule, Source, Verdict, sizeof_rule, decode_rules, wrong_direction, condition, act,
}

-- `rules` is rules_ptr[0 .. rules_count); `id_lookup` holds indices for the pointers into it.
pub record Engine : Type 0 where
  pub rules : List CanFilterRule
  pub id_lookup : ℕ → Option ℕ
  pub id_counts : ℕ → ℕ

abbrev pub rules_raw_size : ℕ
rules_raw_size = 64000

abbrev pub max_rules : ℕ
max_rules = rules_raw_size / sizeof_rule

unfoldable pub init_internal : Engine
init_internal = record { rules = []; id_lookup = λ _. none; id_counts = λ _. 0 }

-- can_id & 0x7FF
unfoldable pub masked_id : ℕ → ℕ
masked_id can_id = bit_and can_id 0x7ff

unfoldable pub update {ℓ} : {A : Type ℓ} → (ℕ → A) → ℕ → A → ℕ → A
update f k v j = if k == j then v else f j

-- One round of the loop that builds the lookup table, at index i.
unfoldable pub add_rule : CanFilterRule → ℕ → Engine → Engine
unfolding masked_id update
add_rule rule i e =
    let id = masked_id rule.can_id in
    if leb 2048 id then e else record e {
      id_lookup = if e.id_counts id == 0 then update e.id_lookup id (some i) else e.id_lookup;
      id_counts = update e.id_counts id ((e.id_counts id + 1) % 256);
    }

-- The rounds for rules_ptr[i ..).
unfoldable pub build : List CanFilterRule → ℕ → Engine → Engine
unfolding add_rule
build [] i e = e
build (rule ∷ rest) i e = build rest (suc i) (add_rule rule i e)

-- The number of rules taken from a payload.
unfoldable pub num_rules : ℕ → ℕ
num_rules length =
    let length' = if ltb rules_raw_size length then rules_raw_size else length in
    let n = length' / sizeof_rule in if ltb max_rules n then max_rules else n

module _ (sort : List CanFilterRule → List CanFilterRule) where
  unfoldable pub load_rules : List ℕ → Engine
  unfolding init_internal num_rules build decode_rules
  load_rules bytes =
      let rules = sort (decode_rules (num_rules (length bytes)) bytes) in
      build rules 0 (record init_internal { rules = rules })

-- What one rule does with the frame: go on to the next rule, or decide.
pub data RuleStep : Type 0 where
  next : RuleStep
  stop : Verdict → RuleStep
  fault : RuleStep

unfoldable pub on_match : Option Bool → Verdict → RuleStep
on_match none v = fault
on_match (some false) v = next
on_match (some true) v = stop v

unfoldable pub rule_step : CanFilterRule → List ℕ → ℕ → Source → RuleStep
unfolding on_match wrong_direction condition act
rule_step rule bytes len source =
    if wrong_direction rule source
    then next
    else on_match (condition rule bytes len) (act rule bytes len)

-- The loop over `count` rules from the pointer `rule`; `none` is an access outside the memory.
unfoldable pub process_from : List CanFilterRule → ℕ → ℕ → List ℕ → ℕ → Source → Option Verdict
unfolding rule_step
process_from mem rule zero bytes len source = some (true, bytes)
process_from mem rule (suc n) bytes len source = elim (get_elem? mem rule) [
  | none ↦ none
  | some r ↦ elim (rule_step r bytes len source) [
    | next ↦ process_from mem (suc rule) n bytes len source
    | stop v ↦ some v
    | fault ↦ none
  ]
]

-- `bytes` is the memory behind the frame's data, `len` its can_dlc. A null pointer in the table is
-- a fault.
unfoldable pub process : Engine → ℕ → List ℕ → ℕ → Source → Option Verdict
unfolding masked_id process_from
process e can_id bytes len source =
    let id = masked_id can_id in
    if leb 2048 id || e.id_counts id == 0 then some (true, bytes) else elim (e.id_lookup id) [
      | none ↦ none
      | some rule ↦ process_from e.rules rule (e.id_counts id) bytes len source
    ]
