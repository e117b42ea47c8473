-- ===== src/Filter/Rule.antt =====
-- struct CanFilterRule (include/communication/CanbusProtocol.h), the sources of a frame
-- (include/sniffer/Sniffer.h), and how one rule treats one frame (the body of the loop of
-- FilterEngine::process in src/sniffer/Sniffer.cpp).
use mathlib.Core.Option
use ksg_canbus_rpi_sniffer.Prelude.{
  ℕ, zero, suc, ◌-◌, Bool, true, false, not, ◌&&◌, ◌||◌, Option, some, List, [], ◌∷◌, ltb, leb,
  ◌==◌, if◌then◌else◌, get_elem?, get_or, set, take, drop, bit_and, bit_or,
}
use ksg_canbus_rpi_sniffer.Prelude.Bytes.{field}

pub data Source : Type 0 where
  car_system car_computer external : Source

pub record CanFilterRule : Type 0 where
  pub can_id : ℕ
  pub data_index : ℕ
  pub data_value : ℕ
  pub data_mask : ℕ
  pub action_type : ℕ
  pub target : ℕ
  pub modification_data : List ℕ
  pub modification_mask : List ℕ

-- sizeof(CanFilterRule): the structure is packed.
abbrev pub sizeof_rule : ℕ
sizeof_rule = 25

abbrev pub filter_target_to_system : ℕ
filter_target_to_system = 1

abbrev pub filter_target_to_car : ℕ
filter_target_to_car = 2

-- The structure that stands at a pointer into memory.
unfoldable pub decode_rule : List ℕ → CanFilterRule
unfolding field
decode_rule bytes = record {
  can_id = field 0 4 bytes;
  data_index = get_or bytes 4 0;
  data_value = get_or bytes 5 0;
  data_mask = get_or bytes 6 0;
  action_type = get_or bytes 7 0;
  target = get_or bytes 8 0;
  modification_data = take 8 (drop 9 bytes);
  modification_mask = take 8 (drop 17 bytes);
}

-- `rules_ptr[0 .. n)` over raw bytes.
unfoldable pub decode_rules : ℕ → List ℕ → List CanFilterRule
unfolding decode_rule
decode_rules zero bytes = []
decode_rules (suc n) bytes = decode_rule bytes ∷ decode_rules n (drop sizeof_rule bytes)

unfoldable pub is_computer : Source → Bool
is_computer car_computer = true
is_computer _ = false

unfoldable pub is_system : Source → Bool
is_system car_system = true
is_system _ = false

-- The two direction checks.
unfoldable pub wrong_direction : CanFilterRule → Source → Bool
unfolding is_computer is_system
wrong_direction rule source =
    (rule.target == filter_target_to_system && not (is_computer source))
    || (rule.target == filter_target_to_car && not (is_system source))

-- The condition on one data byte; `none` is a read outside the memory behind the frame's data.
unfoldable pub condition : CanFilterRule → List ℕ → ℕ → Option Bool
condition rule bytes len =
    if rule.data_mask == 0
    then some true
    else if leb len rule.data_index
    then some false
    else Option.map (λ b. bit_and b rule.data_mask == rule.data_value)
        (get_elem? bytes rule.data_index)

-- (old & ~mask) | (new & mask), cut to a byte.
unfoldable pub merge_byte : ℕ → ℕ → ℕ → ℕ
merge_byte old new mask = bit_or (bit_and old (255 - mask)) (bit_and new mask)

-- for (j; j < 8 && j < len; ++j), with the rounds left to j = 8.
unfoldable pub modify_from : ℕ → ℕ → CanFilterRule → List ℕ → ℕ → List ℕ
unfolding merge_byte
modify_from zero j rule bytes len = bytes
modify_from (suc n) j rule bytes len =
    let rest =
      modify_from n (suc j) rule
        (set bytes j (
          merge_byte (get_or bytes j 0) (get_or rule.modification_data j 0)
            (get_or rule.modification_mask j 0)))
        len in
    if ltb j len then rest else bytes

-- What the function returns, and the data bytes after it.
abbrev pub Verdict : Type 0
Verdict = Bool × List ℕ

unfoldable pub act : CanFilterRule → List ℕ → ℕ → Verdict
unfolding modify_from
act rule bytes len =
    if rule.action_type == 1
    then (false, bytes)
    else if rule.action_type == 2
    then (true, modify_from 8 0 rule bytes len)
    else (true, bytes)
