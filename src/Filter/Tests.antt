-- ===== src/Filter/Tests.antt =====
-- Runs of the filter engine, and its theorems at concrete payloads and frames.
use ksg_canbus_rpi_sniffer.Prelude.{
  ℕ, zero, suc, ◌≡◌, refl, true, false, some, List, [], ◌∷◌, ◌++◌, length, get_or, replicate, arith,
  ◌<◌, ◌%◌,
}
use ksg_canbus_rpi_sniffer.Prelude.Bits.{bit}
use ksg_canbus_rpi_sniffer.Filter.Rule.{
  car_system, car_computer, decode_rules, decode_rule, wrong_direction, act,
}
use ksg_canbus_rpi_sniffer.Filter.Engine.{masked_id, load_rules, num_rules, process}
use ksg_canbus_rpi_sniffer.Filter.Spec.{IsSort, decide_frame, applies}
use ksg_canbus_rpi_sniffer.Filter.Table.{count}
use ksg_canbus_rpi_sniffer.Filter.Order.{loaded, process-load_rules, process_counter_wrapped}
use ksg_canbus_rpi_sniffer.Filter.Modify.{act-modify}
use ksg_canbus_rpi_sniffer.Filter.Sorts.{sort_rules, sort_rules-IsSort, process-load_rules_reversed}

abbrev zeros : List ℕ
zeros = replicate 8 0

-- Drop every frame with id 0x123.
abbrev drop_rule : List ℕ
drop_rule = 0x23 ∷ 1 ∷ 0 ∷ 0 ∷ 0 ∷ 0 ∷ 0 ∷ 1 ∷ 0 ∷ (zeros ++ zeros)

-- Set byte 2 of a frame with id 0x123 whose byte 0 is 1 to 0xff.
abbrev modify_rule : List ℕ
modify_rule =
    0x23
    ∷ 1
    ∷ 0
    ∷ 0
    ∷ 0
    ∷ 1
    ∷ 0xff
    ∷ 2
    ∷ 0
    ∷ (0 ∷ 0 ∷ 0xff ∷ 0 ∷ 0 ∷ 0 ∷ 0 ∷ 0 ∷ 0 ∷ 0 ∷ 0xff ∷ 0 ∷ 0 ∷ 0 ∷ 0 ∷ 0 ∷ [])

-- Drop every frame with id 0x7 that goes to the car.
abbrev other_rule : List ℕ
other_rule = 7 ∷ 0 ∷ 0 ∷ 0 ∷ 0 ∷ 0 ∷ 0 ∷ 1 ∷ 2 ∷ (zeros ++ zeros)

abbrev payload : List ℕ
payload = modify_rule ++ (other_rule ++ drop_rule)

abbrev frame_data : List ℕ
frame_data = 1 ∷ 2 ∷ 3 ∷ 4 ∷ 5 ∷ 6 ∷ 7 ∷ 8 ∷ []

small : count (masked_id 0x123) (loaded payload) < 256
unfolding masked_id decode_rules num_rules
small = omega arith

process-load_rules_example :
    process (load_rules (sort_rules false) payload) 0x123 frame_data 8 car_system
    ≡ some (true, 1 ∷ 2 ∷ 0xff ∷ 4 ∷ 5 ∷ 6 ∷ 7 ∷ 8 ∷ [])
unfolding masked_id decode_rules num_rules sort_rules decide_frame applies act wrong_direction
process-load_rules_example =
    process-load_rules (sort_rules false) (sort_rules-IsSort false) payload 0x123 frame_data 8
      car_system (omega arith) small

-- The same payload under the other sort: the DROP rule comes first.
process-load_rules_reversed_example :
    IsSort (sort_rules true)
    × (process (load_rules (sort_rules true) payload) 0x123 frame_data 8 car_system
        ≡ some (false, frame_data))
unfolding masked_id decode_rules num_rules decide_frame applies act wrong_direction
process-load_rules_reversed_example =
    process-load_rules_reversed payload 0x123 frame_data 8 car_system (omega arith) small

-- 256 rules that each drop every frame with id 0x123.
abbrev copies : ℕ → List ℕ
copies zero = []
copies (suc n) = drop_rule ++ copies n

wrapped_count : count (masked_id 0x123) (loaded (copies 256)) % 256 ≡ 0
unfolding masked_id decode_rules num_rules
wrapped_count = refl

process_counter_wrapped_example :
    process (load_rules (sort_rules false) (copies 256)) 0x123 frame_data 8 car_computer
    ≡ some (true, frame_data)
process_counter_wrapped_example =
    process_counter_wrapped (sort_rules false) (sort_rules-IsSort false) (copies 256) 0x123
      frame_data 8 car_computer (omega arith) wrapped_count

one_rule_drops :
    process (load_rules (sort_rules false) (copies 1)) 0x123 frame_data 8 car_computer
    ≡ some (false, frame_data)
unfolding load_rules sort_rules process
one_rule_drops = refl

act-modify_example :
    ((act (decode_rule modify_rule) frame_data 8).0 ≡ true)
    × (length (act (decode_rule modify_rule) frame_data 8).1 ≡ 8)
    × (bit 5 (get_or (act (decode_rule modify_rule) frame_data 8).1 2 0) ≡ 1)
unfolding decode_rule
act-modify_example =
    act-modify (decode_rule modify_rule) frame_data 8 2 5 refl (omega arith) (omega arith)
      (omega arith)
