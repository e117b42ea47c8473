-- ===== src/Sniffer/Tests.antt =====
-- The sniffer's theorems at a concrete filter, frames and times.
use mathlib.Core.Logic.Or
use mathlib.Core.List.{Mem, mem-cons_self, mem-cons, not-mem-nil}
use native.Mathlib.Nat.{ℕ_set}
use ksg_canbus_rpi_sniffer.Prelude.{
  ℕ, ◌≡◌, refl, ap, true, false, some, List, [], ◌∷◌, replicate, arith,
}
use ksg_canbus_rpi_sniffer.Filter.Rule.{
  CanFilterRule, car_system, car_computer, decode_rules, decode_rule, wrong_direction,
}
use ksg_canbus_rpi_sniffer.Filter.Engine.{masked_id, num_rules}
use ksg_canbus_rpi_sniffer.Filter.Spec.{applies, rule_id}
use ksg_canbus_rpi_sniffer.Filter.Order.{loaded}
use ksg_canbus_rpi_sniffer.Filter.Sorts.{sort_rules, sort_rules-IsSort}
use ksg_canbus_rpi_sniffer.Protocol.Message.{header, cmd_logging_on}
use ksg_canbus_rpi_sniffer.Sniffer.State.{
  Sniffer, send_system, send_external, start, set_logging_state,
}
use ksg_canbus_rpi_sniffer.Sniffer.Frames.{
  log_command, frame_id, frame_dlc, frame_data, local_buffer, handle_can_data,
}
use ksg_canbus_rpi_sniffer.Sniffer.Commands.{dispatch, on_command_received}
use ksg_canbus_rpi_sniffer.Sniffer.Watchdog.{elapsed_ms, watchdog_round}
use ksg_canbus_rpi_sniffer.Sniffer.Forwarding.{armed, pass_untouched, drop_blocks}
use ksg_canbus_rpi_sniffer.Sniffer.Buffers.{across, logged}
use ksg_canbus_rpi_sniffer.Sniffer.Kept.{header_kept}
use ksg_canbus_rpi_sniffer.Prelude.{Bool, ◌++◌, if◌then◌else◌, length, take}
use ksg_canbus_rpi_sniffer.Sniffer.Timeout.{begin, after, started, commanded, watchdog_round-late}
use ksg_canbus_rpi_sniffer.Sniffer.Served.{constructed}
use ksg_canbus_rpi_sniffer.Sniffer.Race.{interrupted_round, watchdog_round-interrupted}

abbrev up : Sniffer
up = record (constructed 0) { running = true; external_service_logging = true }

-- Drop every frame with id 0x123.
abbrev drop_rule : List ℕ
drop_rule = 0x23 ∷ 1 ∷ 0 ∷ 0 ∷ 0 ∷ 0 ∷ 0 ∷ 1 ∷ 0 ∷ replicate 16 0

-- A classic frame of eight data bytes; the id ends in the given byte.
abbrev frame : ℕ → List ℕ
frame low = low ∷ 1 ∷ 0 ∷ 0 ∷ 8 ∷ 0 ∷ 0 ∷ 0 ∷ 1 ∷ 2 ∷ 3 ∷ 4 ∷ 5 ∷ 6 ∷ 7 ∷ 8 ∷ []

abbrev stack : List ℕ
stack = replicate 72 0xcc

only_member : (f : CanFilterRule → ℕ) {q r : CanFilterRule} → Mem q (r ∷ []) → f q ≡ f r
only_member f m = Or.elim (ℕ_set _ _) (mem-cons.0 m) (λ e. ap f e) (λ n. absurd (not-mem-nil n))

loaded_lem : loaded drop_rule ≡ decode_rule drop_rule ∷ []
unfolding decode_rules num_rules
loaded_lem = refl

pass_untouched_example :
    handle_can_data car_computer
      (frame 0x24)
      7
      9
      stack
      (armed (sort_rules false) (sort_rules-IsSort false) drop_rule (omega arith) up refl 5 6 [])
    ≡ some (
      armed (sort_rules false) (sort_rules-IsSort false) drop_rule (omega arith) up refl 5 6 [],
      send_system (frame 0x24) ∷ send_external (header 0x2002 9 16 (frame 0x24)) ∷ [],
    )
unfolding frame_dlc local_buffer frame_id masked_id log_command decode_rules num_rules decode_rule
pass_untouched_example =
    pass_untouched (sort_rules false) (sort_rules-IsSort false) drop_rule (omega arith) up refl 5 6
      [] car_computer refl (frame 0x24) stack (omega arith) refl (omega arith) 7 9
      (λ r m e. absurd (omega (arith, e, only_member rule_id m)))

drop_blocks_example :
    handle_can_data car_system
      (frame 0x23)
      7
      9
      stack
      (armed (sort_rules false) (sort_rules-IsSort false) drop_rule (omega arith) up refl 5 6 [])
    ≡ some (
      armed (sort_rules false) (sort_rules-IsSort false) drop_rule (omega arith) up refl 5 6 [],
      send_external (header 0x2003 9 16 (frame 0x23)) ∷ [],
    )
unfolding frame_dlc local_buffer frame_id masked_id log_command decode_rules num_rules applies
    wrong_direction frame_data
drop_blocks_example =
    drop_blocks (sort_rules false) (sort_rules-IsSort false) drop_rule (omega arith) up refl 5 6 []
      car_system refl (frame 0x23) stack (omega arith) refl (omega arith) 7 9
      (decode_rule drop_rule) mem-cons_self refl refl
      (λ q m e a. only_member (λ r. r.action_type) m)

-- Clear the first data byte of frames with id 0x123.
abbrev clear_rule : List ℕ
clear_rule = (0x23 ∷ 1 ∷ 0 ∷ 0 ∷ 0 ∷ 0 ∷ 0 ∷ 2 ∷ 0 ∷ (replicate 8 0 ++ (0xff ∷ replicate 7 0)))

header_kept_example :
    (forwarded : Bool) × (out : List ℕ) × (handle_can_data car_system
        (frame 0x23)
        7
        9
        stack
        (armed (sort_rules false) (sort_rules-IsSort false) clear_rule (omega arith) up refl 5 6 [])
      ≡ some (
        armed (sort_rules false) (sort_rules-IsSort false) clear_rule (omega arith) up refl 5 6 [],
        (if forwarded then across car_system out else [])
            ++ logged true (log_command car_system forwarded) 9 out,
      ))
    × (length out ≡ length (frame 0x23))
    × (take 8 out ≡ take 8 (frame 0x23))
unfolding local_buffer frame_dlc
header_kept_example =
    header_kept (sort_rules false) (sort_rules-IsSort false) clear_rule (omega arith) up refl 5 6 []
      car_system refl (frame 0x23) stack (omega arith) refl (omega arith) 7 9 (omega arith)

abbrev silent_request : List ℕ
silent_request = replicate 32 0

-- Started, told to log at time 0, and silent for two seconds.
abbrev logging : Sniffer
logging =
    (on_command_received (sort_rules false) cmd_logging_on [] 0 0 []
      (start true (constructed 0)).1).0

watchdog_round-late_example :
    (watchdog_round 2_000_000_000 logging).0
    ≡ record logging { external_service_logging = false; external_service_connected = false }
unfolding start constructed elapsed_ms on_command_received dispatch set_logging_state
watchdog_round-late_example =
    watchdog_round-late (sort_rules false) 2_000_000_000
      (after (after (begin 0) (started true)) (commanded cmd_logging_on [] 0 0 [])) refl
      (omega arith)

watchdog_round-interrupted_example :
    ((interrupted_round (sort_rules false) cmd_logging_on [] 7 9 [] up).external_service_logging
      ≡ true)
    × ((later : ℕ)
        → watchdog_round later (interrupted_round (sort_rules false) cmd_logging_on [] 7 9 [] up)
          ≡ (interrupted_round (sort_rules false) cmd_logging_on [] 7 9 [] up, []))
watchdog_round-interrupted_example = watchdog_round-interrupted (sort_rules false) [] 7 9 [] up refl
