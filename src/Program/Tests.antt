-- ===== src/Program/Tests.antt =====
-- The program's shutdown at concrete runs.
use ksg_canbus_rpi_sniffer.Prelude.{
  ◌≡◌, ◌≢◌, refl, Bool, true, List, [], ◌∷◌, ◌++◌, ℕ, replicate, arith,
}
use ksg_canbus_rpi_sniffer.Leds.Files.{AttrValue, FileAnswer, complete}
use ksg_canbus_rpi_sniffer.Program.{
  Program, launched, main_steps, service_steps, signals, turn, turns, exited, reset_leds,
}
use ksg_canbus_rpi_sniffer.Program.Hang.{has_begun, early_stop_hangs}
use ksg_canbus_rpi_sniffer.Program.Exit.{of_service, of_main, late_stop_exits}

abbrev present : List ℕ → Bool
present path = true

abbrev answer : List ℕ → AttrValue → FileAnswer
answer path value = complete

-- The signal comes while run reads its parameters.
abbrev signalled_early : Program
unfolding turns launched
signalled_early = turns present answer (service_steps ∷ signals ∷ main_steps ∷ []) launched

early_stop_hangs_example :
    (turns present answer
      (service_steps ∷ service_steps ∷ signals ∷ main_steps ∷ service_steps ∷ main_steps ∷ [])
      (turn present answer main_steps signalled_early)).main_thread
    ≢ exited
unfolding turns turn launched has_begun
early_stop_hangs_example =
    early_stop_hangs present answer signalled_early
      (service_steps ∷ service_steps ∷ signals ∷ main_steps ∷ service_steps ∷ main_steps ∷ []) refl
      refl

-- The signal comes in a round of run.
abbrev signalled_late : Program
unfolding turns launched
signalled_late =
    turns present answer
      (service_steps ∷ service_steps ∷ service_steps ∷ service_steps ∷ signals ∷ main_steps ∷ [])
      launched

late_stop_exits_example :
    ((turns present answer (replicate 3 main_steps) (
        turns present answer
          (replicate 3 service_steps)
          (turn present answer main_steps signalled_late))).main_thread
      ≡ exited)
    × ((turns present answer (replicate 3 main_steps) (
          turns present answer
            (replicate 3 service_steps)
            (turn present answer main_steps signalled_late))).writes
        ≡ signalled_late.writes ++ reset_leds present answer)
unfolding turns turn launched has_begun of_service of_main
late_stop_exits_example =
    late_stop_exits present answer signalled_late (replicate 3 service_steps)
      (replicate 3 main_steps) refl refl (omega arith) (omega arith)
