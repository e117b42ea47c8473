-- ===== src/Program/Hang.antt =====
-- The stop that comes before MainService::run has set its flag: run sets it again, and main waits for ever.
use ksg_canbus_rpi_sniffer.Prelude.{ℕ, ◌≡◌, ◌≢◌, ◌⊎◌, Bool, true, false, List, arith}
use ksg_canbus_rpi_sniffer.Leds.Files.{AttrValue, FileAnswer}
use ksg_canbus_rpi_sniffer.Prelude.Steps.{steps-keep}
use ksg_canbus_rpi_sniffer.Program.{
  Program, ServiceAt, Turn, at_test, at_load, at_set, at_while, in_round, at_destroy, left, at_stop,
  at_join, exited, main_steps, turn, turns, main_at, service_at, signal_handler, has_left,
}

-- Has run passed the point where it turns m_running on?
unfoldable pub has_begun : ServiceAt → Bool
has_begun at_test = false
has_begun at_load = false
has_begun at_set = false
has_begun at_while = true
has_begun in_round = true
has_begun at_destroy = true
has_begun left = true

unfoldable rounds_on : ServiceAt → Bool
rounds_on at_test = false
rounds_on at_load = false
rounds_on at_set = false
rounds_on at_while = true
rounds_on in_round = true
rounds_on at_destroy = false
rounds_on left = false

-- main waits for a thread that will not end.
abbrev Stuck : Program → Type 0
Stuck p =
    (p.main_thread ≡ at_join)
    × (((has_begun p.service ≡ false) × (p.running ≡ false))
        ⊎ ((rounds_on p.service ≡ true) × (p.running ≡ true)))

module _ (present : List ℕ → Bool) (answer : List ℕ → AttrValue → FileAnswer) where
  turn-Stuck : (t : Turn) (p : Program) → Stuck p → Stuck (turn present answer t p)
  unfolding turn main_at service_at signal_handler has_begun rounds_on has_left
  turn-Stuck t p h = ground arith

  stopped_early-Stuck :
      (p : Program)
      → p.main_thread ≡ at_stop
      → has_begun p.service ≡ false
      → Stuck (turn present answer main_steps p)
  unfolding turn main_at
  stopped_early-Stuck p e h = ground arith

  -- main calls stop while run has not turned m_running on yet: whatever steps the threads take from there,
  -- and however many signals come, main does not exit.
  pub early_stop_hangs :
      (p : Program) (ts : List Turn)
      → p.main_thread ≡ at_stop
      → has_begun p.service ≡ false
      → (turns present answer ts (turn present answer main_steps p)).main_thread ≢ exited
  unfolding turns
  early_stop_hangs p ts e h k =
      let stuck =
        steps-keep (turn present answer) Stuck turn-Stuck ts (turn present answer main_steps p)
          (stopped_early-Stuck p e h) in
      ground arith
