-- ===== src/Program/Exit.antt =====
-- How the shutdown ends once MainService::run has set its flag, and what main leaves on the LEDs.
use ksg_canbus_rpi_sniffer.Prelude.{
  ℕ, ◌-◌, ◌≤◌, ◌≡◌, refl, ap, ◌∙◌, Bool, true, false, List, [], ◌∷◌, ◌++◌, arith, inl, inr, sym,
  Bool-cases,
}
use mathlib.Core.List.{append-nil}
use ksg_canbus_rpi_sniffer.Leds.Files.{AttrValue, FileAnswer, FileWrite}
use ksg_canbus_rpi_sniffer.Prelude.Steps.{count, steps-keep, steps-lower}
use ksg_canbus_rpi_sniffer.Program.{
  Program, ServiceAt, MainAt, Turn, at_test, at_load, at_set, at_while, in_round, at_destroy, left,
  at_wait, at_stop, at_join, at_leds, at_delete, exited, main_steps, service_steps, signals, turn,
  turns, main_at, service_at, signal_handler, has_left, reset_leds,
}
use ksg_canbus_rpi_sniffer.Program.Hang.{has_begun}

-- The steps that a thread has left once main is at its join.
unfoldable service_left : ServiceAt → ℕ
service_left left = 0
service_left at_destroy = 1
service_left at_while = 2
service_left in_round = 3
service_left at_set = 0
service_left at_load = 0
service_left at_test = 0

unfoldable main_left : MainAt → ℕ
main_left exited = 0
main_left at_delete = 1
main_left at_leds = 2
main_left at_join = 3
main_left at_stop = 4
main_left at_wait = 5

unfoldable pub of_service : Turn → ℕ
of_service service_steps = 1
of_service main_steps = 0
of_service signals = 0

unfoldable pub of_main : Turn → ℕ
of_main main_steps = 1
of_main service_steps = 0
of_main signals = 0

abbrev Ending : Program → Type 0
Ending p = (p.running ≡ false) × (has_begun p.service ≡ true) × (main_left p.main_thread ≤ 3)

module _ (present : List ℕ → Bool) (answer : List ℕ → AttrValue → FileAnswer) where
  turn-Ending : (t : Turn) (p : Program) → Ending p → Ending (turn present answer t p)
  unfolding turn main_at service_at signal_handler has_begun has_left main_left
  turn-Ending t p h = ground arith

  turn-service :
      (t : Turn) (p : Program)
      → Ending p
      → service_left (turn present answer t p).service ≤ service_left p.service - of_service t
  unfolding turn main_at service_at signal_handler has_begun has_left main_left service_left
      of_service
  turn-service t p h = ground arith

  turn-main :
      (t : Turn) (p : Program)
      → Ending p
      → service_left p.service ≡ 0
      → main_left (turn present answer t p).main_thread ≤ main_left p.main_thread - of_main t
  unfolding turn main_at service_at signal_handler has_begun has_left main_left service_left of_main
  turn-main t p h e = ground arith

  -- What main has left to write to the LEDs.
  unfoldable due : MainAt → List FileWrite
  due at_wait = reset_leds present answer
  due at_stop = reset_leds present answer
  due at_join = reset_leds present answer
  due at_leds = reset_leds present answer
  due at_delete = []
  due exited = []

  -- What is written and what is due are the same lists, put together, before and after a step.
  Balanced : List FileWrite → Program → Type 0
  Balanced all p = p.writes ++ due p.main_thread ≡ all

  main_at-Balanced :
      (m : MainAt) (p : Program)
      → p.main_thread ≡ m
      → Balanced (p.writes ++ due m) (main_at present answer m p)
  unfolding main_at due Balanced
  main_at-Balanced at_wait p at = elim (Bool-cases p.keep_running) [
    | inl e ↦ rw e refl
    | inr e ↦ rw e refl
  ]
  main_at-Balanced at_stop p at = refl
  main_at-Balanced at_join p at = elim (Bool-cases (has_left p.service)) [
    | inl e ↦ rw e refl
    | inr e ↦ rw e refl
  ]
  main_at-Balanced at_leds p at = append-nil (p.writes ++ reset_leds present answer)
  main_at-Balanced at_delete p at = refl
  main_at-Balanced exited p at = ap (λ m. p.writes ++ due m) at

  service_at-Balanced :
      (v : ServiceAt) (p : Program) → Balanced (p.writes ++ due p.main_thread) (service_at v p)
  unfolding service_at Balanced
  service_at-Balanced at_test p = refl
  service_at-Balanced at_load p = refl
  service_at-Balanced at_set p = refl
  service_at-Balanced at_while p = refl
  service_at-Balanced in_round p = refl
  service_at-Balanced at_destroy p = refl
  service_at-Balanced left p = refl

  turn-Balanced :
      (t : Turn) (p : Program) → Balanced (p.writes ++ due p.main_thread) (turn present answer t p)
  unfolding turn signal_handler Balanced
  turn-Balanced main_steps p = main_at-Balanced p.main_thread p refl
  turn-Balanced service_steps p = service_at-Balanced p.service p
  turn-Balanced signals p = refl

  turns-Balanced :
      (ts : List Turn) (p : Program)
      → Balanced (p.writes ++ due p.main_thread) (turns present answer ts p)
  unfolding turns Balanced
  turns-Balanced [] p = refl
  turns-Balanced (t ∷ ts) p = turns-Balanced ts (turn present answer t p) ∙ turn-Balanced t p

  service_left_le : (v : ServiceAt) → service_left v ≤ 3
  unfolding service_left
  service_left_le v = ground arith

  main_left-exited : (m : MainAt) → main_left m ≡ 0 → m ≡ exited
  unfolding main_left
  main_left-exited m h = ground arith

  turn-gone :
      (t : Turn) (p : Program)
      → Ending p × (service_left p.service ≡ 0)
      → Ending (turn present answer t p) × (service_left (turn present answer t p).service ≡ 0)
  turn-gone t p (h, e) = (turn-Ending t p h, let low = turn-service t p h in omega arith)

  service_gone :
      (ts : List Turn) (p : Program)
      → Ending p
      → 3 ≤ count of_service ts
      → Ending (turns present answer ts p) × (service_left (turns present answer ts p).service ≡ 0)
  unfolding turns
  service_gone ts p h f =
      let step = turn present answer in
      let low =
        steps-lower step Ending turn-Ending of_service (λ x. service_left x.service) turn-service ts
          p h in
      let most = service_left_le p.service in
      (steps-keep step Ending turn-Ending ts p h, omega arith)

  main_gone :
      (ts : List Turn) (p : Program)
      → Ending p × (service_left p.service ≡ 0)
      → 3 ≤ count of_main ts
      → (turns present answer ts p).main_thread ≡ exited
  unfolding turns
  main_gone ts p (h, e) g =
      let Gone = λ (x : Program). Ending x × (service_left x.service ≡ 0) in
      let lowers = λ (t : Turn) (x : Program) (k : Gone x). turn-main t x k.0 k.1 in
      let low =
        steps-lower (turn present answer) Gone turn-gone of_main (λ x. main_left x.main_thread)
          lowers ts p (h, e) in
      main_left-exited (turns present answer ts p).main_thread (omega (arith, h.2))

  stopped-Ending :
      (p : Program)
      → p.main_thread ≡ at_stop
      → has_begun p.service ≡ true
      → Ending (turn present answer main_steps p)
  unfolding turn main_at main_left
  stopped-Ending p e h = ground arith

  written :
      (p : Program) (all : List FileWrite)
      → p.main_thread ≡ exited
      → Balanced all p
      → p.writes ≡ all
  unfolding Balanced due
  written p all e h = sym (append-nil p.writes) ∙ (sym (ap (λ m. p.writes ++ due m) e) ∙ h)

  -- main calls stop after run has turned m_running on: in any order of steps that holds three of the
  -- service's thread and then three of main, with any other steps and signals between them, main
  -- exits, and what it has written to the LEDs by then is, behind what was written before, the reset of PWR
  -- and ACT.
  pub late_stop_exits :
      (p : Program) (first second : List Turn)
      → p.main_thread ≡ at_stop
      → has_begun p.service ≡ true
      → 3 ≤ count of_service first
      → 3 ≤ count of_main second
      → ((turns present answer second
            (turns present answer first (turn present answer main_steps p))).main_thread
          ≡ exited)
        × ((turns present answer second
              (turns present answer first (turn present answer main_steps p))).writes
            ≡ p.writes ++ reset_leds present answer)
  unfolding Balanced due
  late_stop_exits p first second e h f g =
      let p1 = turn present answer main_steps p in
      let p2 = turns present answer first p1 in
      let out = main_gone second p2 (service_gone first p1 (stopped-Ending p e h) f) g in
      (
        out,
        written (turns present answer second p2) (p.writes ++ reset_leds present answer) out (
            turns-Balanced second p2
            ∙ (turns-Balanced first p1
                ∙ (turn-Balanced main_steps p ∙ ap (λ m. p.writes ++ due m) e))),
      )
