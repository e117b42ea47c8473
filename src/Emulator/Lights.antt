-- ===== src/Emulator/Lights.antt =====
-- The lights of the simulated car: the brake light is on exactly while it brakes.
use ksg_canbus_rpi_sniffer.Prelude.{
  ℕ, ◌+◌, ◌%◌, ◌<◌, ◌≡◌, refl, sym, subst, ◌∙◌, true, ◌==◌, if◌then◌else◌, arith, Bool-cases, inl,
  inr, if-true, if-either,
}
use ksg_canbus_rpi_sniffer.Prelude.Bits.{bit, bit-bit_and, bit-bit_or}
use ksg_canbus_rpi_sniffer.Emulator.Floats.{Floats}
use ksg_canbus_rpi_sniffer.Emulator.CarSystem.{CarState}
use ksg_canbus_rpi_sniffer.Emulator.Simulation.{
  Drive, simulation_round, engine_round, brake_lights, turn_lights, set_lights, drive_on, targets,
  set_targets, use_fuel, warm_up, change_speed, follow_rpm, steer,
}

module _ (f : Floats) where
  bit-brake_lights :
      (state lights : ℕ) → bit 4 (brake_lights f state lights) ≡ (if state == 3 then 1 else 0)
  unfolding brake_lights
  bit-brake_lights state lights = elim (Bool-cases (state == 3)) [
    | inl e ↦ rw (e, bit-bit_or 4 lights 0x10) (omega arith)
    | inr e ↦ rw (e, bit-bit_and 4 lights 0xef) (omega arith)
  ]

  bit-turn_lights :
      (angle : f.Double) (lights : ℕ) → bit 4 (turn_lights f angle lights) ≡ bit 4 lights
  unfolding turn_lights
  bit-turn_lights angle lights =
      if-either (λ x. bit 4 x ≡ bit 4 lights) (f.less (f.literal 100 1) (f.fabs angle)) _ _
        (λ wide.
          if-either (λ x. bit 4 x ≡ bit 4 lights) (f.less (f.literal 0 0) angle) _ _
            (λ right. bit-bit_or 4 lights 0x08 ∙ omega arith)
            (λ left. bit-bit_or 4 lights 0x04 ∙ omega arith))
        (λ narrow. bit-bit_and 4 lights 0xf3 ∙ omega arith)

  -- No step of a round but the lights' own touches the engine's flag.
  prepared_running :
      (s : CarState f.Double) → (use_fuel f (warm_up f s)).engine_running ≡ s.engine_running
  unfolding warm_up use_fuel
  prepared_running s = ground arith

  engine_running-targets :
      (state : ℕ) (s : CarState f.Double) → (targets f state s).engine_running ≡ s.engine_running
  unfolding targets set_targets
  engine_running-targets state s = ground arith

  engine_running-change_speed :
      (s : CarState f.Double) → (change_speed f s).engine_running ≡ s.engine_running
  unfolding change_speed
  engine_running-change_speed s = ground arith

  driven :
      (d : Drive f.Double) (s : CarState f.Double)
      → d.state < 4
      → ((drive_on f d s).0.state < 4) × ((drive_on f d s).1.engine_running ≡ s.engine_running)
  unfolding drive_on
  driven d s cycle =
      if-either
        (λ (r : Drive f.Double × CarState f.Double).
          (r.0.state < 4) × (r.1.engine_running ≡ s.engine_running))
        (f.less (f.literal 100 1) (f.add d.time_counter (f.literal 1 2))) _ _
        (λ late. (omega arith, engine_running-targets ((d.state + 1) % 4) s))
        (λ early. (cycle, refl))

  -- Whatever the arithmetic of doubles does: the state of the driving cycle stays one of the four, and
  -- after a round with the engine running the brake light is on exactly if the car is then in the
  -- braking state; the engine runs on.
  pub brake_light_on :
      (draw : ℕ) (d : Drive f.Double) (s : CarState f.Double)
      → s.engine_running ≡ true
      → d.state < 4
      → ((simulation_round f draw d s).0.state < 4)
        × (bit 4 (simulation_round f draw d s).1.lights_status
            ≡ (if (simulation_round f draw d s).0.state == 3 then 1 else 0))
        × ((simulation_round f draw d s).1.engine_running ≡ true)
  unfolding simulation_round engine_round set_lights steer follow_rpm
  brake_light_on draw d s up cycle =
      let prepared = use_fuel f (warm_up f s) in
      let (in_cycle, on) = driven d prepared cycle in
      let d' = (drive_on f d prepared).0 in
      let moved = change_speed f (drive_on f d prepared).1 in
      let turned = steer f d'.time_counter (follow_rpm f draw moved) in
      subst
        (λ (r : Drive f.Double × CarState f.Double).
          (r.0.state < 4)
          × (bit 4 r.1.lights_status ≡ (if r.0.state == 3 then 1 else 0))
          × (r.1.engine_running ≡ true))
        (sym (if-true s.engine_running _ _ up))
        (
          in_cycle,
          bit-turn_lights turned.steering_angle (brake_lights f d'.state turned.lights_status)
              ∙ bit-brake_lights d'.state turned.lights_status,
          engine_running-change_speed (drive_on f d prepared).1 ∙ (on ∙ (prepared_running s ∙ up)),
        )
