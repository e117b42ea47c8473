-- ===== src/Emulator/Simulation.antt =====
-- The simulated drive of the car system (emulators/car_system/src/simulation.c).
use ksg_canbus_rpi_sniffer.Prelude.{ℕ, ◌+◌, ◌%◌, bit_and, bit_or, ◌==◌, if◌then◌else◌}
use ksg_canbus_rpi_sniffer.Emulator.Floats.{Floats}
use ksg_canbus_rpi_sniffer.Emulator.CarSystem.{CarState}

-- The locals of simulation_thread: 0 idle, 1 accelerating, 2 cruising, 3 braking.
pub record Drive (R : Type 0) : Type 0 where
  pub time_counter : R
  pub state : ℕ

module _ (f : Floats) where
  open f use {Double, literal, of_difference, add, sub, mul, div, less, sin, fabs}

  unfoldable pub start_drive : Drive Double
  start_drive = record { time_counter = literal 0 1; state = 0 }

  unfoldable pub warm_up : CarState Double → CarState Double
  warm_up s =
      if less s.coolant_temp (literal 900 1)
      then record s { coolant_temp = add s.coolant_temp (literal 5 2) }
      else s

  unfoldable pub use_fuel : CarState Double → CarState Double
  use_fuel s =
      if less (literal 0 0) s.fuel_level
      then record s { fuel_level = sub s.fuel_level (literal 1 3) }
      else s

  -- The targets of a state of the driving cycle.
  unfoldable pub set_targets : ℕ → ℕ → ℕ → CarState Double → CarState Double
  set_targets speed throttle brake s = record s {
    target_speed = literal speed 0;
    throttle = literal throttle 0;
    brake_pressure = literal brake 0;
  }

  unfoldable pub targets : ℕ → CarState Double → CarState Double
  unfolding set_targets
  targets state s =
      if state == 0
      then set_targets 0 0 0 s
      else if state == 1
      then set_targets 80 60 0 s
      else if state == 2
      then set_targets 80 20 0 s
      else if state == 3
      then set_targets 0 0 30 s
      else s

  unfoldable pub drive_on : Drive Double → CarState Double → Drive Double × CarState Double
  unfolding targets
  drive_on d s =
      let time = add d.time_counter (literal 1 2) in
      if less (literal 100 1) time
      then (
        record { time_counter = literal 0 1; state = (d.state + 1) % 4 },
        targets ((d.state + 1) % 4) s,
      )
      else (record d { time_counter = time }, s)

  unfoldable pub change_speed : CarState Double → CarState Double
  change_speed s =
      if less s.speed s.target_speed
      then record s { speed = add s.speed (literal 5 1) }
      else if less s.target_speed s.speed
      then record s { speed = sub s.speed (literal 8 1) }
      else s

  -- `draw` is what rand returns.
  unfoldable pub follow_rpm : ℕ → CarState Double → CarState Double
  follow_rpm draw s =
      let rpm =
        if less s.speed (literal 10 1)
        then literal 8000 1
        else add (literal 8000 1) (mul s.speed (literal 400 1)) in
      record s { rpm = add rpm (of_difference (draw % 50) 25) }

  unfoldable pub steer : Double → CarState Double → CarState Double
  steer time s =
      let angle = mul (sin time) (literal 300 1) in
      record s {
        odometer = add s.odometer (mul (div s.speed (literal 36000 1)) (literal 1 2));
        steering_angle = angle;
        steering_torque = div (fabs angle) (literal 100 1);
      }

  unfoldable pub brake_lights : ℕ → ℕ → ℕ
  brake_lights state lights = if state == 3 then bit_or lights 0x10 else bit_and lights 0xef

  unfoldable pub turn_lights : Double → ℕ → ℕ
  turn_lights angle lights =
      if less (literal 100 1) (fabs angle)
      then (if less (literal 0 0) angle then bit_or lights 0x08 else bit_or lights 0x04)
      else bit_and lights 0xf3

  unfoldable pub set_lights : ℕ → CarState Double → CarState Double
  unfolding brake_lights turn_lights
  set_lights state s = record s {
    lights_status = turn_lights s.steering_angle (brake_lights state s.lights_status);
  }

  unfoldable pub engine_round : ℕ → Drive Double × CarState Double → Drive Double × CarState Double
  engine_round draw (d, s) =
      (d, set_lights d.state (steer d.time_counter (follow_rpm draw (change_speed s))))

  -- A round of simulation_thread.
  unfoldable pub simulation_round :
      ℕ → Drive Double → CarState Double → Drive Double × CarState Double
  simulation_round draw d s =
      if s.engine_running then engine_round draw (drive_on d (use_fuel (warm_up s))) else (d, s)
