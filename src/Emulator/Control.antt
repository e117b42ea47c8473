-- ===== src/Emulator/Control.antt =====
-- The car computer's control loop (controlLoop of emulators/car_computer/src/CarComputer.cpp).
use ksg_canbus_rpi_sniffer.Prelude.{ℕ, ◌+◌, ◌%◌, List, [], ◌∷◌, ◌==◌, if◌then◌else◌}
use ksg_canbus_rpi_sniffer.Emulator.Floats.{Floats}
use ksg_canbus_rpi_sniffer.Emulator.CanUtils.{can_frame}
use ksg_canbus_rpi_sniffer.Emulator.Broadcast.{two_bytes}
use ksg_canbus_rpi_sniffer.Emulator.CarComputer.{CarComputer}

-- The locals of controlLoop.
pub record Controls (R : Type 0) : Type 0 where
  pub counter : ℕ
  pub throttle : R
  pub brake : R

module _ (f : Floats) where
  open f use {Double, literal, of_nat, of_difference, neg, add, sub, mul, less, to_uint8, to_int16}

  unfoldable pub new_target : ℕ → ℕ → CarComputer Double → CarComputer Double
  new_target counter draw c =
      if counter % 500 == 0 then record c { target_speed = of_nat (draw % 100 + 20) } else c

  unfoldable pub at_most : ℕ → Double → Double
  at_most most value = if less (literal most 0) value then literal most 0 else value

  unfoldable pub at_least : ℕ → Double → Double
  at_least least value = if less value (neg (literal least 0)) then neg (literal least 0) else value

  unfoldable pub steer : ℕ → ℕ → CarComputer Double → CarComputer Double
  unfolding at_most at_least
  steer counter draw c =
      if counter % 10 == 0
      then record c {
        steering_angle =
            at_least 30
              (at_most 30 (add c.steering_angle (mul (of_difference (draw % 10) 5) (literal 1 1))));
      }
      else c

  unfoldable pub cruise : CarComputer Double → Controls Double → Controls Double
  unfolding at_most
  cruise c k =
      let error = sub c.target_speed c.current_speed in
      if c.cruise_control_active
      then (if less (literal 0 0) error
          then record k { throttle = at_most 100 (mul error (literal 20 1)); brake = literal 0 0 }
          else record k {
            throttle = literal 0 0;
            brake = at_most 100 (mul (neg error) (literal 20 1));
          })
      else k

  -- The commands of a round, as the frames handed to m_canBus->send.
  unfoldable pub commands : CarComputer Double → Controls Double → List (List ℕ)
  unfolding can_frame
  commands c k =
      if k.counter % 5 == 0
      then can_frame 0x400 2 (to_uint8 k.throttle ∷ to_uint8 k.brake ∷ [])
        ∷ can_frame 0x401 2 (two_bytes (to_int16 (mul c.steering_angle (literal 10 0))))
        ∷ []
      else []

  -- A round of the loop, with the answers of its calls of rand.
  unfoldable pub control_round :
      ℕ
      → ℕ
      → CarComputer Double
      → Controls Double
      → CarComputer Double × Controls Double × List (List ℕ)
  unfolding new_target steer cruise commands
  control_round target_draw steer_draw c k =
      let counter = k.counter + 1 in
      let c' = steer counter steer_draw (new_target counter target_draw c) in
      let k' = cruise c' (record k { counter = counter }) in (c', k', commands c' k')
