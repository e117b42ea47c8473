-- ===== src/Emulator/Broadcast.antt =====
-- The broadcasts of the car system (emulators/car_system/src/broadcast.c).
use ksg_canbus_rpi_sniffer.Prelude.{ℕ, ◌+◌, ◌/◌, ◌%◌, List, [], ◌∷◌, ◌++◌, ◌==◌, if◌then◌else◌}
use ksg_canbus_rpi_sniffer.Emulator.Floats.{Floats}
use ksg_canbus_rpi_sniffer.Emulator.CanUtils.{can_send_frame}
use ksg_canbus_rpi_sniffer.Emulator.CarSystem.{CarState, percent}

-- A 16-bit value, the high byte first.
abbrev pub two_bytes : ℕ → List ℕ
two_bytes val = (val / 256 % 256) ∷ (val % 256) ∷ []

module _ (f : Floats) where
  open f use {Double, literal, add, mul, to_uint8, to_uint16, to_int16}

  unfoldable pub encode_rpm : Double → List ℕ
  encode_rpm rpm = two_bytes (to_uint16 (mul rpm (literal 4 0)))

  unfoldable pub encode_speed : Double → List ℕ
  encode_speed speed = to_uint8 speed ∷ []

  unfoldable pub tasks_10ms : CarState Double → List (List ℕ)
  tasks_10ms s =
      can_send_frame 0x100 (encode_rpm s.rpm) 2
      ∷ can_send_frame 0x101 (to_uint8 s.steering_torque ∷ []) 1
      ∷ []

  unfoldable pub tasks_50ms : CarState Double → List (List ℕ)
  tasks_50ms s =
      can_send_frame 0x200 (encode_speed s.speed) 1
      ∷ can_send_frame 0x201 (two_bytes (to_int16 (add s.steering_angle (literal 32768 0)))) 2
      ∷ []

  unfoldable pub tasks_1000ms : CarState Double → List (List ℕ)
  unfolding percent
  tasks_1000ms s =
      can_send_frame 0x300
        (to_uint8 (add s.coolant_temp (literal 40 0)) ∷ percent f s.fuel_level ∷ []) 2
      ∷ can_send_frame 0x301 (s.door_status ∷ s.lights_status ∷ []) 2
      ∷ []

  -- A round of broadcast_thread: the frames that it writes, and the counter after it.
  unfoldable pub broadcast_round : ℕ → CarState Double → List (List ℕ) × ℕ
  unfolding tasks_10ms tasks_50ms tasks_1000ms
  broadcast_round counter s = (
    tasks_10ms s
        ++ ((if counter % 5 == 0 then tasks_50ms s else [])
            ++ (if counter % 100 == 0 then tasks_1000ms s else [])),
    counter + 1,
  )
