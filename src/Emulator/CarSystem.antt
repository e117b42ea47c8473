-- ===== src/Emulator/CarSystem.antt =====
-- The car system (emulators/car_system/src/main.c, emulators/car_system/include/emulator.h): its state,
-- and its answers to diagnostic requests. A handler runs under the mutex of the state.
use ksg_canbus_rpi_sniffer.Prelude.{
  ℕ, ◌/◌, ◌%◌, Bool, true, Option, none, some, List, [], ◌∷◌, ◌++◌, ltb, ◌==◌, if◌then◌else◌,
  get_or,
}
use ksg_canbus_rpi_sniffer.Emulator.Floats.{Floats}
use ksg_canbus_rpi_sniffer.Emulator.CanUtils.{
  Poll, ReadFrame, no_frame, read_failed, frame_read, can_read_frame, can_send_frame, SocketCall,
  can_open_socket, can_close_socket,
}

-- CarState
pub record CarState (R : Type 0) : Type 0 where
  pub rpm : R
  pub speed : R
  pub throttle : R
  pub coolant_temp : R
  pub fuel_level : R
  pub brake_pressure : R
  pub steering_angle : R
  pub steering_torque : R
  pub odometer : R
  pub door_status : ℕ
  pub lights_status : ℕ
  pub engine_running : Bool
  pub target_speed : R

abbrev pub can_id_request : ℕ
can_id_request = 0x7df

abbrev pub can_id_response : ℕ
can_id_response = 0x7e8

-- The eight bytes of an answer with one value byte, or with two, the high one first.
unfoldable pub answer_one : ℕ → ℕ → List ℕ
answer_one pid a = 3 ∷ 0x41 ∷ pid ∷ a ∷ 0 ∷ 0 ∷ 0 ∷ 0 ∷ []

unfoldable pub answer_two : ℕ → ℕ → List ℕ
answer_two pid val = 4 ∷ 0x41 ∷ pid ∷ (val / 256 % 256) ∷ (val % 256) ∷ 0 ∷ 0 ∷ 0 ∷ []

module _ (f : Floats) where
  open f use {Double, literal, add, sub, mul, div, to_uint8, to_uint16, to_int16}

  -- init_state; what it does not set is zero, as a global is.
  unfoldable pub init_state : CarState Double
  init_state = record {
    rpm = literal 800 0;
    speed = literal 0 0;
    throttle = literal 0 0;
    coolant_temp = literal 25 0;
    fuel_level = literal 100 0;
    brake_pressure = literal 0 0;
    steering_angle = literal 0 0;
    steering_torque = literal 0 0;
    odometer = literal 0 0;
    door_status = 0;
    lights_status = 0;
    engine_running = true;
    target_speed = literal 0 0;
  }

  -- (value * 255) / 100, a percentage as a byte.
  unfoldable pub percent : Double → ℕ
  percent value = to_uint8 (div (mul value (literal 255 0)) (literal 100 0))

  -- The switch of handle_obd_request.
  unfoldable pub obd_value : ℕ → CarState Double → Option (List ℕ)
  unfolding answer_one answer_two percent
  obd_value pid s =
      if pid == 0x0c
      then some (answer_two pid (to_uint16 (mul s.rpm (literal 4 0))))
      else if pid == 0x0d
      then some (answer_one pid (to_uint8 s.speed))
      else if pid == 0x11
      then some (answer_one pid (percent s.throttle))
      else if pid == 0x05
      then some (answer_one pid (to_uint8 (add s.coolant_temp (literal 40 0))))
      else if pid == 0x2f
      then some (answer_one pid (percent s.fuel_level))
      else if pid == 0xb0
      then some (answer_one pid (to_uint8 s.brake_pressure))
      else if pid == 0xb1
      then some (answer_two pid (to_int16 (add s.steering_angle (literal 32768 0))))
      else none

  -- handle_obd_request: the frames that it writes.
  unfoldable pub respond : Option (List ℕ) → List (List ℕ)
  respond none = []
  respond (some resp) = can_send_frame can_id_response resp 8 ∷ []

  unfoldable pub handle_obd_request : List ℕ → ℕ → CarState Double → List (List ℕ)
  unfolding respond
  handle_obd_request req_data len s =
      if ltb len 3
      then []
      else if get_or req_data 1 0 == 0x01
      then respond (obd_value (get_or req_data 2 0) s)
      else []

  -- A round of the loop of main.
  unfoldable pub request_round : ReadFrame → CarState Double → List (List ℕ)
  unfolding handle_obd_request
  request_round no_frame s = []
  request_round read_failed s = []
  request_round (frame_read can_id bytes len) s =
      if can_id == can_id_request then handle_obd_request bytes len s else []

  unfoldable pub main_round : Poll → CarState Double → List (List ℕ)
  unfolding request_round
  main_round answer s = request_round (can_read_frame answer) s

  -- The rounds of main until a signal ends them: each with its poll, and the state that the simulation
  -- has reached by then.
  unfoldable pub main_rounds : List (Poll × CarState Double) → List (List ℕ)
  unfolding main_round
  main_rounds [] = []
  main_rounds ((answer, s) ∷ rest) = main_round answer s ++ main_rounds rest

  -- Behind can_open_socket: the exit code, the frames written, and the calls on the socket.
  unfoldable pub main_opened :
      List (Poll × CarState Double)
      → Option (Option ℕ × List SocketCall)
      → Option (ℕ × List (List ℕ) × List SocketCall)
  unfolding main_rounds
  main_opened rounds none = none
  main_opened rounds (some (none, calls)) = some (1, [], calls)
  main_opened rounds (some (some s, calls)) =
      some (0, main_rounds rounds, calls ++ can_close_socket (some s))

  -- main; `none` is the write past the interface's name.
  unfoldable pub main_program :
      List (List ℕ)
      → Option ℕ
      → Bool
      → Bool
      → List (Poll × CarState Double)
      → Option (ℕ × List (List ℕ) × List SocketCall)
  unfolding main_opened
  main_program [] socket ioctl_ok bind_ok rounds = some (1, [], [])
  main_program (interface_name ∷ rest) socket ioctl_ok bind_ok rounds =
      main_opened rounds (can_open_socket interface_name socket ioctl_ok bind_ok)
