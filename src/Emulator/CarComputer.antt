-- ===== src/Emulator/CarComputer.antt =====
-- The car computer's listener (emulators/car_computer/src/CarComputer.cpp): what it notes of the frames on
-- its bus, and its answers to diagnostic requests.
use ksg_canbus_rpi_sniffer.Prelude.{
  ℕ, ◌+◌, ◌-◌, ◌*◌, ◌%◌, Bool, true, false, ◌&&◌, ◌||◌, Option, none, some, List, [], ◌∷◌, ◌++◌,
  ltb, leb, ◌==◌, if◌then◌else◌, get_or, length,
}
use ksg_canbus_rpi_sniffer.Sniffer.Frames.{frame_id, frame_dlc, frame_data}
use ksg_canbus_rpi_sniffer.Emulator.Floats.{Floats}
use ksg_canbus_rpi_sniffer.Emulator.CanUtils.{can_frame, sizeof_can_frame}
use ksg_canbus_rpi_sniffer.Emulator.CarSystem.{answer_one, answer_two}

-- The members, and the local statics of processCanFrame: the last three. A time is in whole seconds.
pub record CarComputer (R : Type 0) : Type 0 where
  pub running : Bool
  pub current_speed : R
  pub current_rpm : R
  pub target_speed : R
  pub steering_angle : R
  pub cruise_control_active : Bool
  pub temp : R
  pub fuel : R
  pub start_time : Option ℕ

-- What a call of the listener reads of the world: rand, and the time.
pub record Reading : Type 0 where
  pub draw : ℕ
  pub seconds : ℕ

-- The time since the first reading; the first call notes it.
unfoldable pub since : Option ℕ → ℕ → ℕ
since none now = 0
since (some start) now = now - start

unfoldable pub noted_start : Option ℕ → ℕ → Option ℕ
noted_start none now = some now
noted_start (some start) now = some start

module _ (f : Floats) where
  open f use {Double, literal, of_nat, of_difference, add, sub, mul, div, less, to_uint8, to_int}

  -- CarComputer::CarComputer
  unfoldable pub construct : CarComputer Double
  construct = record {
    running = false;
    current_speed = literal 0 0;
    current_rpm = literal 0 0;
    target_speed = literal 0 0;
    steering_angle = literal 0 0;
    cruise_control_active = true;
    temp = literal 200 1;
    fuel = literal 2550 1;
    start_time = none;
  }

  -- What is noted of a frame of the car system.
  unfoldable pub note_frame : ℕ → List ℕ → ℕ → CarComputer Double → CarComputer Double
  note_frame can_id bytes len c =
      if can_id == 0x200 && leb 1 len
      then record c { current_speed = of_nat (get_or bytes 0 0) }
      else if can_id == 0x100 && leb 2 len
      then record c {
        current_rpm = div (of_nat (get_or bytes 0 0 * 256 + get_or bytes 1 0)) (literal 40 1);
      }
      else c

  unfoldable pub warmed : CarComputer Double → CarComputer Double
  warmed c = if less c.temp (literal 900 1) then record c { temp = add c.temp (literal 5 2) } else c

  unfoldable pub burned : CarComputer Double → CarComputer Double
  burned c = if less (literal 0 0) c.fuel then record c { fuel = sub c.fuel (literal 1 3) } else c

  -- The cases of the switch that keep the state: the eight bytes of the answer.
  unfoldable pub plain_answer : ℕ → Reading → CarComputer Double → Option (List ℕ)
  unfolding answer_one answer_two
  plain_answer pid r c =
      if pid == 0x0c
      then some (answer_two pid (to_int (mul c.current_rpm (literal 4 0))))
      else if pid == 0x0d
      then some (answer_one pid (to_uint8 c.current_speed))
      else if pid == 0x11
      then some
          (answer_one pid (to_uint8 (mul (div c.current_rpm (literal 80000 1)) (literal 255 0))))
      else if pid == 0x04
      then some (
          answer_one pid (
            to_uint8
              (add (mul (div c.current_speed (literal 2000 1)) (literal 200 0)) (literal 20 0))))
      else if pid == 0x10
      then some (
          answer_two pid
            (to_int (mul (mul (div c.current_rpm (literal 600 1)) (literal 20 1)) (literal 100 0))))
      else if pid == 0x0e
      then some (
          answer_one pid (
            to_uint8 (
              mul
                (add
                  (add (literal 150 1)
                    (sub (div (of_nat (r.draw % 100)) (literal 100 1)) (literal 50 1)))
                  (literal 64 0))
                (literal 2 0))))
      else if pid == 0x0b
      then some (
          answer_one pid
            ((30 + to_uint8 (mul (div c.current_rpm (literal 80000 1)) (literal 70 0))) % 256))
      else if pid == 0x0a
      then some (answer_one pid (100 + r.draw % 5))
      else none

  -- The switch of processCanFrame.
  unfoldable pub switch : ℕ → Reading → CarComputer Double → Option (List ℕ) × CarComputer Double
  unfolding warmed burned since noted_start plain_answer answer_one answer_two
  switch pid r c =
      if pid == 0x05
      then (some (answer_one pid (to_uint8 (add (warmed c).temp (literal 40 0)))), warmed c)
      else if pid == 0x2f
      then (some (answer_one pid (to_uint8 (burned c).fuel)), burned c)
      else if pid == 0x1f
      then (
        some (answer_two pid (since c.start_time r.seconds)),
        record c { start_time = noted_start c.start_time r.seconds },
      )
      else (plain_answer pid r c, c)

  -- The frames that are handed to m_canBus->send.
  unfoldable pub response : Option (List ℕ) → List (List ℕ)
  unfolding can_frame
  response none = []
  response (some bytes) = can_frame 0x7e8 8 bytes ∷ []

  unfoldable pub answer_request :
      List ℕ → ℕ → Reading → CarComputer Double → CarComputer Double × List (List ℕ)
  unfolding switch response
  answer_request bytes len r c =
      if leb 3 len && get_or bytes 1 0 == 0x01
      then (let (answer, c') = switch (get_or bytes 2 0) r c in (c', response answer))
      else (c, [])

  unfoldable pub process_can_frame :
      ℕ → List ℕ → ℕ → Reading → CarComputer Double → CarComputer Double × List (List ℕ)
  unfolding note_frame answer_request
  process_can_frame can_id bytes len r c =
      let c' = note_frame can_id bytes len c in
      if can_id == 0x7df || can_id == 0x7e0 then answer_request bytes len r c' else (c', [])

  unfoldable pub on_data_received :
      List ℕ → Reading → CarComputer Double → CarComputer Double × List (List ℕ)
  unfolding process_can_frame
  on_data_received bytes r c =
      if ltb (length bytes) sizeof_can_frame
      then (c, [])
      else process_can_frame (frame_id bytes) (frame_data bytes) (frame_dlc bytes) r c

-- start, with what m_canBus->start returned, and stop: the calls that they make.
pub data BusCall : Type 0 where
  start_bus start_control join_control stop_bus delete_bus : BusCall

module _ {R : Type 0} where
  unfoldable pub start : Bool → CarComputer R → Bool × CarComputer R × List BusCall
  start bus_started c =
      if c.running
      then (true, c, [])
      else if bus_started
      then (true, record c { running = true }, start_bus ∷ start_control ∷ [])
      else (false, c, start_bus ∷ [])

  unfoldable pub stop : CarComputer R → CarComputer R × List BusCall
  stop c =
      if c.running then (record c { running = false }, join_control ∷ stop_bus ∷ []) else (c, [])

  -- CarComputer::~CarComputer
  unfoldable pub destroy : CarComputer R → List BusCall
  unfolding stop
  destroy c = (stop c).1 ++ (delete_bus ∷ [])

-- main (emulators/car_computer/src/main.cpp), whose wait ends with a signal: its exit code, and the calls.
unfoldable pub main_calls : (f : Floats) → List (List ℕ) → Bool → ℕ × List BusCall
unfolding start stop destroy
main_calls f [] bus_started = (1, [])
main_calls f (interface_name ∷ rest) bus_started =
    let (ok, c, calls) = start bus_started (construct f) in
    if ok
    then (let (c', stopped) = stop c in (0, calls ++ (stopped ++ destroy c')))
    else (1, calls ++ destroy c)
