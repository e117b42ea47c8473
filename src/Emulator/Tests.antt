-- ===== src/Emulator/Tests.antt =====
-- The emulators' theorems with a concrete arithmetic: numbers in quarters.
use ksg_canbus_rpi_sniffer.Prelude.{
  ℕ, ◌+◌, ◌-◌, ◌*◌, ◌/◌, ◌%◌, ◌^◌, ◌<◌, ◌≡◌, ◌⊎◌, ◌||◌, refl, true, List, [], ◌∷◌, ltb, ◌==◌,
  if◌then◌else◌, arith,
}
use ksg_canbus_rpi_sniffer.Prelude.Bits.{bit}
use ksg_canbus_rpi_sniffer.Prelude.Bytes.{field}
use ksg_canbus_rpi_sniffer.Protocol.Message.{fit}
use ksg_canbus_rpi_sniffer.Sniffer.Frames.{frame_id, frame_data}
use ksg_canbus_rpi_sniffer.Emulator.Floats.{Floats, IsExact}
use ksg_canbus_rpi_sniffer.Emulator.CanUtils.{can_frame, can_send_frame}
use ksg_canbus_rpi_sniffer.Emulator.CarSystem.{CarState, init_state, handle_obd_request, obd_value}
use ksg_canbus_rpi_sniffer.Emulator.Broadcast.{encode_rpm}
use ksg_canbus_rpi_sniffer.Emulator.Simulation.{Drive, simulation_round}
use ksg_canbus_rpi_sniffer.Emulator.CarComputer.{CarComputer, Reading, construct, on_data_received}
use ksg_canbus_rpi_sniffer.Emulator.Diagnostics.{feed, rpm_agrees}
use ksg_canbus_rpi_sniffer.Emulator.Answers.{IsAnswer, answers_form}
use ksg_canbus_rpi_sniffer.Emulator.Lights.{brake_light_on}

abbrev quarter_floats : Floats
quarter_floats = record {
  Double = ℕ;
  literal = λ m e. 4 * m / 10 ^ e;
  of_nat = λ v. 4 * v;
  of_difference = λ a b. 4 * (a - b);
  neg = λ x. 0;
  add = λ x y. x + y;
  sub = λ x y. x - y;
  mul = λ x y. x * y / 4;
  div = λ x y. 4 * x / y;
  less = ltb;
  sin = λ x. 0;
  fabs = λ x. x;
  to_uint8 = λ x. x / 4 % 2 ^ 8;
  to_uint16 = λ x. x / 4 % 2 ^ 16;
  to_int16 = λ x. x / 4 % 2 ^ 16;
  to_int = λ x. x / 4;
}

quarter_floats-IsExact : IsExact quarter_floats
quarter_floats-IsExact = record {
  to_uint16_small = λ x. omega arith;
  quarters = λ v h. omega arith;
  to_int-of_nat = λ v h. omega arith;
}

abbrev reading : Reading
reading = record { draw = 7; seconds = 100 }

abbrev idling : CarState ℕ
idling = init_state quarter_floats

abbrev parked : CarComputer ℕ
parked = construct quarter_floats

-- The speed of the car comes between.
rpm_agrees_example :
    (on_data_received quarter_floats (can_send_frame 0x7df (2 ∷ 1 ∷ 0x0c ∷ []) 8) reading (
      feed quarter_floats
        ((can_send_frame 0x100 (encode_rpm quarter_floats idling.rpm) 2, reading)
          ∷ (can_send_frame 0x200 (50 ∷ []) 1, reading)
          ∷ [])
        parked)).1
    ≡ handle_obd_request quarter_floats (2 ∷ 1 ∷ 0x0c ∷ []) 3 idling
unfolding can_send_frame frame_id field
rpm_agrees_example =
    rpm_agrees quarter_floats idling parked reading reading
      ((can_send_frame 0x200 (50 ∷ []) 1, reading) ∷ []) quarter_floats-IsExact (refl, tt)

-- The engine's speed at 800 turns a minute.
idling_answer :
    handle_obd_request quarter_floats (2 ∷ 1 ∷ 0x0c ∷ []) 3 idling
    ≡ can_frame 0x7e8 8 (4 ∷ 0x41 ∷ 0x0c ∷ 0x0c ∷ 0x80 ∷ 0 ∷ 0 ∷ 0 ∷ []) ∷ []
unfolding handle_obd_request can_send_frame init_state obd_value
idling_answer = refl

-- The end of cruising.
abbrev cruising : Drive ℕ
cruising = record { time_counter = 41; state = 2 }

brake_light_on_example :
    ((simulation_round quarter_floats 30 cruising idling).0.state < 4)
    × (bit 4 (simulation_round quarter_floats 30 cruising idling).1.lights_status
        ≡ (if (simulation_round quarter_floats 30 cruising idling).0.state == 3 then 1 else 0))
    × ((simulation_round quarter_floats 30 cruising idling).1.engine_running ≡ true)
unfolding init_state
brake_light_on_example = brake_light_on quarter_floats 30 cruising idling refl (omega arith)

-- A request for the coolant's temperature.
answers_form_example :
    ((on_data_received quarter_floats (can_frame 0x7e0 8 (2 ∷ 1 ∷ 5 ∷ [])) reading parked).1 ≡ [])
    ⊎ ((answer : List ℕ) × IsAnswer 5 answer
        × ((on_data_received quarter_floats (can_frame 0x7e0 8 (2 ∷ 1 ∷ 5 ∷ [])) reading parked).1
            ≡ can_frame 0x7e8 8 answer ∷ [])
        × ((frame_id (can_frame 0x7e0 8 (2 ∷ 1 ∷ 5 ∷ [])) == 0x7df
              || frame_id (can_frame 0x7e0 8 (2 ∷ 1 ∷ 5 ∷ [])) == 0x7e0)
            ≡ true))
unfolding frame_data can_frame fit
answers_form_example =
    answers_form quarter_floats (can_frame 0x7e0 8 (2 ∷ 1 ∷ 5 ∷ [])) reading parked
