-- ===== src/Emulator/Diagnostics.antt =====
-- The diagnostic answers of the car computer against those of the car system: both tell the engine speed
-- by the same two bytes.
use ksg_canbus_rpi_sniffer.Prelude.{
  ℕ, ◌+◌, ◌*◌, ◌/◌, ◌%◌, ◌≡◌, refl, ap, sym, ◌∙◌, false, List, [], ◌∷◌, ◌==◌, arith,
}
use ksg_canbus_rpi_sniffer.Prelude.Bytes.{field}
use ksg_canbus_rpi_sniffer.Protocol.Message.{fit}
use ksg_canbus_rpi_sniffer.Sniffer.Frames.{frame_id, frame_dlc, frame_data}
use ksg_canbus_rpi_sniffer.Emulator.Floats.{Floats, IsExact}
use ksg_canbus_rpi_sniffer.Emulator.CanUtils.{can_frame, can_send_frame}
use ksg_canbus_rpi_sniffer.Emulator.CarSystem.{
  CarState, handle_obd_request, obd_value, respond, answer_two,
}
use ksg_canbus_rpi_sniffer.Emulator.Broadcast.{encode_rpm, two_bytes}
use ksg_canbus_rpi_sniffer.Emulator.CarComputer.{
  CarComputer, Reading, on_data_received, process_can_frame, note_frame, answer_request, switch,
  plain_answer, response, warmed, burned,
}

-- Frames that reach the car computer one after the other, each with its readings.
unfoldable pub feed :
    (f : Floats) → List (List ℕ × Reading) → CarComputer f.Double → CarComputer f.Double
feed f [] c = c
feed f ((bytes, r) ∷ rest) c = feed f rest (on_data_received f bytes r c).0

-- No frame of a list has the id of the engine speed.
abbrev pub NoRpm : List (List ℕ × Reading) → Type 0
NoRpm [] = Unit
NoRpm ((bytes, r) ∷ rest) = ((frame_id bytes == 0x100) ≡ false) × NoRpm rest

module _ (f : Floats) where
  -- Only a frame with id 0x100 changes the noted engine speed.
  current_rpm-on_data_received :
      (bytes : List ℕ) (r : Reading) (c : CarComputer f.Double)
      → (frame_id bytes == 0x100) ≡ false
      → (on_data_received f bytes r c).0.current_rpm ≡ c.current_rpm
  unfolding on_data_received process_can_frame note_frame answer_request switch warmed burned
  current_rpm-on_data_received bytes r c h = ground arith

  current_rpm-feed :
      (frames : List (List ℕ × Reading)) (c : CarComputer f.Double)
      → NoRpm frames
      → (feed f frames c).current_rpm ≡ c.current_rpm
  unfolding feed
  current_rpm-feed [] c h = refl
  current_rpm-feed ((bytes, r) ∷ rest) c (h, hs) =
      current_rpm-feed rest (on_data_received f bytes r c).0 hs
      ∙ current_rpm-on_data_received bytes r c h

  -- The frame of the engine speed is noted as a quarter of its 16 bits.
  rpm_noted :
      (high low : ℕ) (r : Reading) (c : CarComputer f.Double)
      → (on_data_received f (can_send_frame 0x100 (high ∷ low ∷ []) 2) r c).0.current_rpm
        ≡ f.div (f.of_nat (high * 256 + low)) (f.literal 40 1)
  unfolding on_data_received process_can_frame note_frame can_send_frame can_frame frame_id
      frame_dlc frame_data field fit
  rpm_noted high low r c = refl

  rpm_asked :
      (r : Reading) (c : CarComputer f.Double)
      → (on_data_received f (can_send_frame 0x7df (2 ∷ 1 ∷ 0x0c ∷ []) 8) r c).1
        ≡ can_frame 0x7e8 8 (answer_two 0x0c (f.to_int (f.mul c.current_rpm (f.literal 4 0)))) ∷ []
  unfolding on_data_received process_can_frame note_frame can_send_frame can_frame frame_id
      frame_dlc frame_data field answer_request switch plain_answer response fit
  rpm_asked r c = refl

  rpm_told :
      (s : CarState f.Double)
      → handle_obd_request f (2 ∷ 1 ∷ 0x0c ∷ []) 3 s
        ≡ can_frame 0x7e8 8 (answer_two 0x0c (f.to_uint16 (f.mul s.rpm (f.literal 4 0)))) ∷ []
  unfolding handle_obd_request obd_value respond can_send_frame
  rpm_told s = refl

  -- With doubles that are exact on small integers: after the car system's frame of its engine speed, and
  -- any frames with other ids, the car computer answers the request for the engine speed by the frame
  -- by which the car system itself would have answered it.
  pub rpm_agrees :
      (s : CarState f.Double) (c : CarComputer f.Double) (r asked : Reading)
      (between : List (List ℕ × Reading))
      → IsExact f
      → NoRpm between
      → (on_data_received f
          (can_send_frame 0x7df (2 ∷ 1 ∷ 0x0c ∷ []) 8)
          asked
          (feed f ((can_send_frame 0x100 (encode_rpm f s.rpm) 2, r) ∷ between) c)).1
        ≡ handle_obd_request f (2 ∷ 1 ∷ 0x0c ∷ []) 3 s
  unfolding feed encode_rpm
  rpm_agrees s c r asked between exact others =
      let v = f.to_uint16 (f.mul s.rpm (f.literal 4 0)) in
      let small = exact.to_uint16_small (f.mul s.rpm (f.literal 4 0)) in
      let whole : v / 256 % 256 * 256 + v % 256 ≡ v = omega arith in
      let first = (on_data_received f (can_send_frame 0x100 (two_bytes v) 2) r c).0 in
      let noted =
        current_rpm-feed between first others
        ∙ rpm_noted (v / 256 % 256) (v % 256) r c
        ∙ ap (λ n. f.div (f.of_nat n) (f.literal 40 1)) whole in
      rpm_asked asked (feed f between first)
      ∙ ap (λ x. can_frame 0x7e8 8 (answer_two 0x0c (f.to_int x)) ∷ [])
          (ap (λ x. f.mul x (f.literal 4 0)) noted ∙ exact.quarters v small)
      ∙ ap (λ n. can_frame 0x7e8 8 (answer_two 0x0c n) ∷ []) (exact.to_int-of_nat v small)
      ∙ sym (rpm_told s)
