-- ===== src/Emulator/Answers.antt =====
-- The form of the car computer's answers, whatever the doubles compute.
use ksg_canbus_rpi_sniffer.Prelude.{
  ℕ, ◌≡◌, ◌⊎◌, refl, Bool, true, ◌||◌, Option, none, some, List, [], ◌∷◌, ◌==◌, if-either, get_or,
  length, leb, ltb, ◌&&◌, arith, inl, inr,
}
use ksg_canbus_rpi_sniffer.Sniffer.Frames.{frame_id, frame_dlc, frame_data}
use ksg_canbus_rpi_sniffer.Emulator.Floats.{Floats}
use ksg_canbus_rpi_sniffer.Emulator.CanUtils.{can_frame, sizeof_can_frame}
use ksg_canbus_rpi_sniffer.Emulator.CarSystem.{answer_one, answer_two}
use ksg_canbus_rpi_sniffer.Emulator.CarComputer.{
  CarComputer, Reading, on_data_received, process_can_frame, note_frame, answer_request, switch,
  plain_answer, response,
}

-- Eight bytes that name the PID they answer, behind the mode 0x41 and a length of three or four.
abbrev pub IsAnswer : ℕ → List ℕ → Type 0
IsAnswer pid bytes =
    (length bytes ≡ 8)
    × (get_or bytes 1 0 ≡ 0x41)
    × (get_or bytes 2 0 ≡ pid)
    × ((get_or bytes 0 0 ≡ 3) ⊎ (get_or bytes 0 0 ≡ 4))

abbrev Answered : ℕ → Option (List ℕ) → Type 0
Answered pid none = Unit
Answered pid (some bytes) = IsAnswer pid bytes

module _ (f : Floats) where
  plain_answer-Answered :
      (pid : ℕ) (r : Reading) (c : CarComputer f.Double) → Answered pid (plain_answer f pid r c)
  unfolding plain_answer answer_one answer_two
  plain_answer-Answered pid r c = ground arith

  switch-Answered :
      (pid : ℕ) (r : Reading) (c : CarComputer f.Double) → Answered pid (switch f pid r c).0
  unfolding switch answer_one answer_two
  switch-Answered pid r c = ground (arith, plain_answer-Answered pid r c)

  -- Nothing, or one frame with an answer.
  abbrev Sends : ℕ → List (List ℕ) → Type 0
  Sends pid frames =
      (frames ≡ [])
      ⊎ ((bytes : List ℕ) × IsAnswer pid bytes × (frames ≡ can_frame 0x7e8 8 bytes ∷ []))

  response-Sends :
      (pid : ℕ) (answer : Option (List ℕ)) → Answered pid answer → Sends pid (response f answer)
  unfolding response
  response-Sends pid none h = inl refl
  response-Sends pid (some bytes) h = inr (bytes, h, refl)

  answer_request-Sends :
      (bytes : List ℕ) (len : ℕ) (r : Reading) (c : CarComputer f.Double)
      → Sends (get_or bytes 2 0) (answer_request f bytes len r c).1
  unfolding answer_request
  answer_request-Sends bytes len r c =
      if-either (λ (x : CarComputer f.Double × List (List ℕ)). Sends (get_or bytes 2 0) x.1)
        (leb 3 len && get_or bytes 1 0 == 0x01) _ _
        (λ service.
          response-Sends (get_or bytes 2 0) (switch f (get_or bytes 2 0) r c).0
            (switch-Answered (get_or bytes 2 0) r c))
        (λ other. inl refl)

  -- The same, with the test of the id that a sending implies.
  abbrev Requested : Bool → ℕ → CarComputer f.Double × List (List ℕ) → Type 0
  Requested asked pid x =
      (x.1 ≡ [])
      ⊎ ((bytes : List ℕ) × IsAnswer pid bytes
          × (x.1 ≡ can_frame 0x7e8 8 bytes ∷ [])
          × (asked ≡ true))

  Requested-by :
      (asked : Bool) (pid : ℕ) (x : CarComputer f.Double × List (List ℕ))
      → asked ≡ true
      → Sends pid x.1
      → Requested asked pid x
  Requested-by asked pid x h (inl nothing) = inl nothing
  Requested-by asked pid x h (inr (bytes, answer, e)) = inr (bytes, answer, e, h)

  -- Whatever frame reaches the car computer: it sends nothing, or the frame has one of the two
  -- request ids and it sends one frame with id 0x7E8 and eight data bytes: a length of three or four,
  -- the mode 0x41, and the PID that was asked for, before the value.
  pub answers_form :
      (bytes : List ℕ) (r : Reading) (c : CarComputer f.Double)
      → ((on_data_received f bytes r c).1 ≡ [])
        ⊎ ((answer : List ℕ) × IsAnswer (get_or (frame_data bytes) 2 0) answer
            × ((on_data_received f bytes r c).1 ≡ can_frame 0x7e8 8 answer ∷ [])
            × ((frame_id bytes == 0x7df || frame_id bytes == 0x7e0) ≡ true))
  unfolding on_data_received process_can_frame
  answers_form bytes r c =
      let asked = frame_id bytes == 0x7df || frame_id bytes == 0x7e0 in
      let pid = get_or (frame_data bytes) 2 0 in
      let noted = note_frame f (frame_id bytes) (frame_data bytes) (frame_dlc bytes) c in
      if-either (Requested asked pid) (ltb (length bytes) sizeof_can_frame) _ _ (λ short. inl refl)
        (λ whole.
          if-either (Requested asked pid) asked _ _
            (λ request.
              Requested-by asked pid (answer_request f (frame_data bytes) (frame_dlc bytes) r noted)
                request (answer_request-Sends (frame_data bytes) (frame_dlc bytes) r noted))
            (λ other. inl refl))
