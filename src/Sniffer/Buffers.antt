-- ===== src/Sniffer/Buffers.antt =====
-- A frame that fits the local buffer of Sniffer::handleCanData and that the filter leaves as it is.
use ksg_canbus_rpi_sniffer.Prelude.{
  ℕ, ◌≤◌, ◌≡◌, refl, Bool, true, false, some, List, [], ◌∷◌, ◌++◌, if◌then◌else◌, length, take,
  drop, take-all, take-append_left, take-append-drop, length-append, length-drop, le→leb, arith,
}
use ksg_canbus_rpi_sniffer.Filter.Rule.{Source, car_system, car_computer, external}
use ksg_canbus_rpi_sniffer.Protocol.Message.{header}
use ksg_canbus_rpi_sniffer.Sniffer.State.{
  Sniffer, Effect, send_system, send_computer, send_external,
}
use ksg_canbus_rpi_sniffer.Sniffer.Frames.{
  copy_len, local_buffer, frame_data, with_data, forward, log_command, log, after_filter,
}

abbrev pub is_bus : Source → Bool
is_bus external = false
is_bus _ = true

-- What reaches the bus across, and what reaches the external server while logging is on.
abbrev pub across : Source → List ℕ → List Effect
across car_system bytes = send_computer bytes ∷ []
across car_computer bytes = send_system bytes ∷ []
across external bytes = []

abbrev pub logged : Bool → ℕ → ℕ → List ℕ → List Effect
logged on command time bytes =
    if on then send_external (header command time (length bytes) bytes) ∷ [] else []

module _ (bytes stack : List ℕ) (short : length bytes ≤ 72) where
  pub copy_len-short : (size : ℕ) → 72 ≤ size → copy_len (length bytes) size ≡ length bytes
  unfolding copy_len
  copy_len-short size h = ground (arith, short)

  local_buffer-short : local_buffer bytes stack ≡ bytes ++ drop (length bytes) stack
  unfolding local_buffer
  local_buffer-short =
      rw (copy_len-short 72 (omega arith), take-all (length bytes) bytes (omega arith))

  pub take-local_buffer : take (length bytes) (local_buffer bytes stack) ≡ bytes
  take-local_buffer =
      rw local_buffer-short (take-append_left bytes (drop (length bytes) stack) (length bytes) refl)

  pub length-local_buffer : length stack ≡ 72 → length (local_buffer bytes stack) ≡ 72
  length-local_buffer h = rw local_buffer-short (
      omega (
        arith,
        short,
        length-append bytes (drop (length bytes) stack),
        length-drop (length bytes) stack,
      ))

  -- A frame with its data as they came: the bytes that go out are those that came in.
  take-unchanged :
      take
        (length bytes)
        (with_data (local_buffer bytes stack) (frame_data (local_buffer bytes stack)))
      ≡ bytes
  unfolding with_data frame_data
  take-unchanged = rw (take-append-drop 8 (local_buffer bytes stack)) take-local_buffer

  log_lem :
      (on : Bool) (source : Source) (forwarded : Bool) (time : ℕ) (buffer : List ℕ)
      → take (length bytes) buffer ≡ bytes
      → log on source forwarded time (length bytes) buffer
        ≡ some (logged on (log_command source forwarded) time bytes)
  unfolding log
  log_lem false source forwarded time buffer h = refl
  log_lem true source forwarded time buffer h =
      rw (copy_len-short 64000 (omega arith), le→leb (length bytes) 72 short, h)

  pub forward_lem :
      (source : Source) (forwarded : Bool)
      → forward source forwarded bytes ≡ (if forwarded then across source bytes else [])
  unfolding forward
  forward_lem car_system true = refl
  forward_lem car_system false = refl
  forward_lem car_computer true = refl
  forward_lem car_computer false = refl
  forward_lem external true = refl
  forward_lem external false = refl

  -- What happens to a frame that the filter leaves as it is.
  pub after_filter-unchanged :
      (s : Sniffer) (source : Source) (time : ℕ) (forwarded : Bool)
      → after_filter s source bytes time
          (local_buffer bytes stack)
          (some (forwarded, frame_data (local_buffer bytes stack)))
        ≡ some (
          s,
          (if forwarded then across source bytes else [])
              ++ logged s.external_service_logging (log_command source forwarded) time bytes,
        )
  unfolding after_filter
  after_filter-unchanged s source time forwarded = rw (
    log_lem s.external_service_logging source forwarded time
        (with_data (local_buffer bytes stack) (frame_data (local_buffer bytes stack)))
        take-unchanged,
    copy_len-short 72 (omega arith),
    take-unchanged,
    forward_lem source forwarded,
  )
