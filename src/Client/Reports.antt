-- ===== src/Client/Reports.antt =====
-- A frame that the sniffer reports, on the client's side of the wire.
use ksg_canbus_rpi_sniffer.Prelude.{
  ℕ, ◌^◌, ◌≤◌, ◌<◌, ◌≡◌, refl, ap, ◌∙◌, Bool, true, false, some, List, [], ◌∷◌, ◌++◌, ◌==◌, ltb,
  leb, le→leb, if◌then◌else◌, if-true, if-false, none, sym, lt→ltb, length, length-take, take,
  arith,
}
use ksg_canbus_rpi_sniffer.Filter.Rule.{Source, car_system, car_computer, external}
use ksg_canbus_rpi_sniffer.Protocol.Message.{
  header, delivered, on_command, cmd_canbus_data, cmd_keep_alive_from_sniffer,
}
use ksg_canbus_rpi_sniffer.Protocol.Udp.{process_packet, received}
use ksg_canbus_rpi_sniffer.Protocol.RoundTrip.{header_arrives}
use ksg_canbus_rpi_sniffer.Sniffer.State.{send_external}
use ksg_canbus_rpi_sniffer.Sniffer.Frames.{copy_len, log_command, log}
use ksg_canbus_rpi_sniffer.Sniffer.Buffers.{is_bus}
use ksg_canbus_rpi_sniffer.Client.Receive.{
  Client, is_report, queued, update_last_recv_time, receive_command,
}

-- A bus's log command is a 32-bit number, no frame for the target listener, and a report.
log_command-is_report :
    (source : Source) (forwarded : Bool)
    → is_bus source ≡ true
    → (log_command source forwarded < 2 ^ 32)
      × ((log_command source forwarded == cmd_canbus_data) ≡ false)
      × ((log_command source forwarded == cmd_keep_alive_from_sniffer) ≡ false)
      × (is_report (log_command source forwarded) ≡ true)
unfolding log_command is_report
log_command-is_report car_system true h = (omega arith, refl, refl, refl)
log_command-is_report car_system false h = (omega arith, refl, refl, refl)
log_command-is_report car_computer true h = (omega arith, refl, refl, refl)
log_command-is_report car_computer false h = (omega arith, refl, refl, refl)
log_command-is_report external forwarded h = absurd (cc h)

copied :
    (source : Source) (forwarded : Bool) (time size : ℕ) (buffer : List ℕ)
    → size ≤ 72
    → log true source forwarded time size buffer
      ≡ some
          (send_external (header (log_command source forwarded) time size (take size buffer)) ∷ [])
unfolding log copy_len
copied source forwarded time size buffer h =
    let whole : copy_len size 64000 ≡ size =
      if-true (ltb size 64000) _ _ (lt→ltb size 64000 (omega (arith, h))) in
    ap
      (λ n.
        if leb n 72
        then some
            (send_external (header (log_command source forwarded) time n (take n buffer)) ∷ [])
        else none)
      whole
    ∙ if-true (leb size 72) _ _ (le→leb size 72 h)

queue-report :
    (command time now : ℕ) (bytes : List ℕ) (c : Client)
    → (command == cmd_keep_alive_from_sniffer) ≡ false
    → is_report command ≡ true
    → length bytes ≤ 72
    → (receive_command command time bytes now c).queue
      ≡ c.queue ++ (record { command = command; time_ms = time; bytes = bytes } ∷ [])
unfolding receive_command queued update_last_recv_time
queue-report command time now bytes c other report short =
    ap (λ (r : Client). r.queue)
      (if-false (command == cmd_keep_alive_from_sniffer) _ _ other
        ∙ if-true (is_report command) _ _ report)
    ∙ ap (λ kept. c.queue ++ (record { command = command; time_ms = time; bytes = kept } ∷ []))
        (if-true (leb (length bytes) 64000) _ _
          (le→leb (length bytes) 64000 (omega (arith, short))))

-- A frame of at most 72 bytes from a bus, reported by the sniffer with a 64-bit time and read by the client
-- as one datagram:
-- the client's listener gets one command, and its queue grows at its end by one message with the id
-- for the bus and the verdict, the sniffer's time, and the frame's bytes.
pub report_arrives :
    (source : Source) (forwarded : Bool) (time now size : ℕ) (buffer stale : List ℕ) (c : Client)
    → is_bus source ≡ true
    → size ≤ 72
    → length buffer ≡ 72
    → time < 2 ^ 64
    → (message : List ℕ) × (log true source forwarded time size buffer
        ≡ some (send_external message ∷ []))
      × (process_packet true (received message ++ stale) (length (received message))
          ≡ delivered (on_command (log_command source forwarded) time (take size buffer) ∷ []))
      × ((receive_command (log_command source forwarded) time (take size buffer) now c).queue
          ≡ c.queue
            ++ (record {
              command = log_command source forwarded;
              time_ms = time;
              bytes = take size buffer;
            }
                ∷ []))
report_arrives source forwarded time now size buffer stale c bus short full in_double =
    let (in_word, no_frame, other, report) = log_command-is_report source forwarded bus in
    let command = log_command source forwarded in
    let payload = take size buffer in
    let kept : length payload ≡ size = omega (arith, length-take size buffer, short, full) in
    (
      header command time (length payload) payload,
      copied source forwarded time size buffer short
          ∙ ap (λ n. some (send_external (header command time n payload) ∷ [])) (sym kept),
      header_arrives command time payload stale in_word in_double (omega (arith, kept, short))
          ∙ ap (λ rest. delivered (on_command command time payload ∷ rest))
              (if-false (command == cmd_canbus_data) _ _ no_frame),
      queue-report command time now payload c other report (omega (arith, kept, short)),
    )
