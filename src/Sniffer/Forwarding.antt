-- ===== src/Sniffer/Forwarding.antt =====
-- From a payload of CMD_SET_FILTERS to the buses: Sniffer::onCommandReceived, then
-- Sniffer::handleCanData.
use mathlib.Core.List.{Mem}
use ksg_canbus_rpi_sniffer.Prelude.{
  ℕ, ◌≤◌, ◌<◌, ◌≡◌, ap, ◌∙◌, inl, inr, Bool, true, false, some, List, [], ◌++◌, if◌then◌else◌,
  length, length-drop, arith,
}
use ksg_canbus_rpi_sniffer.Filter.Rule.{
  CanFilterRule, Source, car_system, car_computer, external, Verdict, act,
}
use ksg_canbus_rpi_sniffer.Filter.Engine.{masked_id, load_rules, process}
use ksg_canbus_rpi_sniffer.Filter.Spec.{rule_id, applies, IsSort}
use ksg_canbus_rpi_sniffer.Filter.Order.{loaded, Decided, process-Decided, count-loaded-lt}
use ksg_canbus_rpi_sniffer.Protocol.Message.{cmd_set_filters}
use ksg_canbus_rpi_sniffer.Sniffer.State.{Sniffer}
use ksg_canbus_rpi_sniffer.Sniffer.Frames.{
  local_buffer, frame_id, frame_dlc, frame_data, log_command, after_filter, filter_frame,
  handle_can_data,
}
use ksg_canbus_rpi_sniffer.Sniffer.Commands.{dispatch, on_command_received}
use ksg_canbus_rpi_sniffer.Sniffer.Buffers.{
  is_bus, across, logged, length-local_buffer, after_filter-unchanged,
}

pub handle_bus :
    (source : Source) (bytes : List ℕ) (now time : ℕ) (stack : List ℕ) (s : Sniffer)
    → is_bus source ≡ true
    → s.running ≡ true
    → handle_can_data source bytes now time stack s ≡ filter_frame s source bytes time stack
unfolding handle_can_data
handle_bus car_system bytes now time stack s bus running = rw running
handle_bus car_computer bytes now time stack s bus running = rw running
handle_bus external bytes now time stack s bus running = absurd (cc bus)

act-drop :
    (r : CanFilterRule) (bytes : List ℕ) (len : ℕ)
    → r.action_type ≡ 1
    → act r bytes len ≡ (false, bytes)
unfolding act
act-drop r bytes len h = rw h

module _ (sort : List CanFilterRule → List CanFilterRule) (contract : IsSort sort)
    (payload : List ℕ) (few : length payload < 6400) (s : Sniffer) (running : s.running ≡ true)
    (now time : ℕ) (status : List ℕ) where
  -- The sniffer after CMD_SET_FILTERS with the payload.
  abbrev pub armed : Sniffer
  armed = (on_command_received sort cmd_set_filters payload now time status s).0

  armed_lem : armed ≡ record s {
    external_service_connected = true;
    last_external_msg_time = now;
    engine = load_rules sort payload;
  }
  unfolding on_command_received dispatch
  armed_lem = rw running

  module _ (source : Source) (bus : is_bus source ≡ true) (bytes stack : List ℕ)
      (short : length bytes ≤ 72) (whole : length stack ≡ 72)
      (dlc_fits : frame_dlc (local_buffer bytes stack) ≤ 64) (later stamp : ℕ) where
    abbrev pub id : ℕ
    id = masked_id (frame_id (local_buffer bytes stack))

    abbrev pub payload_data : List ℕ
    payload_data = frame_data (local_buffer bytes stack)

    abbrev pub dlc : ℕ
    dlc = frame_dlc (local_buffer bytes stack)

    pub data_inside : dlc ≤ length payload_data
    unfolding frame_data
    data_inside = omega (
      arith,
      dlc_fits,
      length-drop 8 (local_buffer bytes stack),
      length-local_buffer bytes stack short whole,
    )

    armed-running : armed.running ≡ true
    armed-running = rw armed_lem running

    armed-engine : armed.engine ≡ load_rules sort payload
    armed-engine = rw armed_lem

    pub armed-logging : armed.external_service_logging ≡ s.external_service_logging
    armed-logging = rw armed_lem

    pub decided :
        (v : Verdict) × (process
            (load_rules sort payload)
            (frame_id (local_buffer bytes stack))
            payload_data
            dlc
            source
          ≡ some v)
        × Decided (loaded payload) id payload_data dlc source v
    decided =
        process-Decided sort contract payload (frame_id (local_buffer bytes stack)) payload_data dlc
          source data_inside (count-loaded-lt id payload few)

    -- The frame is treated as the filter's verdict says.
    pub handle-decided :
        handle_can_data source bytes later stamp stack armed
        ≡ after_filter armed source bytes stamp (local_buffer bytes stack) (some decided.0)
    unfolding filter_frame
    handle-decided =
        handle_bus source bytes later stamp stack armed bus armed-running
        ∙ ap
            (λ g.
              after_filter armed source bytes stamp (local_buffer bytes stack)
                (process g (frame_id (local_buffer bytes stack)) payload_data dlc source))
            armed-engine
        ∙ ap (after_filter armed source bytes stamp (local_buffer bytes stack)) decided.1

    handle-armed :
        (forwarded : Bool)
        → decided.0 ≡ (forwarded, payload_data)
        → handle_can_data source bytes later stamp stack armed
          ≡ some (
            armed,
            (if forwarded then across source bytes else [])
                ++ logged s.external_service_logging (log_command source forwarded) stamp bytes,
          )
    handle-armed forwarded e =
        handle-decided
        ∙ ap (λ v. after_filter armed source bytes stamp (local_buffer bytes stack) (some v)) e
        ∙ after_filter-unchanged bytes stack short armed source stamp forwarded
        ∙ ap
            (λ on. some (
              armed,
              (if forwarded then across source bytes else [])
                  ++ logged on (log_command source forwarded) stamp bytes,
            ))
            armed-logging

    -- A frame that no rule of the payload applies to goes to the other bus byte for byte, and with
    -- logging on is reported, whole, as a message from its bus; nothing else is sent.
    pub pass_untouched :
        ((r : CanFilterRule)
          → Mem r (loaded payload)
          → rule_id r ≡ id
          → applies r payload_data dlc source ≡ false)
        → handle_can_data source bytes later stamp stack armed
          ≡ some (
            armed,
            across source bytes
                ++ logged s.external_service_logging (log_command source true) stamp bytes,
          )
    pass_untouched none_applies = elim decided.2 [
      | inl (r, m, e, a, o) ↦ absurd (cc (a, none_applies r m e))
      | inr (no_rule, o) ↦ handle-armed true o
    ]

    -- A frame that some rule of the payload applies to, where every rule that does says DROP, reaches
    -- no bus; with logging on it is reported, whole, as a blocked message.
    pub drop_blocks :
        (r : CanFilterRule)
        → Mem r (loaded payload)
        → rule_id r ≡ id
        → applies r payload_data dlc source ≡ true
        → ((q : CanFilterRule)
            → Mem q (loaded payload)
            → rule_id q ≡ id
            → applies q payload_data dlc source ≡ true
            → q.action_type ≡ 1)
        → handle_can_data source bytes later stamp stack armed
          ≡ some (armed, logged s.external_service_logging (log_command source false) stamp bytes)
    drop_blocks r m e a all_drop = elim decided.2 [
      | inl (q, n, f, b, o) ↦
          handle-armed false (o ∙ act-drop q payload_data dlc (all_drop q n f b))
      | inr (no_rule, o) ↦ absurd (cc (a, no_rule r m e))
    ]
