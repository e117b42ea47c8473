-- ===== src/Sniffer/Commands.antt =====
-- Sniffer::onCommandReceived and Sniffer::sendSystemResponse.
use ksg_canbus_rpi_sniffer.Prelude.{
  ℕ, ◌/◌, Bool, true, false, not, ◌||◌, List, [], ◌∷◌, ◌++◌, leb, ◌==◌, if◌then◌else◌, get_or,
  length, take, replicate,
}
use ksg_canbus_rpi_sniffer.Filter.Rule.{CanFilterRule, sizeof_rule}
use ksg_canbus_rpi_sniffer.Filter.Engine.{load_rules}
use ksg_canbus_rpi_sniffer.Protocol.Message.{
  header, data_capacity, cmd_canbus_data, cmd_canbus_to_system, cmd_canbus_to_car, cmd_logging_on,
  cmd_logging_off, cmd_set_filters, cmd_set_params, cmd_keep_alive_to_sniffer, cmd_get_params_req,
  cmd_keep_alive_from_sniffer,
}
use ksg_canbus_rpi_sniffer.Sniffer.State.{
  Sniffer, Effect, send_system, send_computer, send_external, update_status, system_command,
  decimal, bool_eq, set_logging_state,
}
use ksg_canbus_rpi_sniffer.Sniffer.Frames.{copy_len}

-- sizeof(KeepAliveToSnifferPayload) and sizeof(KeepAliveFromSnifferPayload).
abbrev pub sizeof_keep_alive : ℕ
sizeof_keep_alive = 32

abbrev pub sizeof_keep_alive_response : ℕ
sizeof_keep_alive_response = 1056

-- The response to a keep-alive; `status` is the 1024-byte text that StatusManager filled in.
unfoldable pub keep_alive_response : Bool → ℕ → List ℕ → List ℕ
keep_alive_response logging time status =
    header cmd_keep_alive_from_sniffer time sizeof_keep_alive_response
      ((if logging then 1 else 0) ∷ (status ++ replicate 31 0))

-- The logging state that a keep-alive asks for, and the call that synchronises it.
unfoldable pub requested : List ℕ → Bool
requested bytes = not (get_or bytes 0 0 == 0)

unfoldable pub sync_logging : Bool → Sniffer → Sniffer × List Effect
sync_logging enable s =
    if bool_eq enable s.external_service_logging then (s, []) else set_logging_state enable s

unfoldable pub keep_alive : List ℕ → ℕ → List ℕ → Sniffer → Sniffer × List Effect
keep_alive bytes time status s =
    if leb sizeof_keep_alive (length bytes)
    then (let (s', synced) = sync_logging (requested bytes) s in
        (
          s',
          synced
              ++ (send_external (keep_alive_response s'.external_service_logging time status) ∷ []),
        ))
    else (s, [])

module _ (sort : List CanFilterRule → List CanFilterRule) where
  -- The chain of tests on the command id.
  unfoldable pub dispatch : ℕ → List ℕ → ℕ → List ℕ → Sniffer → Sniffer × List Effect
  dispatch command bytes time status s =
      if command == cmd_set_filters
      then (
        record s { engine = load_rules sort bytes },
        update_status "Filter Rules [Setting]" (decimal (length bytes / sizeof_rule)) ∷ [],
      )
      else if command == cmd_canbus_to_system
      then (s, send_system bytes ∷ [])
      else if command == cmd_canbus_to_car
      then (s, send_computer bytes ∷ [])
      else if command == cmd_keep_alive_to_sniffer
      then keep_alive bytes time status s
      else if command == cmd_canbus_data
      then (s, [])
      else if command == cmd_logging_on
      then set_logging_state true s
      else if command == cmd_logging_off
      then set_logging_state false s
      else if command == cmd_set_params || command == cmd_get_params_req
      then (s, if s.has_system_callback then system_command command bytes ∷ [] else [])
      else (s, [])

  unfoldable pub on_command_received : ℕ → List ℕ → ℕ → ℕ → List ℕ → Sniffer → Sniffer × List Effect
  on_command_received command bytes now time status s =
      if s.running
      then dispatch command bytes time status
          (record s { external_service_connected = true; last_external_msg_time = now })
      else (s, [])

-- Sniffer::sendSystemResponse
unfoldable pub send_system_response : ℕ → List ℕ → ℕ → List Effect
send_system_response command bytes time =
    let n = copy_len (length bytes) data_capacity in
    send_external (header command time n (take n bytes)) ∷ []
