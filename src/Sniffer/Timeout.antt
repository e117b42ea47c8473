-- ===== src/Sniffer/Timeout.antt =====
-- Sniffer::watchdogLoop against the other handlers: a client that went silent does not keep the
-- logging on. Every handler is one step here; Race is about the interleavings inside the watchdog's.
use ksg_canbus_rpi_sniffer.Prelude.{
  if-true, if-false, if-either, ap, ◌∙◌, lt→ltb, ◌||◌, ◌==◌, [], subst, ◌<◌, ℕ, ◌≡◌, refl, inl, inr,
  Bool, true, false, Bool-cases, some, List,
}
use ksg_canbus_rpi_sniffer.Filter.Rule.{CanFilterRule, Source}
use ksg_canbus_rpi_sniffer.Protocol.Message.{
  cmd_canbus_data, cmd_canbus_to_system, cmd_canbus_to_car, cmd_logging_on, cmd_logging_off,
  cmd_set_filters, cmd_set_params, cmd_keep_alive_to_sniffer, cmd_get_params_req,
}
use ksg_canbus_rpi_sniffer.Sniffer.State.{Sniffer, Effect, start, stop, set_system_callback}
use ksg_canbus_rpi_sniffer.Sniffer.Frames.{handle_can_data}
use ksg_canbus_rpi_sniffer.Sniffer.Commands.{dispatch, on_command_received}
use ksg_canbus_rpi_sniffer.Sniffer.Watchdog.{
  elapsed_ms, time_out_detected, reset_to_default, mark_disconnected, watchdog_round,
}
use ksg_canbus_rpi_sniffer.Sniffer.KeepAlive.{same_logging, set_logging_state_lem}
use ksg_canbus_rpi_sniffer.Sniffer.Served.{
  Served, ServedAfter, ServedResult, constructed, watchdog_round-Served, handle_can_data-Served,
  set_logging_state-Served, keep_alive-Served,
}

pub time_out_detected-late :
    (now : ℕ) (s : Sniffer)
    → s.external_service_connected ≡ true
    → 1500 < elapsed_ms now s.last_external_msg_time
    → time_out_detected now s ≡ true
unfolding time_out_detected elapsed_ms
time_out_detected-late now s on late = if-true s.external_service_connected _ _ on ∙ lt→ltb _ _ late

pub time_out_detected-off :
    (now : ℕ) (s : Sniffer) → s.external_service_connected ≡ false → time_out_detected now s ≡ false
unfolding time_out_detected
time_out_detected-off now s off = rw off

pub round_timeout :
    (now : ℕ) (s : Sniffer)
    → s.running ≡ true
    → time_out_detected now s ≡ true
    → (watchdog_round now s).0
      ≡ record s { external_service_logging = false; external_service_connected = false }
unfolding watchdog_round reset_to_default mark_disconnected
round_timeout now s up late =
    ap (λ (r : Sniffer × List Effect). r.0)
      (if-true s.running _ _ up ∙ if-true (time_out_detected now s) _ _ late)
    ∙ ap (λ (r : Sniffer × List Effect). mark_disconnected r.0) (set_logging_state_lem false s)

pub round_idle :
    (now : ℕ) (s : Sniffer)
    → s.running ≡ true
    → time_out_detected now s ≡ false
    → watchdog_round now s ≡ (s, [])
unfolding watchdog_round
round_idle now s up early = if-true s.running _ _ up ∙ if-false (time_out_detected now s) _ _ early

unserved :
    (s : Sniffer)
    → Served s
    → s.external_service_connected ≡ false
    → s.external_service_logging ≡ false
unfolding Served
unserved s h off = elim (Bool-cases s.external_service_logging) [
  | inl on ↦ absurd (cc (h on, off))
  | inr e ↦ e
]

late_round :
    (now : ℕ) (s : Sniffer)
    → Served s
    → s.running ≡ true
    → 1500 < elapsed_ms now s.last_external_msg_time
    → (watchdog_round now s).0
      ≡ record s { external_service_logging = false; external_service_connected = false }
late_round now s h up late = elim (Bool-cases s.external_service_connected) [
  | inl on ↦ round_timeout now s up (time_out_detected-late now s on late)
  | inr off ↦
      ap (λ (r : Sniffer × List Effect). r.0)
        (round_idle now s up (time_out_detected-off now s off))
      ∙ same_logging false s (unserved s h off)
      ∙ ap (λ b. record s { external_service_logging = false; external_service_connected = b }) off
]

module _ (sort : List CanFilterRule → List CanFilterRule) where
  -- One call of a handler, by whichever thread.
  pub data Step : Sniffer → Sniffer → Type 0 where
    commanded :
        (command : ℕ) (bytes : List ℕ) (now time : ℕ) (status : List ℕ) {s : Sniffer}
        → Step s (on_command_received sort command bytes now time status s).0
    framed :
        (source : Source) (bytes : List ℕ) (now time : ℕ) (stack : List ℕ) {effects : List Effect}
        {s s' : Sniffer}
        → handle_can_data source bytes now time stack s ≡ some (s', effects)
        → Step s s'
    watched : (now : ℕ) {s : Sniffer} → Step s (watchdog_round now s).0
    started : (external_started : Bool) {s : Sniffer} → Step s (start external_started s).1
    stopped : {s : Sniffer} → Step s (stop s).0
    callback : (present : Bool) {s : Sniffer} → Step s (set_system_callback present s)

  pub data Reach : Sniffer → Type 0 where
    begin : (now : ℕ) → Reach (constructed now)
    after : {s s' : Sniffer} → Reach s → Step s s' → Reach s'

  dispatch-Served :
      (command : ℕ) (bytes : List ℕ) (time : ℕ) (status : List ℕ) (s : Sniffer)
      → s.external_service_connected ≡ true
      → ServedAfter (dispatch sort command bytes time status s)
  unfolding dispatch ServedAfter Served
  dispatch-Served command bytes time status s h =
      if-either ServedAfter (command == cmd_set_filters) _ _ (λ e on. h)
        λ e.
          if-either ServedAfter (command == cmd_canbus_to_system) _ _ (λ e on. h)
            λ e.
              if-either ServedAfter (command == cmd_canbus_to_car) _ _ (λ e on. h)
                λ e.
                  if-either ServedAfter (command == cmd_keep_alive_to_sniffer) _ _
                    (λ e. keep_alive-Served bytes time status s h)
                    λ e.
                      if-either ServedAfter (command == cmd_canbus_data) _ _ (λ e on. h)
                        λ e.
                          if-either ServedAfter (command == cmd_logging_on) _ _
                            (λ e. set_logging_state-Served true s h)
                            λ e.
                              if-either ServedAfter (command == cmd_logging_off) _ _
                                (λ e. set_logging_state-Served false s h)
                                λ e.
                                  if-either ServedAfter
                                    (command == cmd_set_params || command == cmd_get_params_req) _ _
                                    (λ e on. h) (λ e on. h)

  on_command_received-Served :
      (command : ℕ) (bytes : List ℕ) (now time : ℕ) (status : List ℕ) (s : Sniffer)
      → Served s
      → ServedAfter (on_command_received sort command bytes now time status s)
  unfolding on_command_received ServedAfter
  on_command_received-Served command bytes now time status s h =
      if-either ServedAfter s.running _ _
        (λ up.
          dispatch-Served command bytes time status
            (record s { external_service_connected = true; last_external_msg_time = now }) refl)
        (λ down. h)

  StartServed : Bool × Sniffer × List Effect → Type 0
  StartServed (ok, s, effects) = Served s

  start-Served :
      (external_started : Bool) (s : Sniffer) → Served s → StartServed (start external_started s)
  unfolding start StartServed Served
  start-Served external_started s h = if-either StartServed s.running _ _ (λ up. h) (λ down. h)

  stop-Served : (s : Sniffer) → Served s → ServedAfter (stop s)
  unfolding stop ServedAfter Served
  stop-Served s h = if-either ServedAfter s.running _ _ (λ up. h) (λ down. h)

  Step-Served : {s s' : Sniffer} → Step s s' → Served s → Served s'
  unfolding ServedAfter ServedResult StartServed set_system_callback Served
  Step-Served (commanded command bytes now time status {s}) h =
      on_command_received-Served command bytes now time status s h
  Step-Served (framed source bytes now time stack {s = s} e) h =
      subst ServedResult e (handle_can_data-Served source bytes now time stack s h)
  Step-Served (watched now {s}) h = watchdog_round-Served now s h
  Step-Served (started ok {s}) h = start-Served ok s h
  Step-Served (stopped {s}) h = stop-Served s h
  Step-Served (callback present {s}) h = h

  Reach-Served : {s : Sniffer} → Reach s → Served s
  unfolding Served constructed
  Reach-Served (begin now) = λ on. absurd (cc on)
  Reach-Served (after r step) = Step-Served step (Reach-Served r)

  -- In every state that calls of the handlers reach from a new sniffer, whole handler by whole handler,
  -- a round of the watchdog that finds the client silent for more than 1500 milliseconds leaves the
  -- sniffer with logging off and the client disconnected, and changes nothing else: the filter
  -- keeps its rules.
  pub watchdog_round-late :
      {s : Sniffer} (now : ℕ)
      → Reach s
      → s.running ≡ true
      → 1500 < elapsed_ms now s.last_external_msg_time
      → (watchdog_round now s).0
        ≡ record s { external_service_logging = false; external_service_connected = false }
  watchdog_round-late {s} now r up late = late_round now s (Reach-Served r) up late
