-- ===== src/Sniffer/KeepAlive.antt =====
-- The keep-alive exchange in Sniffer::onCommandReceived.
use ksg_canbus_rpi_sniffer.Prelude.{
  if-true, ℕ, ◌≤◌, ◌≡◌, refl, ap, ◌∙◌, Bool, true, false, List, [], ◌∷◌, ◌++◌, le→leb,
  if◌then◌else◌, length, Bool-cases, inl, inr,
}
use ksg_canbus_rpi_sniffer.Filter.Rule.{CanFilterRule}
use ksg_canbus_rpi_sniffer.Protocol.Message.{cmd_keep_alive_to_sniffer}
use ksg_canbus_rpi_sniffer.Sniffer.State.{
  Sniffer, send_external, update_status, text, bool_eq, set_logging_state,
}
use ksg_canbus_rpi_sniffer.Sniffer.Commands.{
  requested, sync_logging, keep_alive, keep_alive_response, dispatch, on_command_received,
}

bool_eq-true : (a b : Bool) → bool_eq a b ≡ true → a ≡ b
unfolding bool_eq
bool_eq-true true true h = refl
bool_eq-true true false h = absurd (cc h)
bool_eq-true false true h = absurd (cc h)
bool_eq-true false false h = refl

bool_eq_comm : (a b : Bool) → bool_eq a b ≡ bool_eq b a
unfolding bool_eq
bool_eq_comm true true = refl
bool_eq_comm true false = refl
bool_eq_comm false true = refl
bool_eq_comm false false = refl

-- setLoggingState leaves the flag as asked.
pub logging-set_logging_state :
    (enable : Bool) (s : Sniffer) → (set_logging_state enable s).0.external_service_logging ≡ enable
unfolding set_logging_state
logging-set_logging_state enable s = elim (Bool-cases (bool_eq s.external_service_logging enable)) [
  | inl e ↦ rw e (bool_eq-true s.external_service_logging enable e)
  | inr e ↦ rw e
]

pub same_logging :
    (enable : Bool) (s : Sniffer)
    → s.external_service_logging ≡ enable
    → s ≡ record s { external_service_logging = enable }
same_logging enable s e = ap (λ b. record s { external_service_logging = b }) e

-- setLoggingState as one record update and at most one status.
pub set_logging_state_lem :
    (enable : Bool) (s : Sniffer)
    → set_logging_state enable s ≡ (
      record s { external_service_logging = enable },
      if bool_eq s.external_service_logging enable
          then []
          else update_status "Logging Active [Setting]" (text (if enable then "ON" else "OFF"))
            ∷ [],
    )
unfolding set_logging_state
set_logging_state_lem enable s = elim (Bool-cases (bool_eq s.external_service_logging enable)) [
  | inl e ↦
      rw e (
        ap (λ t. (t, []))
          (same_logging enable s (bool_eq-true s.external_service_logging enable e)))
  | inr e ↦ rw e
]

-- The test in onCommandReceived saves a call of setLoggingState that would change nothing.
pub sync_logging_lem :
    (enable : Bool) (s : Sniffer) → sync_logging enable s ≡ set_logging_state enable s
unfolding sync_logging set_logging_state
sync_logging_lem enable s =
    rw (bool_eq_comm s.external_service_logging enable)
      (elim (Bool-cases (bool_eq enable s.external_service_logging)) [
        | inl e ↦ rw e
        | inr e ↦ rw e
      ])

pub keep_alive_lem :
    (bytes : List ℕ) (time : ℕ) (status : List ℕ) (s : Sniffer)
    → 32 ≤ length bytes
    → keep_alive bytes time status s ≡ (
      (set_logging_state (requested bytes) s).0,
      (set_logging_state (requested bytes) s).1
          ++ (send_external (keep_alive_response (requested bytes) time status) ∷ []),
    )
unfolding keep_alive
keep_alive_lem bytes time status s h = rw (
  le→leb 32 (length bytes) h,
  sync_logging_lem (requested bytes) s,
  logging-set_logging_state (requested bytes) s,
)

module _ (sort : List CanFilterRule → List CanFilterRule) where
  dispatch-keep_alive :
      (bytes : List ℕ) (time : ℕ) (status : List ℕ) (s : Sniffer)
      → 32 ≤ length bytes
      → dispatch sort cmd_keep_alive_to_sniffer bytes time status s ≡ (
        record s { external_service_logging = requested bytes },
        (if bool_eq s.external_service_logging (requested bytes)
              then []
              else update_status "Logging Active [Setting]"
                  (text (if requested bytes then "ON" else "OFF"))
                ∷ [])
            ++ (send_external (keep_alive_response (requested bytes) time status) ∷ []),
      )
  unfolding dispatch
  dispatch-keep_alive bytes time status s h =
      rw (keep_alive_lem bytes time status s h, set_logging_state_lem (requested bytes) s)

  -- A keep-alive of at least 32 bytes that reaches a running sniffer: the sniffer notes the time and
  -- the connection, takes over the logging state that the message asks for, and answers with one
  -- message, the last of its effects, that reports this state; only a change of the state is told to
  -- the status display. Nothing else of the sniffer changes.
  pub on_command_received-keep_alive :
      (bytes : List ℕ) (now time : ℕ) (status : List ℕ) (s : Sniffer)
      → s.running ≡ true
      → 32 ≤ length bytes
      → on_command_received sort cmd_keep_alive_to_sniffer bytes now time status s ≡ (
        record s {
          external_service_connected = true;
          last_external_msg_time = now;
          external_service_logging = requested bytes;
        },
        (if bool_eq s.external_service_logging (requested bytes)
              then []
              else update_status "Logging Active [Setting]"
                  (text (if requested bytes then "ON" else "OFF"))
                ∷ [])
            ++ (send_external (keep_alive_response (requested bytes) time status) ∷ []),
      )
  unfolding on_command_received
  on_command_received-keep_alive bytes now time status s up h =
      if-true s.running _ _ up
      ∙ dispatch-keep_alive bytes time status
          (record s { external_service_connected = true; last_external_msg_time = now }) h
