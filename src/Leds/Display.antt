-- ===== src/Leds/Display.antt =====
-- What the status text says of the connections: CanListener and handleStatusChanged of Sniffer
-- (src/sniffer/Sniffer.cpp), whose lines go through StatusManager (include/utils/StatusManager.hpp).
use mathlib.Core.List.{Perm}
use ksg_canbus_rpi_sniffer.Prelude.{
  ℕ, ◌-◌, ◌<◌, ◌≤◌, ◌≡◌, refl, ap, ◌∙◌, Bool, false, some, List, [], ◌∷◌, ◌++◌, length, take, arith,
}
use ksg_canbus_rpi_sniffer.Text.{codes, str_eq}
use ksg_canbus_rpi_sniffer.Filter.Rule.{Source, car_system, car_computer, external}
use ksg_canbus_rpi_sniffer.Connection.Life.{
  Call, on_status_changed, on_error, unblock, close, CommunicationStatus, status_error,
}
use ksg_canbus_rpi_sniffer.Leds.Files.{AttrValue, FileAnswer}
use ksg_canbus_rpi_sniffer.Leds.Signals
use ksg_canbus_rpi_sniffer.Leds.Signals.{
  LedConfig, StatusLine, handle_status_changed, status_key, status_text,
}
use ksg_canbus_rpi_sniffer.Status.Manager.{Message, update_status, get_status}
use ksg_canbus_rpi_sniffer.Status.Directory.{AllNamed, visible, usb_line, available_usb_lem}
use ksg_canbus_rpi_sniffer.Status.Texts.{
  texts_of, texts_of-other, texts_of-update_status, texts_of-perm,
}
use ksg_canbus_rpi_sniffer.Status.Truncation.{print_all, get_status_lem}

abbrev computer_key : List ℕ
computer_key = codes "Connection: Computer"

available_usb-differs : str_eq (codes "available_usb") computer_key ≡ false
unfolding str_eq
available_usb-differs = refl

-- The connections that are shown under this key.
abbrev pub IsShared : Source → Type 0
IsShared car_system = ⊥
IsShared car_computer = Unit
IsShared external = Unit

-- Reports of the car system's connection.
abbrev pub AllSystem : List (Source × Call) → Type 0
AllSystem [] = Unit
AllSystem ((car_system, call) ∷ rest) = AllSystem rest
AllSystem ((_, call) ∷ rest) = ⊥

module _ (present : List ℕ → Bool) (answer : List ℕ → AttrValue → FileAnswer)
    (config : LedConfig) where
  unfoldable pub show : StatusLine → List Message → List Message
  show line messages = update_status line.key line.shown messages

  -- A call of a connection's CanListener: onError and onStatusChanged come to handleStatusChanged.
  unfoldable pub report : Source → Call → List Message → List Message
  unfolding show
  report source (on_status_changed status) messages =
      show (handle_status_changed present answer source status config).0 messages
  report source (on_error code) messages =
      show (Signals.on_error present answer source config).0 messages
  report source unblock messages = messages
  report source close messages = messages

  unfoldable pub reports : List (Source × Call) → List Message → List Message
  reports [] messages = messages
  reports ((source, call) ∷ rest) messages = reports rest (report source call messages)

  reports-append :
      (before after : List (Source × Call)) (messages : List Message)
      → reports (before ++ after) messages ≡ reports after (reports before messages)
  unfolding reports
  reports-append [] after messages = refl
  reports-append ((source, call) ∷ before) after messages =
      reports-append before after (report source call messages)

  report-system :
      (call : Call) (messages : List Message)
      → texts_of computer_key (report car_system call messages) ≡ texts_of computer_key messages
  unfolding report show handle_status_changed Signals.on_error status_key str_eq
  report-system (on_status_changed status) messages =
      texts_of-other computer_key (codes "Connection: System") (status_text status) messages refl
  report-system (on_error code) messages =
      texts_of-other computer_key (codes "Connection: System") (codes "ERROR") messages refl
  report-system unblock messages = refl
  report-system close messages = refl

  reports-system :
      (calls : List (Source × Call)) (messages : List Message)
      → AllSystem calls
      → texts_of computer_key (reports calls messages) ≡ texts_of computer_key messages
  unfolding reports
  reports-system [] messages h = refl
  reports-system ((car_system, call) ∷ rest) messages h =
      reports-system rest (report car_system call messages) h ∙ report-system call messages
  reports-system ((car_computer, call) ∷ rest) messages h = absurd h
  reports-system ((external, call) ∷ rest) messages h = absurd h

  report-shared :
      (source : Source) (status : CommunicationStatus) (messages : List Message)
      → IsShared source
      → length (texts_of computer_key messages) ≤ 1
      → texts_of computer_key (report source (on_status_changed status) messages)
        ≡ status_text status ∷ []
  unfolding report show handle_status_changed status_key
  report-shared car_system status messages h one = absurd h
  report-shared car_computer status messages h one =
      texts_of-update_status computer_key (status_text status) messages one
  report-shared external status messages h one =
      texts_of-update_status computer_key (status_text status) messages one

  -- A map holds one message for the key at most, and keeps it so.
  status-one :
      (source : Source) (status : CommunicationStatus) (messages : List Message)
      → length (texts_of computer_key messages) ≤ 1
      → length (texts_of computer_key (report source (on_status_changed status) messages)) ≤ 1
  status-one car_system status messages one =
      omega (arith, one, ap length (report-system (on_status_changed status) messages))
  status-one car_computer status messages one =
      omega (arith, ap length (report-shared car_computer status messages tt one))
  status-one external status messages one =
      omega (arith, ap length (report-shared external status messages tt one))

  report-one :
      (source : Source) (call : Call) (messages : List Message)
      → length (texts_of computer_key messages) ≤ 1
      → length (texts_of computer_key (report source call messages)) ≤ 1
  unfolding report Signals.on_error
  report-one source (on_status_changed status) messages one = status-one source status messages one
  report-one source (on_error code) messages one = status-one source status_error messages one
  report-one source unblock messages one = one
  report-one source close messages one = one

  reports-one :
      (calls : List (Source × Call)) (messages : List Message)
      → length (texts_of computer_key messages) ≤ 1
      → length (texts_of computer_key (reports calls messages)) ≤ 1
  unfolding reports
  reports-one [] messages one = one
  reports-one ((source, call) ∷ rest) messages one =
      reports-one rest (report source call messages) (report-one source call messages one)

  last_shown :
      (before after : List (Source × Call)) (source : Source) (status : CommunicationStatus)
      (messages : List Message)
      → IsShared source
      → AllSystem after
      → length (texts_of computer_key messages) ≤ 1
      → texts_of computer_key
          (reports (before ++ ((source, on_status_changed status) ∷ after)) messages)
        ≡ status_text status ∷ []
  unfolding reports
  last_shown before after source status messages shared system one =
      ap (texts_of computer_key)
        (reports-append before ((source, on_status_changed status) ∷ after) messages)
      ∙ reports-system after _ system
      ∙ report-shared source status (reports before messages) shared
          (reports-one before messages one)

  -- The status text after any reports of the three connections, from a map with at most one message for
  -- "Connection: Computer" on, and with an order of the map that has each message once: where the last report of the car computer's or the external service's
  -- connection is a change to some status, and all later ones are the car system's, get_status into a
  -- buffer of at least one byte, with USB devices whose names fit their array, prints the messages in the
  -- map's order, cut at the buffer's size; and among them is just one for "Connection:
  -- Computer", with the name of that status.
  pub computer_line_shared :
      (order : List Message → List Message) (max_size : ℕ) (names : List (List ℕ))
      (before after : List (Source × Call)) (source : Source) (status : CommunicationStatus)
      (messages : List Message)
      → ((list : List Message) → Perm (order list) list)
      → 0 < max_size
      → AllNamed names
      → length (usb_line (visible names)) ≤ 2047
      → IsShared source
      → AllSystem after
      → length (texts_of (codes "Connection: Computer") messages) ≤ 1
      → (final : List Message) × (get_status order max_size names
            (reports (before ++ ((source, on_status_changed status) ∷ after)) messages)
          ≡ some (final, take (max_size - 1) (print_all (order final))))
        × (texts_of (codes "Connection: Computer") (order final) ≡ status_text status ∷ [])
  computer_line_shared order max_size names before after source status messages walks some_byte
        named fits shared system one =
      let shown = reports (before ++ ((source, on_status_changed status) ∷ after)) messages in
      let usb = usb_line (visible names) in
      let final = update_status (codes "available_usb") usb shown in
      (
        final,
        get_status_lem order max_size names usb shown some_byte
            (available_usb_lem names named fits),
        texts_of-perm computer_key (status_text status) (walks final) (
            texts_of-other computer_key (codes "available_usb") usb shown available_usb-differs
            ∙ last_shown before after source status messages shared system one),
      )
