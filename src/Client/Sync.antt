-- ===== src/Client/Sync.antt =====
-- The keep-alive of SnifferClient::keepAliveLoop against Sniffer::onCommandReceived.
use ksg_canbus_rpi_sniffer.Prelude.{
  ℕ, ◌≡◌, refl, ap, ◌∙◌, true, Bool-cases, inl, inr, List, length, arith,
}
use ksg_canbus_rpi_sniffer.Filter.Rule.{CanFilterRule}
use ksg_canbus_rpi_sniffer.Protocol.Message.{cmd_keep_alive_to_sniffer}
use ksg_canbus_rpi_sniffer.Sniffer.State.{Sniffer, Effect}
use ksg_canbus_rpi_sniffer.Sniffer.Commands.{requested, on_command_received}
use ksg_canbus_rpi_sniffer.Sniffer.KeepAlive.{on_command_received-keep_alive}
use ksg_canbus_rpi_sniffer.Client.Receive.{Client, keep_alive_payload}

pub requested-keep_alive_payload :
    (c : Client) → requested (keep_alive_payload c) ≡ c.desired_logging_state
unfolding requested keep_alive_payload
requested-keep_alive_payload c = elim (Bool-cases c.desired_logging_state) [
  | inl e ↦ rw e refl
  | inr e ↦ rw e refl
]

pub length-keep_alive_payload : (c : Client) → length (keep_alive_payload c) ≡ 32
unfolding keep_alive_payload
length-keep_alive_payload c = refl

-- A keep-alive of the client, handled by a running sniffer, makes the sniffer's logging state the one
-- that the client wants, whatever it was before.
pub on_command_received-keep_alive_payload :
    (sort : List CanFilterRule → List CanFilterRule) (c : Client) (now time : ℕ) (status : List ℕ)
    (s : Sniffer)
    → s.running ≡ true
    → (on_command_received sort cmd_keep_alive_to_sniffer
        (keep_alive_payload c)
        now
        time
        status
        s).0.external_service_logging
      ≡ c.desired_logging_state
on_command_received-keep_alive_payload sort c now time status s up =
    ap (λ (r : Sniffer × List Effect). r.0.external_service_logging)
      (on_command_received-keep_alive sort (keep_alive_payload c) now time status s up
        (omega (arith, length-keep_alive_payload c)))
    ∙ requested-keep_alive_payload c
