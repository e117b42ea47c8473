-- ===== src/Client/Filters.antt =====
-- client_set_filters on the sniffer's side of the wire.
use mathlib.Core.List.{append_assoc}
use ksg_canbus_rpi_sniffer.Prelude.{
  ℕ, ◌*◌, ◌/◌, ◌^◌, ◌≤◌, ◌<◌, ◌≡◌, refl, sym, ap, ◌∙◌, true, false, some, List, [], ◌∷◌, ◌++◌, ltb,
  if-true, length, length-append, take-append_left, drop-append_left, arith,
}
use ksg_canbus_rpi_sniffer.Prelude.Bytes.{field, of_le-le_bytes_four}
use ksg_canbus_rpi_sniffer.Filter.Rule.{CanFilterRule, decode_rule, decode_rules}
use ksg_canbus_rpi_sniffer.Filter.Engine.{init_internal, build, num_rules, load_rules}
use ksg_canbus_rpi_sniffer.Protocol.Message.{delivered, on_command, cmd_set_filters}
use ksg_canbus_rpi_sniffer.Protocol.Udp.{process_packet, received}
use ksg_canbus_rpi_sniffer.Protocol.RoundTrip.{process_packet-raw_command}
use ksg_canbus_rpi_sniffer.Sniffer.State.{Sniffer, Effect}
use ksg_canbus_rpi_sniffer.Sniffer.Commands.{on_command_received, dispatch}
use ksg_canbus_rpi_sniffer.Client.Receive.{Client}
use ksg_canbus_rpi_sniffer.Client.Api.{encode_rule, encode_rules, set_filters, send_raw_command}

-- A rule as the type of its fields allows it.
abbrev pub IsRule : CanFilterRule → Type 0
IsRule rule =
    (rule.can_id < 2 ^ 32)
    × (length rule.modification_data ≡ 8)
    × (length rule.modification_mask ≡ 8)

abbrev pub AllRules : List CanFilterRule → Type 0
AllRules [] = Unit
AllRules (rule ∷ rest) = IsRule rule × AllRules rest

module _ (rule : CanFilterRule) (h : IsRule rule) where
  length-encode_rule : length (encode_rule rule) ≡ 25
  unfolding encode_rule
  length-encode_rule =
      omega (arith, length-append {0} rule.modification_data rule.modification_mask, h.1, h.2)

  decode-encode_rule : (behind : List ℕ) → decode_rule (encode_rule rule ++ behind) ≡ rule
  unfolding decode_rule encode_rule field
  decode-encode_rule behind =
      rw
        (
          append_assoc rule.modification_data rule.modification_mask behind,
          take-append_left rule.modification_data (rule.modification_mask ++ behind) 8 (sym h.1),
          drop-append_left rule.modification_data (rule.modification_mask ++ behind) 8 (sym h.1),
          take-append_left rule.modification_mask behind 8 (sym h.2),
          of_le-le_bytes_four rule.can_id h.0,
        )
        refl

length-encode_rules :
    (rules : List CanFilterRule) → AllRules rules → length (encode_rules rules) ≡ 25 * length rules
unfolding encode_rules
length-encode_rules [] h = refl
length-encode_rules (rule ∷ rest) (h, all) = omega (
  arith,
  length-append {0} (encode_rule rule) (encode_rules rest),
  length-encode_rule rule h,
  length-encode_rules rest all,
)

decode_rules-encode_rules :
    (rules : List CanFilterRule)
    → AllRules rules
    → decode_rules (length rules) (encode_rules rules) ≡ rules
unfolding decode_rules encode_rules
decode_rules-encode_rules [] h = refl
decode_rules-encode_rules (rule ∷ rest) (h, all) = rw (
  decode-encode_rule rule h (encode_rules rest),
  drop-append_left (encode_rule rule) (encode_rules rest) 25 (sym (length-encode_rule rule h)),
  decode_rules-encode_rules rest all,
)

num_rules-encode_rules :
    (rules : List CanFilterRule)
    → AllRules rules
    → length rules ≤ 157
    → num_rules (length (encode_rules rules)) ≡ length rules
unfolding num_rules
num_rules-encode_rules rules all few =
    let whole : ltb 64000 (25 * length rules) ≡ false = ground arith in
    let rounds : 25 * length rules / 25 ≡ length rules = omega arith in
    let fits : ltb 2560 (length rules) ≡ false = ground arith in
    rw (length-encode_rules rules all, whole, rounds, fits) refl

loaded :
    (sort : List CanFilterRule → List CanFilterRule) (rules : List CanFilterRule)
    → AllRules rules
    → length rules ≤ 157
    → load_rules sort (encode_rules rules)
      ≡ build (sort rules) 0 (record init_internal { rules = sort rules })
unfolding load_rules
loaded sort rules all few =
    ap
      (λ (decoded : List CanFilterRule).
        build (sort decoded) 0 (record init_internal { rules = sort decoded }))
      (ap (λ n. decode_rules n (encode_rules rules)) (num_rules-encode_rules rules all few)
        ∙ decode_rules-encode_rules rules all)

-- client_set_filters with at most 157 rules, as one datagram to a running sniffer: the sniffer's
-- listener gets one command, and its filter's table is then the one built of exactly these rules.
pub filters_arrive :
    (sort : List CanFilterRule → List CanFilterRule) (rules : List CanFilterRule)
    (sent now time : ℕ) (stale status : List ℕ) (c : Client) (s : Sniffer)
    → s.running ≡ true
    → AllRules rules
    → length rules ≤ 157
    → (datagram payload : List ℕ) × ((set_filters rules sent c).1 ≡ some datagram)
      × (process_packet true (received datagram ++ stale) (length (received datagram))
          ≡ delivered (on_command cmd_set_filters 0 payload ∷ []))
      × ((on_command_received sort cmd_set_filters payload now time status s).0.engine
          ≡ build (sort rules) 0 (record init_internal { rules = sort rules }))
unfolding set_filters send_raw_command on_command_received dispatch
filters_arrive sort rules sent now time stale status c s up all few =
    let (datagram, encoded, arrived) =
      process_packet-raw_command cmd_set_filters (encode_rules rules) stale (omega arith)
        (omega (arith, length-encode_rules rules all)) in
    (
      datagram,
      encode_rules rules,
      encoded,
      arrived,
      ap (λ (r : Sniffer × List Effect). r.0.engine) (if-true s.running _ _ up)
          ∙ loaded sort rules all few,
    )
