-- ===== src/Gateway/RoundTrip.antt =====
-- A keep-alive of the client all the way: to the sniffer, through its cache and its handler, and back as
-- the status that the client shows.
use ksg_canbus_rpi_sniffer.Prelude.{
  ℕ, zero, suc, ◌^◌, ◌<◌, ◌≡◌, refl, ap, ◌∙◌, Bool, true, false, Option, some, List, [], ◌∷◌, ◌++◌,
  map, if◌then◌else◌, ◌==◌, length, length-append, le→leb, replicate, arith, subst,
}
use ksg_canbus_rpi_sniffer.Text.{c_string}
use ksg_canbus_rpi_sniffer.Filter.Rule.{CanFilterRule}
use ksg_canbus_rpi_sniffer.Protocol.Message.{
  raw_command, header, cmd_keep_alive_to_sniffer, cmd_keep_alive_from_sniffer, on_command,
  delivered,
}
use ksg_canbus_rpi_sniffer.Protocol.Udp.{process_packet, received}
use ksg_canbus_rpi_sniffer.Protocol.RoundTrip.{header_arrives}
use ksg_canbus_rpi_sniffer.Sockets.Udp.{Address, UdpCommunication, sendto}
use ksg_canbus_rpi_sniffer.Sniffer.State.{
  Sniffer, Effect, send_external, update_status, text, bool_eq,
}
use ksg_canbus_rpi_sniffer.Sniffer.Commands.{on_command_received, keep_alive_response}
use ksg_canbus_rpi_sniffer.Sniffer.KeepAlive.{on_command_received-keep_alive}
use ksg_canbus_rpi_sniffer.Client.Receive.{
  Client, keep_alive_payload, receive_command, keep_status, update_last_recv_time,
}
use ksg_canbus_rpi_sniffer.Client.Sync.{requested-keep_alive_payload, length-keep_alive_payload}
use ksg_canbus_rpi_sniffer.Gateway.{Gateway, sent, called, Moment, serves}
use ksg_canbus_rpi_sniffer.Gateway.Queue.{arrive_all}
use ksg_canbus_rpi_sniffer.Cache.Ring.{Cache}
use ksg_canbus_rpi_sniffer.Gateway.Answers.{
  linked, IsEmptied, output, reply_address, command_answered,
}

-- Zeros behind a memory do not lengthen the string that starts it.
c_string-zeros : (xs : List ℕ) (n : ℕ) → c_string (xs ++ replicate n 0) ≡ c_string xs
unfolding c_string
c_string-zeros [] zero = refl
c_string-zeros [] (suc n) = refl
c_string-zeros (x ∷ xs) n = ap (λ rest. if x == 0 then [] else x ∷ rest) (c_string-zeros xs n)

-- The payload of the answer to a keep-alive.
abbrev response_payload : Bool → List ℕ → List ℕ
response_payload logging status = (if logging then 1 else 0) ∷ (status ++ replicate 31 0)

length-response_payload :
    (logging : Bool) (status : List ℕ)
    → length status ≡ 1024
    → length (response_payload logging status) ≡ 1056
length-response_payload logging status h = omega (arith, length-append status (replicate 31 0))

-- The answer reaches the client's listener.
response_arrives :
    (logging : Bool) (time : ℕ) (status stale : List ℕ)
    → length status ≡ 1024
    → time < 2 ^ 64
    → process_packet true
        (received (keep_alive_response logging time status) ++ stale)
        (length (received (keep_alive_response logging time status)))
      ≡ delivered
          (on_command cmd_keep_alive_from_sniffer time (response_payload logging status) ∷ [])
unfolding keep_alive_response
response_arrives logging time status stale h in_word =
    let size = length-response_payload logging status h in
    subst
      (λ n.
        process_packet true
          (received (header cmd_keep_alive_from_sniffer time n (response_payload logging status))
            ++ stale)
          (length (
            received (header cmd_keep_alive_from_sniffer time n (response_payload logging status))))
        ≡ delivered
            (on_command cmd_keep_alive_from_sniffer time (response_payload logging status) ∷ []))
      size
      (header_arrives cmd_keep_alive_from_sniffer time (response_payload logging status) stale
        (omega arith) in_word (omega arith))

-- And the client keeps the status text that it carries.
status_kept :
    (logging : Bool) (time now : ℕ) (status : List ℕ) (c : Client)
    → length status ≡ 1024
    → receive_command cmd_keep_alive_from_sniffer time (response_payload logging status) now c
      ≡ record (update_last_recv_time now c) { last_sniffer_status = c_string status }
unfolding receive_command keep_status
status_kept logging time now status c h =
    rw
      (le→leb 1056 (length (response_payload logging status))
        (omega (arith, length-response_payload logging status h)))
      (ap (λ t. record (update_last_recv_time now c) { last_sniffer_status = t })
        (c_string-zeros status 31))

-- What one status and one message come to, as calls and datagrams.
outputs_lem :
    (fd : ℕ) (address : Address) (same : Bool) (shown : Effect) (response : List ℕ)
    → output fd address shown ≡ called shown
    → map (output fd address) ((if same then [] else shown ∷ []) ++ (send_external response ∷ []))
      ≡ (if same then [] else called shown ∷ []) ++ (sent (sendto fd response address) ∷ [])
unfolding output
outputs_lem fd address true shown response e = refl
outputs_lem fd address false shown response e =
    ap (λ o. o ∷ sent (sendto fd response address) ∷ []) e

module _ (sort : List CanFilterRule → List CanFilterRule) (inet_pton : List ℕ → Option ℕ)
    (answer : Option ℕ) (m : Moment) where
  keep_alive_handled :
      (c : Client) (s : Sniffer)
      → s.running ≡ true
      → on_command_received sort cmd_keep_alive_to_sniffer
          (keep_alive_payload c)
          m.now
          m.time
          m.status
          s
        ≡ (
          record s {
            external_service_connected = true;
            last_external_msg_time = m.now;
            external_service_logging = c.desired_logging_state;
          },
          (if bool_eq s.external_service_logging c.desired_logging_state
                then []
                else update_status "Logging Active [Setting]"
                    (text (if c.desired_logging_state then "ON" else "OFF"))
                  ∷ [])
              ++ (send_external (keep_alive_response c.desired_logging_state m.time m.status) ∷ []),
        )
  keep_alive_handled c s up =
      subst
        (λ b.
          on_command_received sort cmd_keep_alive_to_sniffer (keep_alive_payload c) m.now m.time
            m.status s
          ≡ (
            record s {
              external_service_connected = true;
              last_external_msg_time = m.now;
              external_service_logging = b;
            },
            (if bool_eq s.external_service_logging b
                  then []
                  else update_status "Logging Active [Setting]" (text (if b then "ON" else "OFF"))
                    ∷ [])
                ++ (send_external (keep_alive_response b m.time m.status) ∷ []),
          ))
        (requested-keep_alive_payload c)
        (on_command_received-keep_alive sort (keep_alive_payload c) m.now m.time m.status s up
          (omega (arith, length-keep_alive_payload c)))

  -- The keep-alive of a client, sent from an address to a running sniffer whose service is up, with
  -- no frame in its cache and none in work, however the cache was used before: the sniffer takes over the
  -- logging state that the client wants, tells a change of it to its status display, and answers with one
  -- datagram to that address, on the configured port or, where that is 0, on the sender's own; and this
  -- datagram, read by the client, whatever its receive block held before, leaves it connected, with the
  -- sniffer's status text, of 1024 bytes with its end.
  pub keep_alive_round_trip :
      (fd now : ℕ) (sender : Address) (stale : List ℕ) (c : Client) (s : Sniffer)
      (u : UdpCommunication) (cache : Cache)
      → u.socket_fd ≡ some fd
      → IsEmptied cache
      → s.running ≡ true
      → length m.status ≡ 1024
      → m.time < 2 ^ 64
      → (asking : List ℕ) × (answering : List ℕ) × (payload : List ℕ) × (g : Gateway) × (raw_command
            cmd_keep_alive_to_sniffer
            (keep_alive_payload c)
          ≡ some asking)
        × (serves sort inet_pton answer m (arrive_all ((sender, asking) ∷ []) (linked s u cache))
            ≡ some (
              g,
              (if bool_eq s.external_service_logging c.desired_logging_state
                    then []
                    else called (
                        update_status "Logging Active [Setting]"
                          (text (if c.desired_logging_state then "ON" else "OFF")))
                      ∷ [])
                  ++ (sent (sendto fd answering (reply_address u sender)) ∷ []),
            ))
        × (g.sniffer.external_service_logging ≡ c.desired_logging_state)
        × (process_packet true (received answering ++ stale) (length (received answering))
            ≡ delivered (on_command cmd_keep_alive_from_sniffer m.time payload ∷ []))
        × (receive_command cmd_keep_alive_from_sniffer m.time payload now c ≡ record c {
          is_connected = true;
          last_recv_time = now;
          last_sniffer_status = c_string m.status;
        })
  unfolding output update_last_recv_time
  keep_alive_round_trip fd now sender stale c s u cache held emptied up full in_word =
      let wanted = c.desired_logging_state in
      let (asking, g, encoded, served, kept) =
        command_answered sort inet_pton answer m fd cmd_keep_alive_to_sniffer (keep_alive_payload c)
          sender [] s u cache held emptied (omega arith) refl
          (omega (arith, length-keep_alive_payload c)) (omega arith) in
      let address = reply_address u sender in
      let same = bool_eq s.external_service_logging wanted in
      let shown =
        update_status "Logging Active [Setting]" (text (if wanted then "ON" else "OFF")) in
      let response = keep_alive_response wanted m.time m.status in
      let handled = keep_alive_handled c s up in
      (
        asking,
        response,
        response_payload wanted m.status,
        g,
        encoded,
        served
            ∙ ap (λ (r : Sniffer × List Effect). some (g, map (output fd address) r.1)) handled
            ∙ ap (λ out. some (g, out)) (outputs_lem fd address same shown response refl),
        ap (λ (x : Sniffer). x.external_service_logging) kept
            ∙ ap (λ (r : Sniffer × List Effect). r.0.external_service_logging) handled,
        response_arrives wanted m.time m.status stale full in_word,
        status_kept wanted m.time now m.status c full,
      )
