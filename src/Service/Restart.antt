-- ===== src/Service/Restart.antt =====
-- New parameters reach the sniffer and its client, and no watchdog outlives its sniffer.
use ksg_canbus_rpi_sniffer.Prelude.{
  ℕ, ◌<◌, ◌≡◌, refl, ap, ◌∙◌, Bool, true, false, some, List, [], ◌∷◌, ◌++◌, ltb, lt→ltb, if-true,
  length, arith,
}
use ksg_canbus_rpi_sniffer.Text.{c_string}
use ksg_canbus_rpi_sniffer.Protocol.Message.{cmd_set_params, cmd_get_params_req, cmd_get_params_res}
use ksg_canbus_rpi_sniffer.Params.Store.{Table, parse_and_set}
use ksg_canbus_rpi_sniffer.Params.File.{update, print_table}
use ksg_canbus_rpi_sniffer.Params.Invariant.{IsValid, parse_and_set-IsValid}
use ksg_canbus_rpi_sniffer.Params.GetAll.{get_all_prefix}
use ksg_canbus_rpi_sniffer.Service.Main.{
  MainService, SnifferParams, Call, send_system_response, sniffer_params, build_sniffer,
  create_with, create_if, create_sniffer, destroy_sniffer, set_params, get_params, respond,
  on_system_command, round_end,
}

-- The table after a CMD_SET_PARAMS with these bytes.
abbrev pub updated : List ℕ → Table → Table
updated bytes table = parse_and_set false (some (c_string bytes)) table

set_params_lem :
    (writable : Bool) (bytes : List ℕ) (table : Table) (s : MainService)
    → s.params ≡ some table
    → 0 < length bytes
    → (on_system_command writable cmd_set_params bytes s).0 ≡ record s {
      params = some (updated bytes table);
      file = (update writable (some (c_string bytes)) table s.file).1;
      restart_requested = true;
    }
unfolding on_system_command set_params update
set_params_lem writable bytes table s has some_byte =
    ap (λ (r : MainService × List Call). r.0)
      (if-true (ltb 0 (length bytes)) _ _ (lt→ltb 0 (length bytes) some_byte))
    ∙ ap (λ params. set_params writable bytes params s) has

-- CMD_SET_PARAMS with a text takes effect in one turn of run: the end of the round takes the sniffer
-- down and clears the request, and the next round builds one from the table that the text leads to.
pub create_sniffer-set_params :
    (writable : Bool) (bytes : List ℕ) (table : Table) (s : MainService)
    → s.params ≡ some table
    → 0 < length bytes
    → (s' : MainService) × (calls : List Call) × (create_sniffer
          (round_end (on_system_command writable cmd_set_params bytes s).0).0
        ≡ some (s', calls))
      × (s'.sniffer ≡ some (sniffer_params (updated bytes table)))
      × (s'.params ≡ some (updated bytes table))
      × (s'.restart_requested ≡ false)
unfolding create_sniffer create_if create_with round_end destroy_sniffer build_sniffer
create_sniffer-set_params writable bytes table s has some_byte =
    rw (set_params_lem writable bytes table s has some_byte) (_, _, refl, refl, refl, refl)

request_lem :
    (writable : Bool) (request : List ℕ) (s : MainService)
    → (on_system_command writable cmd_get_params_req request s).1 ≡ get_params s.params s.sniffer
unfolding on_system_command
request_lem writable request s = refl

-- CMD_GET_PARAMS_REQ after it, while a sniffer is there, is answered with a beginning of the text that
-- was saved for that table; it has less than 16384 bytes.
pub get_params-set_params :
    (writable : Bool) (bytes request : List ℕ) (table : Table) (built : SnifferParams)
    (s : MainService)
    → s.params ≡ some table
    → s.sniffer ≡ some built
    → IsValid table
    → 0 < length bytes
    → (text rest : List ℕ) × ((on_system_command writable cmd_get_params_req request
          (on_system_command writable cmd_set_params bytes s).0).1
        ≡ send_system_response cmd_get_params_res text ∷ [])
      × (text ++ rest ≡ print_table (updated bytes table))
      × (length text < 16384)
unfolding get_params respond
get_params-set_params writable bytes request table built s has running valid some_byte =
    let (text, rest, all, whole, short) =
      get_all_prefix 16384 (updated bytes table)
        (parse_and_set-IsValid false (some (c_string bytes)) table valid) (omega arith) in
    (
      text,
      rest,
      request_lem writable request (on_system_command writable cmd_set_params bytes s).0
          ∙ ap (λ (t : MainService). get_params t.params t.sniffer)
              (set_params_lem writable bytes table s has some_byte)
          ∙ ap (get_params (some (updated bytes table))) running
          ∙ ap respond all,
      whole,
      short,
    )
