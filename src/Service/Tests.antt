-- ===== src/Service/Tests.antt =====
-- The service's theorems at concrete configurations.
use ksg_canbus_rpi_sniffer.Prelude.{
  ℕ, ◌+◌, ◌<◌, ◌≡◌, refl, true, false, Option, some, List, [], ◌∷◌, ◌++◌, length, arith,
}
use ksg_canbus_rpi_sniffer.Text.{codes}
use ksg_canbus_rpi_sniffer.Protocol.Message.{cmd_set_params, cmd_get_params_req, cmd_get_params_res}
use ksg_canbus_rpi_sniffer.Params.Store.{Table}
use ksg_canbus_rpi_sniffer.Params.File.{print_table, construct}
use ksg_canbus_rpi_sniffer.Service.Processes.{
  Process, IsSlcandOf, AllFrom, kill_existing, kill_existing-IsSlcandOf,
}
use ksg_canbus_rpi_sniffer.Service.Main.{
  MainService, Call, send_system_response, initial, sniffer_params, default_params, begin_run,
  create_sniffer, create_if, create_with, build_sniffer, on_system_command, round_end,
}
use ksg_canbus_rpi_sniffer.Service.Restart.{
  updated, create_sniffer-set_params, get_params-set_params,
}
use ksg_canbus_rpi_sniffer.Service.Threads.{
  begin, after, begins, creates, total, starts, joins, threads, Tidy,
}
use ksg_canbus_rpi_sniffer.Service.Watchdogs.{threads_balanced}

abbrev running_processes : List Process
running_processes =
    record { name = codes "412"; cmdline = codes "slcand" ++ (0 ∷ (codes "can0" ++ (0 ∷ []))) }
    ∷ record { name = codes "uptime"; cmdline = [] }
    ∷ []

kill_existing-IsSlcandOf_example :
    AllFrom
      (IsSlcandOf 7 (codes "can0"))
      running_processes
      (kill_existing 7 (codes "can0") running_processes)
kill_existing-IsSlcandOf_example = kill_existing-IsSlcandOf 7 (codes "can0") running_processes

abbrev table : Table
table = record { key = codes "external_service_port"; value = codes "9095" } ∷ []

abbrev configured : MainService
configured = record initial {
  params = some table;
  sniffer = some (sniffer_params table);
  running = true;
}

create_sniffer-set_params_example :
    (s' : MainService) × (calls : List Call) × (create_sniffer
        (round_end
          (on_system_command true cmd_set_params
            (codes "external_service_port=1234")
            configured).0).0
      ≡ some (s', calls))
    × (s'.sniffer ≡ some (sniffer_params (updated (codes "external_service_port=1234") table)))
    × (s'.params ≡ some (updated (codes "external_service_port=1234") table))
    × (s'.restart_requested ≡ false)
create_sniffer-set_params_example =
    create_sniffer-set_params true (codes "external_service_port=1234") table configured refl
      (omega arith)

get_params-set_params_example :
    (text rest : List ℕ) × ((on_system_command true cmd_get_params_req []
        (on_system_command true cmd_set_params (codes "external_service_port=1234") configured).0).1
      ≡ send_system_response cmd_get_params_res text ∷ [])
    × (text ++ rest ≡ print_table (updated (codes "external_service_port=1234") table))
    × (length text < 16384)
get_params-set_params_example =
    get_params-set_params true (codes "external_service_port=1234") [] table (sniffer_params table)
      configured refl refl (omega arith) (omega arith)

-- A configuration with a USB id for one of the buses.
abbrev config_file : Option (List ℕ)
config_file = some (codes "car_system_can_name=can0#1d50#led0\n")

abbrev begun : MainService
begun = begin_run true config_file initial

abbrev read_table : Table
read_table = (construct true (some default_params) config_file).0

threads_balanced_example :
    (total starts (build_sniffer read_table begun).1
      ≡ total joins (build_sniffer read_table begun).1 + threads (build_sniffer read_table begun).0)
    × Tidy (build_sniffer read_table begun).0
unfolding create_sniffer create_if create_with begin_run initial
threads_balanced_example =
    threads_balanced (build_sniffer read_table begun).0 (build_sniffer read_table begun).1
      (after (after begin (begins true config_file)) (creates {s = begun} refl))
