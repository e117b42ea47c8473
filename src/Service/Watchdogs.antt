-- ===== src/Service/Watchdogs.antt =====
-- No USB watchdog's thread outlives the sniffer that it was started for.
use ksg_canbus_rpi_sniffer.Prelude.{
  ℕ, ◌+◌, ◌≡◌, refl, subst, Bool, Option, none, some, List, [], ◌∷◌, ◌++◌, if-either, arith, ltb,
  ◌==◌, length,
}
use ksg_canbus_rpi_sniffer.Text.{codes}
use ksg_canbus_rpi_sniffer.Protocol.Message.{cmd_set_params, cmd_get_params_req}
use ksg_canbus_rpi_sniffer.Params.Store.{Table, get}
use ksg_canbus_rpi_sniffer.Params.File.{get_all}
use ksg_canbus_rpi_sniffer.Service.Config.{CanInterfaceConfig}
use ksg_canbus_rpi_sniffer.Service.Usb
use ksg_canbus_rpi_sniffer.Service.Usb.{
  UsbWatchdog, UsbCall, start_thread, join_thread, kill_existing_slcand, wait_for_interface, system,
}
use ksg_canbus_rpi_sniffer.Service.Main.{
  MainService, SnifferParams, Call, start_sniffer, initial, begin_run, stop, watchdog_for,
  usb_calls, build_sniffer, create_with, create_if, create_sniffer, stop_watchdog, stop_built,
  destroy_sniffer, destroy, set_params, get_params, on_system_command, round_end, system_config,
  computer_config, respond,
}
use ksg_canbus_rpi_sniffer.Service.Threads.{
  Step, Run, starts, joins, total, live, threads, NoStray, Tidy, begins, stops, creates, ends_round,
  destroys, ends, commands, begin, after,
}

total-append : (f : Call → ℕ) (xs ys : List Call) → total f (xs ++ ys) ≡ total f xs + total f ys
total-append f [] ys = omega arith
total-append f (x ∷ xs) ys = omega (arith, total-append f xs ys)

watchdog_for-threads :
    (config : CanInterfaceConfig) (baudrate : Option (List ℕ))
    → (live (watchdog_for config baudrate).0
        ≡ total starts (usb_calls (watchdog_for config baudrate).1))
      × (total joins (usb_calls (watchdog_for config baudrate).1) ≡ 0)
unfolding watchdog_for Usb.start Usb.construct starts joins
watchdog_for-threads config baudrate = ground arith

stop_watchdog-threads :
    (w : Option UsbWatchdog)
    → (total joins (usb_calls (stop_watchdog w)) ≡ live w)
      × (total starts (usb_calls (stop_watchdog w)) ≡ 0)
unfolding stop_watchdog Usb.stop starts joins
stop_watchdog-threads none = (refl, refl)
stop_watchdog-threads (some w) = ground arith

stop_built-threads :
    (built : Option SnifferParams)
    → (total joins (stop_built built) ≡ 0) × (total starts (stop_built built) ≡ 0)
unfolding stop_built starts joins
stop_built-threads none = (refl, refl)
stop_built-threads (some built) = (refl, refl)

-- A result accounts for the change of the threads, and leaves none without a sniffer.
abbrev Balanced : MainService → MainService × List Call → Type 0
Balanced s (s', calls) = (threads s + total starts calls ≡ threads s' + total joins calls) × Tidy s'

unfoldable CreateBalanced : MainService → Option (MainService × List Call) → Type 0
CreateBalanced s none = Unit
CreateBalanced s (some r) = Balanced s r

two_total :
    (f : Call → ℕ) (xs ys zs : List Call)
    → total f (xs ++ (ys ++ zs)) ≡ total f xs + (total f ys + total f zs)
two_total f xs ys zs = omega (arith, total-append f xs (ys ++ zs), total-append f ys zs)

build_sniffer-Balanced :
    (table : Table) (s : MainService) → threads s ≡ 0 → Balanced s (build_sniffer table s)
unfolding build_sniffer starts joins
build_sniffer-Balanced table s h =
    let one =
      watchdog_for-threads (system_config table) (get (codes "car_system_baudrate") table) in
    let other =
      watchdog_for-threads (computer_config table) (get (codes "car_computer_baudrate") table) in
    let all_starts =
      two_total starts
        (usb_calls (watchdog_for (system_config table) (get (codes "car_system_baudrate") table)).1)
        (usb_calls
          (watchdog_for (computer_config table) (get (codes "car_computer_baudrate") table)).1)
        (start_sniffer ∷ []) in
    let all_joins =
      two_total joins
        (usb_calls (watchdog_for (system_config table) (get (codes "car_system_baudrate") table)).1)
        (usb_calls
          (watchdog_for (computer_config table) (get (codes "car_computer_baudrate") table)).1)
        (start_sniffer ∷ []) in
    (omega (arith, one.0, one.1, other.0, other.1, all_starts, all_joins, h), tt)

destroy_sniffer-Balanced : (s : MainService) → Balanced s (destroy_sniffer s)
unfolding destroy_sniffer
destroy_sniffer-Balanced s =
    let one = stop_watchdog-threads s.system_watchdog in
    let other = stop_watchdog-threads s.computer_watchdog in
    let last = stop_built-threads s.sniffer in
    let all_starts =
      two_total starts (usb_calls (stop_watchdog s.system_watchdog))
        (usb_calls (stop_watchdog s.computer_watchdog)) (stop_built s.sniffer) in
    let all_joins =
      two_total joins (usb_calls (stop_watchdog s.system_watchdog))
        (usb_calls (stop_watchdog s.computer_watchdog)) (stop_built s.sniffer) in
    (omega (arith, one.0, one.1, other.0, other.1, last.0, last.1, all_starts, all_joins), refl)

same-Balanced : (s s' : MainService) → threads s' ≡ threads s → Tidy s' → Balanced s (s', [])
same-Balanced s s' same tidy = (omega (arith, same), tidy)

create_with-Balanced :
    (params : Option Table) (s : MainService)
    → threads s ≡ 0
    → CreateBalanced s (create_with params s)
unfolding create_with CreateBalanced
create_with-Balanced none s h = tt
create_with-Balanced (some table) s h = build_sniffer-Balanced table s h

create_if-Balanced :
    (built : Option SnifferParams) (s : MainService)
    → s.sniffer ≡ built
    → Tidy s
    → CreateBalanced s (create_if built s)
unfolding create_if CreateBalanced
create_if-Balanced none s e tidy =
    create_with-Balanced s.params s (subst (λ built. NoStray built (threads s)) e tidy)
create_if-Balanced (some built) s e tidy = same-Balanced s s refl tidy

create_sniffer-Balanced : (s : MainService) → Tidy s → CreateBalanced s (create_sniffer s)
unfolding create_sniffer
create_sniffer-Balanced s tidy = create_if-Balanced s.sniffer s refl tidy

round_end-Balanced : (s : MainService) → Tidy s → Balanced s (round_end s)
unfolding round_end destroy_sniffer
round_end-Balanced s tidy =
    if-either (Balanced s) s.restart_requested _ _ (λ _. destroy_sniffer-Balanced s)
      (λ _. same-Balanced s s refl tidy)

begin_run-Balanced :
    (writable : Bool) (file : Option (List ℕ)) (s : MainService)
    → Tidy s
    → Balanced s (begin_run writable file s, [])
unfolding begin_run
begin_run-Balanced writable file s tidy =
    if-either (λ t. Balanced s (t, [])) s.running _ _ (λ _. same-Balanced s s refl tidy)
      (λ _. (refl, tidy))

set_params-Balanced :
    (writable : Bool) (bytes : List ℕ) (table : Option Table) (s : MainService)
    → Tidy s
    → Balanced s (set_params writable bytes table s, [])
unfolding set_params
set_params-Balanced writable bytes none s tidy = same-Balanced s s refl tidy
set_params-Balanced writable bytes (some table) s tidy =
    same-Balanced s (set_params writable bytes (some table) s) refl tidy

respond-threads :
    (text : Option (List ℕ)) → (total starts (respond text) ≡ 0) × (total joins (respond text) ≡ 0)
unfolding respond starts joins
respond-threads none = (refl, refl)
respond-threads (some text) = (refl, refl)

get_params-threads :
    (table : Option Table) (built : Option SnifferParams)
    → (total starts (get_params table built) ≡ 0) × (total joins (get_params table built) ≡ 0)
unfolding get_params starts joins
get_params-threads none built = (refl, refl)
get_params-threads (some table) none = (refl, refl)
get_params-threads (some table) (some built) = respond-threads (get_all 16384 table)

on_system_command-Balanced :
    (writable : Bool) (command : ℕ) (bytes : List ℕ) (s : MainService)
    → Tidy s
    → Balanced s (on_system_command writable command bytes s)
unfolding on_system_command
on_system_command-Balanced writable command bytes s tidy =
    let asked = get_params-threads s.params s.sniffer in
    if-either (Balanced s) (command == cmd_set_params) _ _
      (λ _.
        if-either (Balanced s) (ltb 0 (length bytes)) _ _
          (λ _. set_params-Balanced writable bytes s.params s tidy)
          (λ _. same-Balanced s s refl tidy))
      (λ _.
        if-either (Balanced s) (command == cmd_get_params_req) _ _
          (λ _. (omega (arith, asked.0, asked.1), tidy)) (λ _. same-Balanced s s refl tidy))

Step-Balanced :
    (s s' : MainService) (calls : List Call) → Step s s' calls → Tidy s → Balanced s (s', calls)
unfolding stop destroy destroy_sniffer CreateBalanced
Step-Balanced s s' calls (begins writable file) tidy = begin_run-Balanced writable file s tidy
Step-Balanced s s' calls stops tidy = same-Balanced s (stop s) refl tidy
Step-Balanced s s' calls (creates e) tidy =
    subst (CreateBalanced s) e (create_sniffer-Balanced s tidy)
Step-Balanced s s' calls ends_round tidy = round_end-Balanced s tidy
Step-Balanced s s' calls ends tidy = destroy_sniffer-Balanced s
Step-Balanced s s' calls destroys tidy = destroy_sniffer-Balanced s
Step-Balanced s s' calls (commands writable command bytes) tidy =
    on_system_command-Balanced writable command bytes s tidy

-- After any sequence of run's own steps and the client's commands: the watchdog threads started are
-- those joined and one for each watchdog that runs, and there is none while there is no sniffer.
pub threads_balanced :
    (s : MainService) (calls : List Call)
    → Run s calls
    → (total starts calls ≡ total joins calls + threads s) × Tidy s
unfolding initial
threads_balanced s calls begin = (refl, refl)
threads_balanced s calls (after {s = previous} {before = before} {calls = latest} run step) =
    let (so_far, tidy) = threads_balanced previous before run in
    let (kept, tidy') = Step-Balanced previous s latest step tidy in
    (
      omega (
        arith,
        so_far,
        kept,
        total-append starts before latest,
        total-append joins before latest,
      ),
      tidy',
    )
