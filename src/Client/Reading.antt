-- ===== src/Client/Reading.antt =====
-- A report of the sniffer, read through the C interface; and the threads of a client's whole life.
use ksg_canbus_rpi_sniffer.Prelude.{
  ℕ, ◌+◌, ◌≤◌, ◌≡◌, refl, Bool, true, false, Option, none, some, List, [], ◌∷◌, ◌++◌, leb,
  if◌then◌else◌, length, le→leb, arith, ◌==◌,
}
use ksg_canbus_rpi_sniffer.Prelude.Steps.{count, count-append}
use ksg_canbus_rpi_sniffer.Protocol.Message.{cmd_keep_alive_from_sniffer}
use ksg_canbus_rpi_sniffer.Client.Receive.{
  receive_command, is_report, queued, read_message, update_last_recv_time,
}
use ksg_canbus_rpi_sniffer.Client.Api.{
  Call, start_udp, stop_udp, start_keep_alive, join_keep_alive, delete_udp, start, stop,
}
use ksg_canbus_rpi_sniffer.Client.Handles.{
  Handle, message_read, client_read_message, copied_out, client_create, client_start, client_stop,
  client_destroy,
}

not_keep_alive :
    (command : ℕ) → is_report command ≡ true → (command == cmd_keep_alive_from_sniffer) ≡ false
unfolding is_report
not_keep_alive command h = ground arith

-- A report with at most 64000 bytes that reaches a client whose queue is empty: client_read_message
-- gives it as it came, if the caller's buffer has room for its bytes, and leaves the queue empty; into a
-- smaller buffer it writes past the end.
pub report_read :
    (capacity command time now : ℕ) (bytes : List ℕ) (h : Handle)
    → h.client.queue ≡ []
    → is_report command ≡ true
    → length bytes ≤ 64000
    → client_read_message capacity
        (some (record h { client = receive_command command time bytes now h.client }))
      ≡ (if leb (length bytes) capacity
          then some (
            message_read (record { command = command; time_ms = time; bytes = bytes }),
            some (record h { client = record (update_last_recv_time now h.client) { queue = [] } }),
          )
          else none)
unfolding client_read_message copied_out receive_command read_message queued update_last_recv_time
report_read capacity command time now bytes h nothing report short =
    rw (not_keep_alive command report, report, nothing, le→leb (length bytes) 64000 short) refl

-- What a program does with a handle between its creation and its destruction, as far as threads go.
pub data Use : Type 0 where
  starts : Bool → Use
  stops : Use

unfoldable pub use_handle : List Use → Option Handle → Option Handle × List Call
use_handle [] h = (h, [])
use_handle (starts udp_started ∷ rest) h =
    let (ok, h', calls) = client_start udp_started h in
    let (last, more) = use_handle rest h' in (last, calls ++ more)
use_handle (stops ∷ rest) h =
    let (h', calls) = client_stop h in
    let (last, more) = use_handle rest h' in (last, calls ++ more)

unfoldable pub thread_start : Call → ℕ
thread_start start_udp = 0
thread_start stop_udp = 0
thread_start start_keep_alive = 1
thread_start join_keep_alive = 0
thread_start delete_udp = 0

unfoldable pub thread_join : Call → ℕ
thread_join start_udp = 0
thread_join stop_udp = 0
thread_join start_keep_alive = 0
thread_join join_keep_alive = 1
thread_join delete_udp = 0

alive : Option Handle → ℕ
alive none = 0
alive (some h) = if h.life.keeps_alive then 1 else 0

-- A keep-alive thread is there only while the client runs.
Sound : Option Handle → Type 0
Sound none = Unit
Sound (some h) = h.life.running ≡ false → h.life.keeps_alive ≡ false

-- The calls of one step account for its change of the thread.
Accounts : Option Handle → Option Handle → List Call → Type 0
Accounts h h' calls =
    (alive h + count thread_start calls ≡ alive h' + count thread_join calls) × Sound h'

client_start-Accounts :
    (udp_started : Bool) (h : Option Handle)
    → Sound h
    → Accounts h (client_start udp_started h).1 (client_start udp_started h).2
unfolding client_start start alive Sound Accounts thread_start thread_join
client_start-Accounts udp_started none s = (refl, tt)
client_start-Accounts udp_started (some h) s = ground arith

client_stop-Accounts :
    (h : Option Handle) → Sound h → Accounts h (client_stop h).0 (client_stop h).1
unfolding client_stop stop alive Sound Accounts thread_start thread_join
client_stop-Accounts none s = (refl, tt)
client_stop-Accounts (some h) s = ground arith

use_handle-Accounts :
    (uses : List Use) (h : Option Handle)
    → Sound h
    → Accounts h (use_handle uses h).0 (use_handle uses h).1
unfolding use_handle Accounts
use_handle-Accounts [] h s = (refl, s)
use_handle-Accounts (starts udp_started ∷ rest) h s =
    let (now, sound) = client_start-Accounts udp_started h s in
    let (later, last) = use_handle-Accounts rest (client_start udp_started h).1 sound in
    (
      omega (
        arith,
        count-append thread_start (client_start udp_started h).2,
        count-append thread_join (client_start udp_started h).2,
      ),
      last,
    )
use_handle-Accounts (stops ∷ rest) h s =
    let (now, sound) = client_stop-Accounts h s in
    let (later, last) = use_handle-Accounts rest (client_stop h).0 sound in
    (
      omega (
        arith,
        count-append thread_start (client_stop h).1,
        count-append thread_join (client_stop h).1,
      ),
      last,
    )

destroy_lem :
    (h : Option Handle)
    → Sound h
    → alive h + count thread_start (client_destroy h) ≡ count thread_join (client_destroy h)
unfolding client_destroy stop alive Sound thread_start thread_join
destroy_lem none s = refl
destroy_lem (some h) s = ground arith

created-Sound :
    (ip : Option (List ℕ)) (remote_port local_port interval : ℕ)
    → Sound (client_create ip remote_port local_port interval)
      × (alive (client_create ip remote_port local_port interval) ≡ 0)
unfolding client_create Sound alive
created-Sound ip remote_port local_port interval = (λ off. refl, refl)

-- The calls of a client's whole life.
unfoldable pub lifetime : List Use → Option Handle → List Call
lifetime uses h = let (last, calls) = use_handle uses h in calls ++ client_destroy last

-- Whatever starts and stops a client gets between client_create and client_destroy, and whether its
-- socket opens: of its keep-alive threads each that was started has been joined.
pub threads_joined :
    (ip : Option (List ℕ)) (remote_port local_port interval : ℕ) (uses : List Use)
    → count thread_start (lifetime uses (client_create ip remote_port local_port interval))
      ≡ count thread_join (lifetime uses (client_create ip remote_port local_port interval))
unfolding lifetime Accounts
threads_joined ip remote_port local_port interval uses =
    let created = client_create ip remote_port local_port interval in
    let (sound, none_yet) = created-Sound ip remote_port local_port interval in
    let (used, last) = use_handle-Accounts uses created sound in
    let ended = destroy_lem (use_handle uses created).0 last in
    let calls = (use_handle uses created).1 in
    omega (arith, count-append thread_start calls, count-append thread_join calls)
