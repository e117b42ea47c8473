-- ===== src/Client/Handles.antt =====
-- The C functions on a client's handle (external_server/include/sniffer_client.h, at the end of
-- external_server/src/sniffer_client.cpp), and the Android binding on top of them
-- (external_server/android/app/src/main/cpp/native-lib.cpp). `none` as a handle is the null pointer.
use ksg_canbus_rpi_sniffer.Prelude.{
  ℕ, ◌%◌, ◌^◌, Bool, false, Option, none, some, List, [], ◌∷◌, ◌++◌, leb, if◌then◌else◌, length,
}
use ksg_canbus_rpi_sniffer.Filter.Rule.{CanFilterRule}
use ksg_canbus_rpi_sniffer.Sockets.Udp
use ksg_canbus_rpi_sniffer.Sockets.Udp.{UdpCommunication}
use ksg_canbus_rpi_sniffer.Client.Receive.{Client, QueuedMessage, read_message}
use ksg_canbus_rpi_sniffer.Client.Api
use ksg_canbus_rpi_sniffer.Client.Api.{
  Call, delete_udp, Life, idle, start, stop, send_raw_command, set_logging_enabled,
  get_sniffer_status, send_injection, set_filters,
}

pub record Handle : Type 0 where
  pub client : Client
  pub life : Life
  pub udp : UdpCommunication

-- client_create, with SnifferClient's constructor
unfoldable pub client_create : Option (List ℕ) → ℕ → ℕ → ℕ → Option Handle
client_create ip remote_port local_port keep_alive_interval_ms = some (record {
  client = Api.client keep_alive_interval_ms;
  life = idle;
  udp = Udp.construct ip remote_port local_port;
})

-- client_start; `false` is -1.
unfoldable pub client_start : Bool → Option Handle → Bool × Option Handle × List Call
client_start udp_started none = (false, none, [])
client_start udp_started (some h) =
    let (ok, life, calls) = start h.client udp_started h.life in
    (ok, some (record h { life = life }), calls)

unfoldable pub client_stop : Option Handle → Option Handle × List Call
client_stop none = (none, [])
client_stop (some h) = let (life, calls) = stop h.life in (some (record h { life = life }), calls)

-- client_destroy, with SnifferClient's destructor
unfoldable pub client_destroy : Option Handle → List Call
client_destroy none = []
client_destroy (some h) = (stop h.life).1 ++ (delete_udp ∷ [])

unfoldable pub client_is_connected : Option Handle → Bool
client_is_connected none = false
client_is_connected (some h) = h.client.is_connected

unfoldable pub client_get_sniffer_status : ℕ → Option Handle → Option (List ℕ)
client_get_sniffer_status buf_size none = none
client_get_sniffer_status buf_size (some h) = get_sniffer_status buf_size h.client

-- A command that was sent: what stays of the handle, and the datagram, if a datagram was made.
unfoldable pub sent_by : Handle → Client × Option (List ℕ) → Option Handle × Option (List ℕ)
sent_by h (client, datagram) = (some (record h { client = client }), datagram)

unfoldable pub client_send_log_enable : Bool → ℕ → Option Handle → Option Handle × Option (List ℕ)
unfolding sent_by
client_send_log_enable enable sent none = (none, none)
client_send_log_enable enable sent (some h) = sent_by h (set_logging_enabled enable sent h.client)

unfoldable pub client_send_injection :
    ℕ → ℕ → List ℕ → ℕ → Option Handle → Option Handle × Option (List ℕ)
unfolding sent_by
client_send_injection target can_id bytes sent none = (none, none)
client_send_injection target can_id bytes sent (some h) =
    sent_by h (send_injection target can_id bytes sent h.client)

unfoldable pub client_set_filters :
    List CanFilterRule → ℕ → Option Handle → Option Handle × Option (List ℕ)
unfolding sent_by
client_set_filters rules sent none = (none, none)
client_set_filters rules sent (some h) = sent_by h (set_filters rules sent h.client)

unfoldable pub client_send_raw_command :
    ℕ → List ℕ → ℕ → Option Handle → Option Handle × Option (List ℕ)
unfolding sent_by
client_send_raw_command command_id payload sent none = (none, none)
client_send_raw_command command_id payload sent (some h) =
    sent_by h (send_raw_command command_id payload sent h.client)

-- What client_read_message returns: -1, 0, or 1 with the message that it has copied out.
pub data ReadMessage : Type 0 where
  no_handle nothing_queued : ReadMessage
  message_read : QueuedMessage → ReadMessage

-- All four pointers are given. `capacity` is the size of the caller's data; `none` is a memcpy past it.
unfoldable pub copied_out :
    ℕ → Handle → Option QueuedMessage × Client → Option (ReadMessage × Option Handle)
copied_out capacity h (none, client) = some (nothing_queued, some (record h { client = client }))
copied_out capacity h (some msg, client) =
    if leb (length msg.bytes) capacity
    then some (message_read msg, some (record h { client = client }))
    else none

unfoldable pub client_read_message : ℕ → Option Handle → Option (ReadMessage × Option Handle)
unfolding copied_out
client_read_message capacity none = some (no_handle, none)
client_read_message capacity (some h) = copied_out capacity h (read_message h.client)

-- The binding: a jint is given by its 32 bits, a handle as the pointer that it is; the strings and
-- arrays of Java are copied in and out whole.
unfoldable pub jni_client_create : List ℕ → ℕ → ℕ → ℕ → Option Handle
jni_client_create ip remote_port local_port keep_alive_ms =
    client_create (some ip) (remote_port % 2 ^ 16) (local_port % 2 ^ 16) (keep_alive_ms % 2 ^ 32)

unfoldable pub jni_client_start : Bool → Option Handle → Bool × Option Handle × List Call
jni_client_start udp_started h = client_start udp_started h

unfoldable pub jni_client_stop : Option Handle → Option Handle × List Call
jni_client_stop h = client_stop h

unfoldable pub jni_client_destroy : Option Handle → List Call
jni_client_destroy h = client_destroy h

unfoldable pub jni_client_is_connected : Option Handle → Bool
jni_client_is_connected h = client_is_connected h

-- The buffer of clientGetSnifferStatus holds 1024 bytes.
unfoldable pub jni_client_get_sniffer_status : Option Handle → Option (List ℕ)
jni_client_get_sniffer_status h = client_get_sniffer_status 1024 h

-- `data'` is the Java array that the message is read into.
unfoldable pub jni_client_read_message :
    List ℕ → Option Handle → Option (ReadMessage × Option Handle)
jni_client_read_message data' h = client_read_message (length data') h

unfoldable pub jni_client_send_raw_command :
    ℕ → Option (List ℕ) → ℕ → Option Handle → Option Handle × Option (List ℕ)
jni_client_send_raw_command command_id none sent h =
    client_send_raw_command (command_id % 2 ^ 32) [] sent h
jni_client_send_raw_command command_id (some payload) sent h =
    client_send_raw_command (command_id % 2 ^ 32) payload sent h
