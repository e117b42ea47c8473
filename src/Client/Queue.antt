-- ===== src/Client/Queue.antt =====
-- The queue between the receiver's thread and readMessage.
use ksg_canbus_rpi_sniffer.Prelude.{
  ℕ, ◌≡◌, sym, ◌∙◌, Bool-cases, inl, inr, List, [], ◌∷◌, ◌++◌, if◌then◌else◌, arith,
}
use mathlib.Core.List.{append-nil, append_assoc}
use ksg_canbus_rpi_sniffer.Client.Receive.{
  QueuedMessage, Client, is_report, queued, keep_status, update_last_recv_time, receive_command,
}

-- What the sniffer sends: command, time and payload, and the clock when it comes in.
pub record Arrival : Type 0 where
  pub command : ℕ
  pub time : ℕ
  pub bytes : List ℕ
  pub now : ℕ

unfoldable pub receive_all : List Arrival → Client → Client
receive_all [] c = c
receive_all (a ∷ rest) c = receive_all rest (receive_command a.command a.time a.bytes a.now c)

-- The messages of the arrivals that are reports, in order.
unfoldable pub reports : List Arrival → List QueuedMessage
reports [] = []
reports (a ∷ rest) =
    if is_report a.command then queued a.command a.time a.bytes ∷ reports rest else reports rest

queue-keep_status : (bytes : List ℕ) (c : Client) → (keep_status bytes c).queue ≡ c.queue
unfolding keep_status
queue-keep_status bytes c = ground arith

queue-receive_command :
    (a : Arrival) (c : Client)
    → (receive_command a.command a.time a.bytes a.now c).queue
      ≡ (if is_report a.command then c.queue ++ (queued a.command a.time a.bytes ∷ []) else c.queue)
unfolding receive_command update_last_recv_time is_report keep_status
queue-receive_command a c = ground arith

-- The queue gets every report that comes in, and nothing else, in the order of arrival.
pub queue-receive_all :
    (arrivals : List Arrival) (c : Client)
    → (receive_all arrivals c).queue ≡ c.queue ++ reports arrivals
unfolding receive_all reports
queue-receive_all [] c = sym (append-nil c.queue)
queue-receive_all (a ∷ rest) c =
    queue-receive_all rest (receive_command a.command a.time a.bytes a.now c)
    ∙ rw (queue-receive_command a c) (elim (Bool-cases (is_report a.command)) [
      | inl e ↦ rw e (append_assoc c.queue _ _)
      | inr e ↦ rw e
    ])
