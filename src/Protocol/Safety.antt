-- ===== src/Protocol/Safety.antt =====
-- What the listeners are called with comes from the packet alone. The block in which a packet stands
-- still holds bytes of earlier packets behind it.
use ksg_canbus_rpi_sniffer.Prelude.{
  ℕ, zero, suc, ◌+◌, ◌≤◌, ◌<◌, ◌≡◌, refl, sym, ◌∙◌, ap, inl, inr, Bool, List, [], ◌∷◌, ◌++◌, leb,
  if◌then◌else◌, Bool-cases, length, take, drop, take-drop-append, arith,
}
use native.Mathlib.Decide.{dec_lt}
use ksg_canbus_rpi_sniffer.Prelude.Bytes.{field}
use ksg_canbus_rpi_sniffer.Protocol.Message.{
  view_v1, Outcome, delivered, dropped, on_data, incomplete_canfd, strncmp_eq, callbacks, magic_v1,
  magic_canfd, message_size,
}
use ksg_canbus_rpi_sniffer.Protocol.Udp.{process_packet, process_v1, process_canfd}

field-append_inside :
    (o w : ℕ) (packet stale : List ℕ)
    → o + w ≤ length packet
    → field o w (packet ++ stale) ≡ field o w packet
unfolding field
field-append_inside o w packet stale h = rw (take-drop-append o w packet stale h)

strncmp-append :
    (n : ℕ) (packet stale lit : List ℕ)
    → n ≤ length packet
    → strncmp_eq n (packet ++ stale) lit ≡ strncmp_eq n packet lit
unfolding strncmp_eq
strncmp-append zero packet stale lit h = refl
strncmp-append (suc n) [] stale lit h = absurd (omega arith)
strncmp-append (suc n) (x ∷ packet) stale [] h = refl
strncmp-append (suc n) (x ∷ packet) stale (y ∷ lit) h =
    ground (arith, strncmp-append n packet stale lit)

-- The message seen in a packet that holds a header and as many bytes as it announces.
view_v1-append :
    (packet stale : List ℕ)
    → 152 ≤ length packet
    → message_size (view_v1 packet).data_size ≤ length packet
    → view_v1 (packet ++ stale) ≡ view_v1 packet
unfolding view_v1
view_v1-append packet stale h fits = rw (
  field-append_inside 8 4 packet stale (omega arith),
  field-append_inside 12 8 packet stale (omega arith),
  field-append_inside 148 4 packet stale (omega arith),
  take-drop-append 152 (field 148 4 packet) packet stale fits,
)

data_size-append :
    (packet stale : List ℕ)
    → 152 ≤ length packet
    → (view_v1 (packet ++ stale)).data_size ≡ (view_v1 packet).data_size
unfolding view_v1
data_size-append packet stale h = field-append_inside 148 4 packet stale (omega arith)

process_v1-append :
    (has_listener : Bool) (packet stale : List ℕ)
    → process_v1 has_listener (packet ++ stale) (length packet)
      ≡ process_v1 has_listener packet (length packet)
unfolding process_v1
process_v1-append has_listener packet stale =
    ground (arith, data_size-append packet stale, view_v1-append packet stale)

-- The CAN FD branch for any sizes.
canfd_branch :
    (o n c : ℕ) (packet stale : List ℕ) (other : Outcome)
    → o + n ≤ c
    → (if leb c (length packet)
        then delivered (on_data (take n (drop o (packet ++ stale))) ∷ [])
        else other)
      ≡ (if leb c (length packet) then delivered (on_data (take n (drop o packet)) ∷ []) else other)
canfd_branch o n c packet stale other h = elim (Bool-cases (leb c (length packet))) [
  | inl e ↦
      let inside : o + n ≤ length packet = ground arith in
      rw (take-drop-append o n packet stale inside)
  | inr e ↦ rw e
]

process_canfd-append :
    (packet stale : List ℕ)
    → process_canfd (packet ++ stale) (length packet) ≡ process_canfd packet (length packet)
unfolding process_canfd
process_canfd-append packet stale =
    canfd_branch 4 72 76 packet stale (dropped incomplete_canfd) (omega arith)

-- A packet shorter than either message is dropped.
short_packet :
    (has_listener : Bool) (mem : List ℕ) (len : ℕ)
    → len < 76
    → callbacks (process_packet has_listener mem len) ≡ []
unfolding process_packet process_v1 process_canfd
short_packet has_listener mem len h = ground arith

long_packet :
    (has_listener : Bool) (packet stale : List ℕ)
    → 76 ≤ length packet
    → process_packet has_listener (packet ++ stale) (length packet)
      ≡ process_packet has_listener packet (length packet)
unfolding process_packet
long_packet has_listener packet stale h = rw (
  strncmp-append 5 packet stale magic_v1 (omega arith),
  strncmp-append 4 packet stale magic_canfd (omega arith),
  process_v1-append has_listener packet stale,
  process_canfd-append packet stale,
)

-- The callbacks for a packet are those for its own bytes, whatever stands behind it in memory.
pub process_packet-append :
    (has_listener : Bool) (packet stale : List ℕ)
    → callbacks (process_packet has_listener (packet ++ stale) (length packet))
      ≡ callbacks (process_packet has_listener packet (length packet))
process_packet-append has_listener packet stale = elim (dec_lt (length packet) 76) [
  | yes short ↦
      short_packet has_listener (packet ++ stale) (length packet) short
      ∙ sym (short_packet has_listener packet (length packet) short)
  | no long ↦ ap callbacks (long_packet has_listener packet stale (omega arith))
]
