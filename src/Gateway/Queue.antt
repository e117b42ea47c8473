-- ===== src/Gateway/Queue.antt =====
-- What a burst of datagrams leaves behind: the frames wait in order, and the last sender is noted. A
-- datagram without bytes leaves nothing.
use ksg_canbus_rpi_sniffer.Prelude.{
  ℕ, ◌+◌, ◌<◌, ◌≡◌, refl, ap, sym, ◌∙◌, Bool, true, Option, none, some, List, [], ◌∷◌, ◌++◌, subst,
  length, length-append, arith,
}
use mathlib.Core.List.{append-nil, append_assoc}
use ksg_canbus_rpi_sniffer.Protocol.Udp.{received}
use ksg_canbus_rpi_sniffer.Cache.Ring
use ksg_canbus_rpi_sniffer.Cache.Ring.{Cache, Frame, Reply, work, look, sees}
use ksg_canbus_rpi_sniffer.Cache.Buffer
use ksg_canbus_rpi_sniffer.Cache.Buffer.{Buffer}
use ksg_canbus_rpi_sniffer.Cache.Rep.{Rep}
use ksg_canbus_rpi_sniffer.Cache.Pushes.{push_refines}
use ksg_canbus_rpi_sniffer.Cache.Refine.{work_refines, look_refines}
use ksg_canbus_rpi_sniffer.Sockets.Udp.{Address, from, read, read_open, read_datagram}
use ksg_canbus_rpi_sniffer.Gateway.{Gateway, arrives, cached}

-- Senders with their datagrams, as they arrive.
unfoldable pub arrive_all : List (Address × List ℕ) → Gateway → Gateway
arrive_all [] g = g
arrive_all ((sender, datagram) ∷ rest) g = arrive_all rest (arrives (from sender datagram) g)

abbrev pub last_sender : Option Address → List (Address × List ℕ) → Option Address
last_sender known [] = known
last_sender known ((sender, []) ∷ rest) = last_sender known rest
last_sender known ((sender, b ∷ datagram) ∷ rest) = last_sender (some sender) rest

abbrev pub frames_of : List (Address × List ℕ) → List Frame
frames_of [] = []
frames_of ((sender, []) ∷ rest) = frames_of rest
frames_of ((sender, b ∷ datagram) ∷ rest) = received (b ∷ datagram) ∷ frames_of rest

abbrev pub push_all : List Frame → Cache → Cache
push_all [] c = c
push_all (f ∷ fs) c = push_all fs (Ring.push c f).1

-- The gateway with another note of the sender, and another cache.
abbrev pub noted : Gateway → Option Address → Cache → Gateway
noted g known cache = record g {
  external_service = record g.external_service { last_sender = known };
  cache = cache;
}

arrives_from :
    (fd b : ℕ) (sender : Address) (datagram : List ℕ) (known : Option Address) (cache : Cache)
    (g : Gateway)
    → g.connected ≡ true
    → g.external_service.socket_fd ≡ some fd
    → arrives (from sender (b ∷ datagram)) (noted g known cache)
      ≡ noted g (some sender) (Ring.push cache (received (b ∷ datagram))).1
unfolding arrives cached read read_open read_datagram
arrives_from fd b sender datagram known cache g up held = rw (up, held) refl

arrives_empty :
    (fd : ℕ) (sender : Address) (known : Option Address) (cache : Cache) (g : Gateway)
    → g.connected ≡ true
    → g.external_service.socket_fd ≡ some fd
    → arrives (from sender []) (noted g known cache) ≡ noted g known cache
unfolding arrives cached read read_open read_datagram
arrives_empty fd sender known cache g up held = rw (up, held) refl

pub arrive_all_lem :
    (fd : ℕ) (burst : List (Address × List ℕ)) (known : Option Address) (cache : Cache)
    (g : Gateway)
    → g.connected ≡ true
    → g.external_service.socket_fd ≡ some fd
    → arrive_all burst (noted g known cache)
      ≡ noted g (last_sender known burst) (push_all (frames_of burst) cache)
unfolding arrive_all
arrive_all_lem fd [] known cache g up held = refl
arrive_all_lem fd ((sender, []) ∷ rest) known cache g up held =
    ap (arrive_all rest) (arrives_empty fd sender known cache g up held)
    ∙ arrive_all_lem fd rest known cache g up held
arrive_all_lem fd ((sender, b ∷ datagram) ∷ rest) known cache g up held =
    ap (arrive_all rest) (arrives_from fd b sender datagram known cache g up held)
    ∙ arrive_all_lem fd rest (some sender) (Ring.push cache (received (b ∷ datagram))).1 g up held

-- Pushes into an idle ring with room for them.
buffer_push :
    (b : Buffer) (frame : Frame)
    → b.busy ≡ none
    → length b.waiting + 1 < b.cap
    → Buffer.push b frame ≡ (true, record b { waiting = b.waiting ++ (frame ∷ []) })
unfolding Buffer.push
buffer_push b frame e h = ground arith

push-Rep :
    (frame : Frame) (b : Buffer) {c : Cache}
    → Rep c b
    → b.busy ≡ none
    → length b.waiting + 1 < b.cap
    → Rep (Ring.push c frame).1 (record b { waiting = b.waiting ++ (frame ∷ []) })
push-Rep frame b {c} r e h =
    subst (λ (x : Bool × Buffer). Rep (Ring.push c frame).1 x.1) (buffer_push b frame e h)
      (push_refines frame r).1

pub push_all-Rep :
    (fs : List Frame) (b : Buffer) {c : Cache}
    → Rep c b
    → b.busy ≡ none
    → length b.waiting + length fs < b.cap
    → Rep (push_all fs c) (record b { waiting = b.waiting ++ fs })
push_all-Rep [] b {c} r e h =
    subst (λ ws. Rep c (record b { waiting = ws })) (sym (append-nil b.waiting)) r
push_all-Rep (f ∷ fs) b {c} r e h =
    subst (λ ws. Rep (push_all (f ∷ fs) c) (record b { waiting = ws }))
      (append_assoc b.waiting (f ∷ []) fs)
      (push_all-Rep fs (record b { waiting = b.waiting ++ (f ∷ []) })
        (push-Rep f b r e (omega arith)) e (omega (arith, length-append b.waiting (f ∷ []))))

-- An idle ring over an empty buffer gets a burst that it has room for, and the worker takes the first
-- frame, which the callback sees.
pub first_seen :
    (f : Frame) (fs : List Frame) (b : Buffer) {c : Cache}
    → Rep c b
    → b.busy ≡ none
    → b.waiting ≡ []
    → length fs + 1 < b.cap
    → look (work true (push_all (f ∷ fs) c)).1 ≡ sees f
unfolding Buffer.work Buffer.look
first_seen f fs b {c} r e nothing h =
    let queued = push_all-Rep (f ∷ fs) b r e (omega (arith, ap length nothing)) in
    look_refines (work_refines true queued).1 ∙ rw (e, nothing) refl
