-- ===== src/Cache/Refine.antt =====
-- The block ring implements the bounded buffer, frame by frame and under every interleaving.
use ksg_canbus_rpi_sniffer.Prelude.{
  ℕ, ◌+◌, ◌%◌, ◌≡◌, refl, ap, ◌∙◌, inl, inr, Bool, true, false, none, some, Option-cases, List, [],
  ◌∷◌, ◌==◌, if◌then◌else◌, length, length-replicate, arith,
}
use mathlib.Core.Path.{ap₂}
use ksg_canbus_rpi_sniffer.Cache.Ring
use ksg_canbus_rpi_sniffer.Cache.Ring.{
  Cache, Frame, Event, pushes, works, looks, Reply, pushed, waits, exits, begins, ends, init,
  num_blocks_for, block_size_for,
}
use ksg_canbus_rpi_sniffer.Cache.Buffer
use ksg_canbus_rpi_sniffer.Cache.Buffer.{Buffer, rest, begin}
use ksg_canbus_rpi_sniffer.Cache.Modular.{mod_once}
use ksg_canbus_rpi_sniffer.Cache.Rep.{Rep, begun_Rep, ended_Rep}
use ksg_canbus_rpi_sniffer.Cache.Pushes.{List-cases, push_refines}

-- A worker step answers as the buffer does, and leaves the ring standing for the buffer after it.
abbrev Worked : Bool → Cache → Buffer → Type 0
Worked running c b =
    ((Ring.work running c).0 ≡ (Buffer.work running b).0)
    × Rep (Ring.work running c).1 (Buffer.work running b).1

Worked-by :
    (running : Bool) (c c' : Cache) (b b' : Buffer) (reply : Reply)
    → Ring.work running c ≡ (reply, c')
    → Buffer.work running b ≡ (reply, b')
    → Rep c' b'
    → Worked running c b
Worked-by running c c' b b' reply e f h = rw (e, f) (refl, h)

empty_iff : {c : Cache} {b : Buffer} → Rep c b → (c.head == c.tail) ≡ (length b.waiting == 0)
empty_iff {c} {b} r = ground (arith, r, mod_once c.num_blocks c.tail (length b.waiting))

ring_idle :
    (running : Bool) (c : Cache)
    → c.processing_index ≡ none
    → Ring.work running c ≡ (
        if running
        then (if c.head == c.tail then (waits, c) else (
          begins,
          record c { processing_index = some c.tail; tail = (c.tail + 1) % c.num_blocks },
        ))
        else (exits, c))
unfolding Ring.work
ring_idle running c e = ground arith

buffer_idle :
    (running : Bool) (b : Buffer)
    → b.busy ≡ none
    → Buffer.work running b ≡ (if running then begin b b.waiting else (exits, b))
unfolding Buffer.work
buffer_idle running b e = ground arith

ring_ends :
    (running : Bool) (c : Cache) (p : ℕ)
    → c.processing_index ≡ some p
    → Ring.work running c ≡ (ends, record c { processing_index = none })
unfolding Ring.work
ring_ends running c p e = ground arith

buffer_ends :
    (running : Bool) (b : Buffer) (f : Frame)
    → b.busy ≡ some f
    → Buffer.work running b ≡ (ends, record b { busy = none })
unfolding Buffer.work
buffer_ends running b f e = ground arith

work_idle :
    {c : Cache} {b : Buffer} (running : Bool)
    → Rep c b
    → c.processing_index ≡ none
    → Worked running c b
work_idle {c} {b} false r e =
    Worked-by false c c b b exits (ring_idle false c e) (buffer_idle false b (r.idle e)) r
work_idle {c} {b} true r e = elim (List-cases b.waiting) [
  | inl nothing ↦
      Worked-by true c c b b waits (ring_idle true c e ∙ rw (empty_iff r, nothing))
        (buffer_idle true b (r.idle e) ∙ ap (begin b) nothing) r
  | inr (w, ws, split) ↦
      Worked-by true c _ b _ begins (ring_idle true c e ∙ rw (empty_iff r, split) (ground arith))
        (buffer_idle true b (r.idle e) ∙ ap (begin b) split) (begun_Rep r w ws split)
]

pub work_refines : {c : Cache} {b : Buffer} (running : Bool) → Rep c b → Worked running c b
work_refines {c} {b} running r = elim (Option-cases c.processing_index) [
  | inl e ↦ work_idle running r e
  | inr (p, e) ↦
      Worked-by running c _ b _ ends (ring_ends running c p e)
        (buffer_ends running b _ (r.held p e).frame) (ended_Rep r)
]

pub look_refines : {c : Cache} {b : Buffer} → Rep c b → Ring.look c ≡ Buffer.look b
unfolding Ring.look Buffer.look
look_refines {c} {b} r = elim (Option-cases c.processing_index) [
  | inl e ↦ ground (arith, r.idle e)
  | inr (p, e) ↦ ground (arith, (r.held p e).frame)
]

-- From any state that stands for a buffer, no interleaving of pushes, worker steps and reads by the
-- callback tells the ring from the buffer: the same frames are taken, dropped and seen, in order.
pub run_refines :
    (events : List Event) {c : Cache} {b : Buffer}
    → Rep c b
    → Ring.run c events ≡ Buffer.run b events
unfolding Ring.run Buffer.run
run_refines [] r = refl
run_refines (pushes frame ∷ events) r =
    let (answer, after) = push_refines frame r in
    ap₂ (λ x y. pushed x ∷ y) answer (run_refines events after)
run_refines (works running ∷ events) r =
    let (answer, after) = work_refines running r in ap₂ ◌∷◌ answer (run_refines events after)
run_refines (looks ∷ events) r = ap₂ ◌∷◌ (look_refines r) (run_refines events r)

-- The empty buffer over as many blocks as the constructor makes.
abbrev pub empty : ℕ → ℕ → Buffer
empty total_size max_frame_size = record {
  cap = num_blocks_for total_size (block_size_for max_frame_size);
  waiting = [];
  busy = none;
}

pub init-Rep :
    (total_size max_frame_size : ℕ)
    → Rep (init total_size max_frame_size) (empty total_size max_frame_size)
unfolding init num_blocks_for
init-Rep total_size max_frame_size = record {
  two = ground arith;
  cap = refl;
  storage = length-replicate _ [];
  tail_in = ground arith;
  short = ground arith;
  head_at = ground arith;
  frames = refl;
  idle = λ e. refl;
  held = λ p e. absurd (cc e);
}

-- A cache fresh from its constructor behaves as the empty bounded buffer of its blocks under every
-- interleaving of the two threads: a buffer that never touches the frame that the callback holds, and
-- when full drops the oldest frame, or while the callback is busy refuses the new one.
pub run-init :
    (total_size max_frame_size : ℕ) (events : List Event)
    → Ring.run (init total_size max_frame_size) events
      ≡ Buffer.run (empty total_size max_frame_size) events
run-init total_size max_frame_size events = run_refines events (init-Rep total_size max_frame_size)
