-- ===== src/Cache/Rep.antt =====
-- When a block ring stands for a buffer, and the changes of state that keep it so.
use ksg_canbus_rpi_sniffer.Prelude.{
  ℕ, suc, ◌+◌, ◌%◌, ◌≤◌, ◌<◌, ◌≡◌, ◌≢◌, refl, sym, ap, ◌∙◌, none, some, List, [], ◌∷◌, ◌++◌, ◌==◌,
  if◌then◌else◌, length, length-set, length-append, get_or, set, get_or-set_ne, arith,
}
use ksg_canbus_rpi_sniffer.Cache.Ring.{Cache, Frame}
use ksg_canbus_rpi_sniffer.Cache.Buffer.{Buffer}
use ksg_canbus_rpi_sniffer.Cache.Modular.{mod_once}
use ksg_canbus_rpi_sniffer.Cache.Window.{window, window-set}

-- The block of a running callback lies just before the oldest waiting frame, and holds its frame.
pub record Held (c : Cache) (b : Buffer) (p : ℕ) : Type 0 where
  pub in_ring : p < c.num_blocks
  pub before : c.tail ≡ (p + 1) % c.num_blocks
  pub frame : b.busy ≡ some (get_or c.blocks p [])
  pub room : length b.waiting + 2 ≤ c.num_blocks

-- A ring with its indices inside, and the buffer that it stands for.
pub record Rep (c : Cache) (b : Buffer) : Type 0 where
  pub two : 2 ≤ c.num_blocks
  pub cap : b.cap ≡ c.num_blocks
  pub storage : length c.blocks ≡ c.num_blocks
  pub tail_in : c.tail < c.num_blocks
  pub short : length b.waiting < c.num_blocks
  pub head_at : c.head ≡ (c.tail + length b.waiting) % c.num_blocks
  pub frames : b.waiting ≡ window c.num_blocks c.blocks c.tail (length b.waiting)
  pub idle : c.processing_index ≡ none → b.busy ≡ none
  pub held : (p : ℕ) → c.processing_index ≡ some p → Held c b p

module _ {c : Cache} {b : Buffer} (r : Rep c b) where
  pub head_in : c.head < c.num_blocks
  head_in = ground (arith, mod_once c.num_blocks c.tail (length b.waiting), r)

  -- Where the next head falls: on the tail just when the queue is full.
  pub next_head : (c.head + 1) % c.num_blocks ≡ (
      if length b.waiting + 1 == c.num_blocks
      then c.tail
      else (c.tail + (length b.waiting + 1)) % c.num_blocks)
  next_head = ground (
    arith,
    mod_once c.num_blocks c.tail (length b.waiting),
    mod_once c.num_blocks c.tail (length b.waiting + 1),
    mod_once c.num_blocks c.head 1,
    r,
  )

  pub full_iff : ((c.head + 1) % c.num_blocks == c.tail) ≡ (length b.waiting + 1 == c.num_blocks)
  full_iff = ground (arith, next_head, mod_once c.num_blocks c.tail (length b.waiting + 1), r)

append_frames :
    (n : ℕ) (blocks ws : List Frame) (frame : Frame) (t h : ℕ)
    → length blocks ≡ n
    → t < n
    → length ws < n
    → h ≡ (t + length ws) % n
    → ws ≡ window n blocks t (length ws)
    → ws ++ (frame ∷ []) ≡ window n (set blocks h frame) t (length (ws ++ (frame ∷ [])))
append_frames n blocks ws frame t h hl ht hk hh e =
    let one_more : length (ws ++ (frame ∷ [])) ≡ suc (length ws) =
      omega (arith, length-append ws (frame ∷ [])) in
    rw one_more
      (ap (λ l. l ++ (frame ∷ [])) e ∙ sym (window-set n blocks frame (length ws) t h hl ht hk hh))

module _ {c : Cache} {b : Buffer} (frame : Frame) (r : Rep c b) where
  -- The state after a push that takes the frame and keeps the tail.
  abbrev pub extended : Cache
  extended = record c { blocks = set c.blocks c.head frame; head = (c.head + 1) % c.num_blocks }

  abbrev pub extended_buffer : Buffer
  extended_buffer = record b { waiting = b.waiting ++ (frame ∷ []) }

  extended_held :
      (p : ℕ)
      → length b.waiting + 1 < c.num_blocks
      → (c.processing_index ≡ some p → length b.waiting + 3 ≤ c.num_blocks)
      → c.processing_index ≡ some p
      → Held extended extended_buffer p
  extended_held p room gap e =
      let h = r.held p e in
      let apart : c.head ≢ p =
        ground (
          arith,
          r,
          h,
          mod_once c.num_blocks p 1,
          mod_once c.num_blocks c.tail (length b.waiting),
        ) in
      record {
        in_ring = h.in_ring;
        before = h.before;
        frame = h.frame ∙ ap some (sym (get_or-set_ne c.blocks frame [] apart));
        room = omega (arith, gap e, length-append b.waiting (frame ∷ []));
      }

  pub extended-Rep :
      length b.waiting + 1 < c.num_blocks
      → ((p : ℕ) → c.processing_index ≡ some p → length b.waiting + 3 ≤ c.num_blocks)
      → Rep extended extended_buffer
  extended-Rep room gap = record {
    two = r.two;
    cap = r.cap;
    storage = length-set c.blocks c.head frame ∙ r.storage;
    tail_in = r.tail_in;
    short = omega (arith, length-append b.waiting (frame ∷ []));
    head_at = ground (arith, next_head r, length-append b.waiting (frame ∷ []), room);
    frames =
        append_frames c.num_blocks c.blocks b.waiting frame c.tail c.head r.storage r.tail_in
          r.short r.head_at r.frames;
    idle = r.idle;
    held = λ p e. extended_held p room (gap p) e;
  }

module _ {c : Cache} {b : Buffer} (r : Rep c b) (w : Frame) (ws : List Frame) where
  oldest : b.waiting ≡ w ∷ ws → w ≡ get_or c.blocks c.tail []
  oldest e = ground (arith, r.frames, e)

  later :
      b.waiting ≡ w ∷ ws
      → ws ≡ window c.num_blocks c.blocks ((c.tail + 1) % c.num_blocks) (length ws)
  later e = ground (arith, r.frames, e)

  head_after :
      b.waiting ≡ w ∷ ws → c.head ≡ ((c.tail + 1) % c.num_blocks + length ws) % c.num_blocks
  head_after e =
      let n : length b.waiting ≡ suc (length ws) = ap length e in
      ground (
        arith,
        r,
        n,
        mod_once c.num_blocks c.tail 1,
        mod_once c.num_blocks c.tail (length b.waiting),
        mod_once c.num_blocks ((c.tail + 1) % c.num_blocks) (length ws),
      )

  -- The oldest frame is let go while no callback runs.
  pub shrunk_Rep :
      b.waiting ≡ w ∷ ws
      → c.processing_index ≡ none
      → Rep (record c { tail = (c.tail + 1) % c.num_blocks }) (record b { waiting = ws })
  shrunk_Rep e none_now = record {
    two = r.two;
    cap = r.cap;
    storage = r.storage;
    tail_in = ground (arith, r, mod_once c.num_blocks c.tail 1);
    short = omega (arith, r.short, ap length e);
    head_at = head_after e;
    frames = later e;
    idle = r.idle;
    held = λ p q. cc (none_now, q);
  }

  taken :
      b.waiting ≡ w ∷ ws
      → (p : ℕ) → p ≡ c.tail
      → Held
          (record c { processing_index = some c.tail; tail = (c.tail + 1) % c.num_blocks })
          (record b { waiting = ws; busy = some w })
          p
  taken e p at = record {
    in_ring = omega (arith, at, r.tail_in);
    before = ap (λ x. (x + 1) % c.num_blocks) (sym at);
    frame = ap some (oldest e ∙ ap (λ x. get_or c.blocks x []) (sym at));
    room = omega (arith, r.short, ap length e);
  }

  -- The oldest frame goes to the callback.
  pub begun_Rep :
      b.waiting ≡ w ∷ ws
      → Rep
          (record c { processing_index = some c.tail; tail = (c.tail + 1) % c.num_blocks })
          (record b { waiting = ws; busy = some w })
  begun_Rep e = record {
    two = r.two;
    cap = r.cap;
    storage = r.storage;
    tail_in = ground (arith, r, mod_once c.num_blocks c.tail 1);
    short = omega (arith, r.short, ap length e);
    head_at = head_after e;
    frames = later e;
    idle = λ q. cc q;
    held = λ p q. taken e p (cc q);
  }

pub ended_Rep :
    {c : Cache} {b : Buffer}
    → Rep c b
    → Rep (record c { processing_index = none }) (record b { busy = none })
ended_Rep r = record {
  two = r.two;
  cap = r.cap;
  storage = r.storage;
  tail_in = r.tail_in;
  short = r.short;
  head_at = r.head_at;
  frames = r.frames;
  idle = λ q. refl;
  held = λ p q. cc q;
}
