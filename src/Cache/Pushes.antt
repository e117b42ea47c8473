-- ===== src/Cache/Pushes.antt =====
-- CacheManager::push against the push of the buffer, case by case.
use ksg_canbus_rpi_sniffer.Prelude.{
  ℕ, ◌+◌, ◌%◌, ◌≤◌, ◌<◌, ◌≡◌, ◌≢◌, refl, ap, ◌∙◌, inl, inr, Bool, true, false, none, some,
  Option-cases, ◌⊎◌, List, [], ◌∷◌, ◌++◌, ◌==◌, Bool-cases, if◌then◌else◌, length, set, arith,
}
use native.Mathlib.Decide.{dec_lt}
use ksg_canbus_rpi_sniffer.Cache.Ring
use ksg_canbus_rpi_sniffer.Cache.Ring.{
  Cache, Frame, Event, pushes, works, looks, Reply, pushed, waits, exits, begins, ends,
  is_processing,
}
use ksg_canbus_rpi_sniffer.Cache.Buffer
use ksg_canbus_rpi_sniffer.Cache.Buffer.{Buffer, rest, begin}
use ksg_canbus_rpi_sniffer.Cache.Modular.{mod_once}
use ksg_canbus_rpi_sniffer.Cache.Rep.{Rep, next_head, full_iff, extended, extended-Rep, shrunk_Rep}

pub List-cases {ℓ} :
    {A : Type ℓ} (xs : List A) → (xs ≡ []) ⊎ ((x : A) × (ys : List A) × (xs ≡ x ∷ ys))
List-cases [] = inl refl
List-cases (x ∷ xs) = inr (x, xs, refl)

-- A push answers as the buffer does, and leaves the ring standing for the buffer after it.
abbrev pub Pushed : Cache → Buffer → Frame → Type 0
Pushed c b frame =
    ((Ring.push c frame).0 ≡ (Buffer.push b frame).0)
    × Rep (Ring.push c frame).1 (Buffer.push b frame).1

Pushed-by :
    (c c' : Cache) (b b' : Buffer) (frame : Frame) (taken : Bool)
    → Ring.push c frame ≡ (taken, c')
    → Buffer.push b frame ≡ (taken, b')
    → Rep c' b'
    → Pushed c b frame
Pushed-by c c' b b' frame taken e f h = rw (e, f) (refl, h)

push_room :
    {c : Cache} {b : Buffer} (frame : Frame) (r : Rep c b)
    → length b.waiting + 1 < c.num_blocks
    → is_processing c.processing_index ((c.head + 1) % c.num_blocks) ≡ false
    → Ring.push c frame ≡ (true, extended frame r)
unfolding Ring.push
push_room frame r room free = ground (arith, full_iff r)

push_full :
    {c : Cache} {b : Buffer} (frame : Frame) (r : Rep c b)
    → length b.waiting + 1 ≡ c.num_blocks
    → is_processing c.processing_index ((c.head + 1) % c.num_blocks) ≡ false
    → Ring.push c frame ≡ (
      true,
      record c {
        blocks = set c.blocks c.head frame;
        head = (c.head + 1) % c.num_blocks;
        tail = (c.tail + 1) % c.num_blocks;
      },
    )
unfolding Ring.push
push_full frame r full free = ground (arith, full_iff r)

free_when_idle :
    (c : Cache) (i : ℕ) → c.processing_index ≡ none → is_processing c.processing_index i ≡ false
unfolding is_processing
free_when_idle c i e = rw e

buffer_room :
    (b : Buffer) (frame : Frame)
    → b.busy ≡ none
    → length b.waiting + 1 ≢ b.cap
    → Buffer.push b frame ≡ (true, record b { waiting = b.waiting ++ (frame ∷ []) })
unfolding Buffer.push
buffer_room b frame e ne = ground arith

buffer_full :
    (b : Buffer) (frame : Frame)
    → b.busy ≡ none
    → length b.waiting + 1 ≡ b.cap
    → Buffer.push b frame ≡ (true, record b { waiting = rest b.waiting ++ (frame ∷ []) })
unfolding Buffer.push
buffer_full b frame e full = ground arith

push_idle_full :
    {c : Cache} {b : Buffer} (frame : Frame) (w : Frame) (ws : List Frame) (r : Rep c b)
    → c.processing_index ≡ none
    → b.waiting ≡ w ∷ ws
    → length b.waiting + 1 ≡ c.num_blocks
    → Pushed c b frame
push_idle_full {c} {b} frame w ws r e split full =
    Pushed-by c _ b (record b { waiting = ws ++ (frame ∷ []) }) frame true
      (push_full frame r full (free_when_idle c _ e))
      (buffer_full b frame (r.idle e) (omega (arith, r.cap))
        ∙ ap (λ l. (true, record b { waiting = rest l ++ (frame ∷ []) })) split)
      (extended-Rep frame (shrunk_Rep r w ws split e) (omega (arith, ap length split))
        (λ p q. absurd (cc (e, q))))

push_idle :
    {c : Cache} {b : Buffer} (frame : Frame)
    → Rep c b
    → c.processing_index ≡ none
    → Pushed c b frame
push_idle {c} {b} frame r e = elim (dec_lt (length b.waiting + 1) c.num_blocks) [
  | yes room ↦
      Pushed-by c _ b _ frame true (push_room frame r room (free_when_idle c _ e))
        (buffer_room b frame (r.idle e) (omega (arith, r.cap)))
        (extended-Rep frame r room (λ p q. absurd (cc (e, q))))
  | no full ↦ elim (List-cases b.waiting) [
    | inl nothing ↦ absurd (omega (arith, r.two, ap length nothing))
    | inr (w, ws, split) ↦ push_idle_full frame w ws r e split (omega (arith, r.short))
  ]
]

-- While a callback runs, the next head falls on its block just when the buffer refuses the frame.
processing_iff :
    {c : Cache} {b : Buffer} (r : Rep c b) (p : ℕ)
    → c.processing_index ≡ some p
    → is_processing c.processing_index ((c.head + 1) % c.num_blocks)
      ≡ (length b.waiting + 2 == c.num_blocks)
unfolding is_processing
processing_iff {c} {b} r p e =
    let h = r.held p e in
    rw e (
      ground (
        arith,
        h,
        r,
        mod_once c.num_blocks p 1,
        next_head r,
        mod_once c.num_blocks c.tail (length b.waiting + 1),
      ))

buffer_busy :
    (b : Buffer) (frame f : Frame)
    → b.busy ≡ some f
    → Buffer.push b frame ≡ (
        if length b.waiting + 2 == b.cap
        then (false, b)
        else (true, record b { waiting = b.waiting ++ (frame ∷ []) }))
unfolding Buffer.push
buffer_busy b frame f e = ground arith

push_refused :
    (c : Cache) (frame : Frame)
    → is_processing c.processing_index ((c.head + 1) % c.num_blocks) ≡ true
    → Ring.push c frame ≡ (false, c)
unfolding Ring.push
push_refused c frame e = rw e

push_busy :
    {c : Cache} {b : Buffer} (frame : Frame) (p : ℕ)
    → Rep c b
    → c.processing_index ≡ some p
    → Pushed c b frame
push_busy {c} {b} frame p r e =
    let h = r.held p e in
    elim (Bool-cases (length b.waiting + 2 == c.num_blocks)) [
      | inl full ↦
          Pushed-by c c b b frame false (push_refused c frame (processing_iff r p e ∙ full))
            (buffer_busy b frame _ h.frame ∙ rw (r.cap, full)) r
      | inr room ↦
          let room' : length b.waiting + 3 ≤ c.num_blocks = ground (arith, h.room, room) in
          Pushed-by c _ b _ frame true
            (push_room frame r (omega arith) (processing_iff r p e ∙ room))
            (buffer_busy b frame _ h.frame ∙ rw (r.cap, room))
            (extended-Rep frame r (omega arith) (λ q _. room'))
    ]

pub push_refines : {c : Cache} {b : Buffer} (frame : Frame) → Rep c b → Pushed c b frame
push_refines {c} frame r = elim (Option-cases c.processing_index) [
  | inl e ↦ push_idle frame r e
  | inr (p, e) ↦ push_busy frame p r e
]
