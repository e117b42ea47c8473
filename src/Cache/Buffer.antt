-- ===== src/Cache/Buffer.antt =====
-- What the cache promises: a bounded queue of frames and the one frame in the callback's hands. While
-- the worker is idle a push into a full queue drops the oldest frame; while a callback runs it drops
-- the new one, and the frame under the callback stays as it is.
use ksg_canbus_rpi_sniffer.Prelude.{
  ℕ, ◌+◌, Bool, true, false, Option, none, some, List, [], ◌∷◌, ◌++◌, ◌==◌, if◌then◌else◌, length,
}
use ksg_canbus_rpi_sniffer.Cache.Ring.{
  Frame, Reply, pushed, waits, exits, begins, ends, idle, sees, Event, pushes, works, looks,
}

pub record Buffer : Type 0 where
  pub cap : ℕ
  pub waiting : List Frame
  pub busy : Option Frame

abbrev pub rest : List Frame → List Frame
rest [] = []
rest (f ∷ fs) = fs

unfoldable pub push : Buffer → Frame → Bool × Buffer
push b frame = elim b.busy [
  | none ↦
      if length b.waiting + 1 == b.cap
      then (true, record b { waiting = rest b.waiting ++ (frame ∷ []) })
      else (true, record b { waiting = b.waiting ++ (frame ∷ []) })
  | some f ↦
      if length b.waiting + 2 == b.cap
      then (false, b)
      else (true, record b { waiting = b.waiting ++ (frame ∷ []) })
]

abbrev pub begin : Buffer → List Frame → Reply × Buffer
begin b [] = (waits, b)
begin b (f ∷ fs) = (begins, record b { waiting = fs; busy = some f })

unfoldable pub work : Bool → Buffer → Reply × Buffer
work running b = elim b.busy [
  | none ↦ if running then begin b b.waiting else (exits, b)
  | some f ↦ (ends, record b { busy = none })
]

unfoldable pub look : Buffer → Reply
look b = elim b.busy [ none ↦ idle | some f ↦ sees f ]

unfoldable pub run : Buffer → List Event → List Reply
run b [] = []
run b (pushes frame ∷ events) = let (r, b') = push b frame in pushed r ∷ run b' events
run b (works running ∷ events) = let (r, b') = work running b in r ∷ run b' events
run b (looks ∷ events) = look b ∷ run b events
