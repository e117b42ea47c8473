-- ===== src/Cache/Ring.antt =====
-- The state of CacheManager and its atomic steps: `push` under the mutex by the RX thread, and the
-- two critical sections of `process` by the worker thread. A block is the frame that its header and
-- bytes hold; notify and wait on the condition variable are the worker's step that has to wait.
use ksg_canbus_rpi_sniffer.Prelude.{
  ℕ, ◌+◌, ◌-◌, ◌/◌, ◌%◌, Bool, true, false, Option, none, some, List, [], ◌∷◌, ltb, ◌==◌,
  if◌then◌else◌, get_or, set, replicate,
}

-- A frame: the bytes of one read.
abbrev pub Frame : Type 0
Frame = List ℕ

pub record Cache : Type 0 where
  pub num_blocks : ℕ
  pub block_size : ℕ
  pub blocks : List Frame
  pub head : ℕ
  pub tail : ℕ
  pub processing_index : Option ℕ

-- (maxFrameSize + sizeof(uint32_t) + 3) & ~3
unfoldable pub block_size_for : ℕ → ℕ
block_size_for max_frame_size = let x = max_frame_size + 4 + 3 in x - x % 4

unfoldable pub num_blocks_for : ℕ → ℕ → ℕ
num_blocks_for total_size block_size = let n = total_size / block_size in if ltb n 2 then 2 else n

-- The constructor. Fresh memory holds no frame.
unfoldable pub init : ℕ → ℕ → Cache
unfolding block_size_for num_blocks_for
init total_size max_frame_size =
    let block_size = block_size_for max_frame_size in
    let n = num_blocks_for total_size block_size in
    record {
      num_blocks = n;
      block_size = block_size;
      blocks = replicate n [];
      head = 0;
      tail = 0;
      processing_index = none;
    }

-- (int32_t)nextHead == m_processingIndex, where `none` is -1.
unfoldable pub is_processing : Option ℕ → ℕ → Bool
is_processing none i = false
is_processing (some p) i = i == p

unfoldable pub push : Cache → Frame → Bool × Cache
unfolding is_processing
push c frame =
    let next_head = (c.head + 1) % c.num_blocks in
    if is_processing c.processing_index next_head then (false, c) else (
      true,
      record c {
        blocks = set c.blocks c.head frame;
        head = next_head;
        tail = if next_head == c.tail then (c.tail + 1) % c.num_blocks else c.tail;
      },
    )

-- What a thread sees of its step.
pub data Reply : Type 0 where
  pushed : Bool → Reply
  waits exits begins ends idle : Reply
  sees : Frame → Reply

-- The worker's next step: from the top of the loop to the release of the lock, or the end of the
-- round after the callback. `running` is the flag that it reads.
unfoldable pub work : Bool → Cache → Reply × Cache
work running c = elim c.processing_index [
  | none ↦
      if running
      then (if c.head == c.tail then (waits, c) else (
        begins,
        record c { processing_index = some c.tail; tail = (c.tail + 1) % c.num_blocks },
      ))
      else (exits, c)
  | some p ↦ (ends, record c { processing_index = none })
]

-- The callback reads the frame in place, at any moment before the round ends.
unfoldable pub look : Cache → Reply
look c = elim c.processing_index [ none ↦ idle | some p ↦ sees (get_or c.blocks p []) ]

pub data Event : Type 0 where
  pushes : Frame → Event
  works : Bool → Event
  looks : Event

-- An interleaving of the two threads, with what each step replies.
unfoldable pub run : Cache → List Event → List Reply
run c [] = []
run c (pushes frame ∷ events) = let (b, c') = push c frame in pushed b ∷ run c' events
run c (works running ∷ events) = let (r, c') = work running c in r ∷ run c' events
run c (looks ∷ events) = look c ∷ run c events
