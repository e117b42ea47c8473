-- ===== src/Cache/Layout.antt =====
-- Where the blocks of CacheManager lie in its memory.
use ksg_canbus_rpi_sniffer.Prelude.{
  ℕ, ◌+◌, ◌*◌, ◌/◌, ◌%◌, ◌≤◌, ◌<◌, ◌≡◌, ap, inl, inr, Bool-cases, ltb, max, arith,
}
use ksg_canbus_rpi_sniffer.Cache.Ring.{block_size_for, num_blocks_for, init}

-- A block takes a header and any frame of a read, and keeps the next block on a 4-byte boundary.
block_size_fits :
    (max_frame_size : ℕ)
    → (max_frame_size + 4 ≤ block_size_for max_frame_size)
      × (block_size_for max_frame_size % 4 ≡ 0)
      × (block_size_for max_frame_size ≤ max_frame_size + 7)
unfolding block_size_for
block_size_fits max_frame_size = omega arith

block_end :
    (head n size length : ℕ) → head < n → 4 + length ≤ size → head * size + 4 + length ≤ n * size
block_end head n size length h hl = grind arith

block_aligned : (head size : ℕ) → size % 4 ≡ 0 → head * size % 4 ≡ 0
block_aligned head size h =
    let e : size ≡ 4 * (size / 4) = omega arith in
    let p : head * size ≡ 4 * (head * (size / 4)) = omega (arith, ap (λ x. head * x) e) in
    rw p (omega arith)

div-mul_le : (total size : ℕ) → total / size * size ≤ total
div-mul_le total size = grind arith

blocks_fit : (total size : ℕ) → num_blocks_for total size * size ≤ max total (2 * size)
unfolding num_blocks_for
blocks_fit total size = elim (Bool-cases (ltb (total / size) 2)) [
  | inl few ↦ rw few (omega arith)
  | inr many ↦ rw many (omega (arith, div-mul_le total size))
]

-- push writes `length` bytes behind a 4-byte header at block `head`: for every block and every frame
-- of at most the maximal size this stays below the end of the blocks, on a 4-byte boundary; the
-- blocks take at most the configured buffer, or two blocks where that is too small for two.
pub block_in_memory :
    (total_size max_frame_size head length : ℕ)
    → head < (init total_size max_frame_size).num_blocks
    → length ≤ max_frame_size
    → let c = init total_size max_frame_size in
      (head * c.block_size + 4 + length ≤ c.num_blocks * c.block_size)
      × (head * c.block_size % 4 ≡ 0)
      × (c.num_blocks * c.block_size ≤ max total_size (2 * c.block_size))
unfolding init
block_in_memory total_size max_frame_size head length h hl =
    let fits = block_size_fits max_frame_size in
    let size = block_size_for max_frame_size in
    (
      block_end head (num_blocks_for total_size size) size length h (omega arith),
      block_aligned head size fits.1,
      blocks_fit total_size size,
    )
