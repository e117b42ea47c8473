-- ===== src/Cache/Tests.antt =====
-- Runs of the block ring, and its theorems at concrete sizes.
use ksg_canbus_rpi_sniffer.Prelude.{◌≡◌, refl, true, false, List, [], ◌∷◌}
use ksg_canbus_rpi_sniffer.Cache.Ring.{
  Event, pushes, works, looks, Reply, pushed, waits, begins, ends, sees, idle, init, run, push,
  work, look, num_blocks_for, block_size_for, is_processing,
}
use ksg_canbus_rpi_sniffer.Cache.Buffer
use ksg_canbus_rpi_sniffer.Cache.Refine.{run-init}

-- Three blocks for frames of 4 bytes.
small_size : num_blocks_for 24 (block_size_for 4) ≡ 3
unfolding num_blocks_for block_size_for
small_size = refl

-- Three pushes into room for two frames while the worker is idle drop the oldest; while the callback
-- holds a frame, the ring takes one more and refuses the next.
abbrev history : List Event
history =
    works true
    ∷ pushes (1 ∷ [])
    ∷ pushes (2 ∷ [])
    ∷ pushes (3 ∷ [])
    ∷ works true
    ∷ looks
    ∷ pushes (4 ∷ [])
    ∷ looks
    ∷ works true
    ∷ looks
    ∷ []

abbrev replies : List Reply
replies =
    waits
    ∷ pushed true
    ∷ pushed true
    ∷ pushed true
    ∷ begins
    ∷ sees (2 ∷ [])
    ∷ pushed false
    ∷ sees (2 ∷ [])
    ∷ ends
    ∷ idle
    ∷ []

run-history : run (init 24 4) history ≡ replies
unfolding run init push work look is_processing
run-history = refl

run-init_example : run (init 24 4) history ≡ replies
unfolding Buffer.run Buffer.push Buffer.work Buffer.look num_blocks_for block_size_for
run-init_example = run-init 24 4 history
