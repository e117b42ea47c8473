-- ===== src/Connection/Shutdown/Tests.antt =====
-- The theorems on the threads of a connection, at concrete runs.
use ksg_canbus_rpi_sniffer.Prelude.{◌≡◌, ◌≢◌, refl, [], ◌∷◌, arith, replicate}
use ksg_canbus_rpi_sniffer.Cache.Ring
use ksg_canbus_rpi_sniffer.Cache.Ring.{init, Cache}
use ksg_canbus_rpi_sniffer.Connection.Life.{bytes_read, nothing_read}
use ksg_canbus_rpi_sniffer.Connection.Shutdown.{
  Threads, works, receives, stops, turn, turns, started, returned,
}
use ksg_canbus_rpi_sniffer.Connection.Shutdown.Hang.{waiting, all_silent, stop_hangs}
use ksg_canbus_rpi_sniffer.Connection.Shutdown.Ends.{
  one_works, one_receives, one_stops, stop_returns,
}
use ksg_canbus_rpi_sniffer.Connection.Shutdown.Waits.{waits_empty}

-- The worker has found the queue empty, and the RX thread is in its read.
abbrev caught : Threads
unfolding turns started
caught = turns (works ∷ works ∷ works ∷ receives nothing_read ∷ []) (started (init 1024 88))

-- After stop has notified, the worker blocks, and the read returns.
stop_hangs_example :
    (turns
      (works
        ∷ stops
        ∷ receives nothing_read
        ∷ receives nothing_read
        ∷ stops
        ∷ stops
        ∷ works
        ∷ stops
        ∷ [])
      (turns (stops ∷ stops ∷ []) caught)).stopper
    ≢ returned
unfolding turns turn started init all_silent
stop_hangs_example =
    stop_hangs caught
      (works
        ∷ stops
        ∷ receives nothing_read
        ∷ receives nothing_read
        ∷ stops
        ∷ stops
        ∷ works
        ∷ stops
        ∷ [])
      refl refl refl refl

-- The worker has blocked, a frame has come and been taken, and stop is at its notification.
abbrev asleep : Threads
unfolding turns
asleep =
    turns
      (works
        ∷ receives (bytes_read (1 ∷ 2 ∷ []))
        ∷ receives nothing_read
        ∷ works
        ∷ works
        ∷ works
        ∷ works
        ∷ works
        ∷ works
        ∷ stops
        ∷ [])
      caught

stop_returns_example :
    (turns (replicate 4 stops) (
      turns
        (replicate 3 (receives nothing_read))
        (turns (replicate 3 works) (turn stops asleep)))).stopper
    ≡ returned
unfolding turns turn started init one_works one_receives one_stops Ring.push
stop_returns_example =
    stop_returns asleep (replicate 3 works) (replicate 3 (receives nothing_read))
      (replicate 4 stops) refl refl (ground arith) (omega arith) (omega arith) (omega arith)

waits_empty_example :
    (turns (works ∷ works ∷ works ∷ works ∷ []) (started (init 1024 88))).cache.head
    ≡ (turns (works ∷ works ∷ works ∷ works ∷ []) (started (init 1024 88))).cache.tail
unfolding turns turn started init waiting
waits_empty_example = waits_empty (init 1024 88) (works ∷ works ∷ works ∷ works ∷ []) refl
