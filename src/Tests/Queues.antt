-- ===== src/Tests/Queues.antt =====
-- The two rings on concrete calls.
use aeron_archive_replay.Fifo
use aeron_archive_replay.Fifo.{put, get, stored, taken}
use aeron_archive_replay.Base.{
  ℕ, ◌<◌, ◌≡◌, ◌≢◌, refl, true, false, some, List, [], ◌∷◌, ◌++◌, length,
}
use aeron_archive_replay.SpscQueue as Spsc
use aeron_archive_replay.SpscQueue.Refine as SpscRefine
use aeron_archive_replay.MessageQueue.{Pointer, MessageQueue, new, next, enqueue_buffer}
use aeron_archive_replay.MessageQueue.Threads.{
  Turn, step, produce, consume, producer_turn, consumer_turn, run, start,
}
use aeron_archive_replay.MessageQueue.Threads.Safety.{storing, reading, run_fifo, no_race}
use aeron_archive_replay.Tests.{four-IsSize, sixteen-IsSize}

-- Three numbers fill the ring of four slots; the fourth is refused.
spsc_fills :
    SpscRefine.run {T = ℕ} 4 (Spsc.new 4 0) 0 (put 1 ∷ put 2 ∷ put 3 ∷ put 4 ∷ get ∷ get ∷ [])
    ≡ stored true ∷ stored true ∷ stored true ∷ stored false ∷ taken true 1 ∷ taken true 2 ∷ []
unfolding SpscRefine.run Spsc.new Spsc.enqueue Spsc.dequeue Spsc.increment
spsc_fills = refl

run_refines_example :
    SpscRefine.run {T = ℕ} 4 (Spsc.new 4 0) 0 (put 8 ∷ get ∷ get ∷ [])
    ≡ Fifo.run 3 (SpscRefine.items 4 0 (Spsc.new 4 0)) 0 (put 8 ∷ get ∷ get ∷ [])
run_refines_example =
    SpscRefine.run_refines four-IsSize 0 (put 8 ∷ get ∷ get ∷ []) 0
      (SpscRefine.new-IsValid four-IsSize 0)

abbrev one_in : MessageQueue
one_in = (enqueue_buffer 16 (new 16) 9).1

-- Both threads within their calls: the producer is about to store to slot 1, the consumer to read slot
-- 0.
abbrev both_busy : List Turn
both_busy =
    producer_turn 5
    ∷ producer_turn 5
    ∷ producer_turn 5
    ∷ producer_turn 5
    ∷ producer_turn 5
    ∷ producer_turn 6
    ∷ producer_turn 6
    ∷ consumer_turn
    ∷ consumer_turn
    ∷ []

run_fifo_example :
    let m = run 16 (start (new 16)) both_busy in
    (rest : List Pointer) × (m.sent ≡ m.received ++ rest) × (length rest < 16)
run_fifo_example = run_fifo sixteen-IsSize both_busy

storing_one : storing (run 16 (start (new 16)) both_busy).producer ≡ some 1
unfolding storing run step produce consume next new
storing_one = refl

reading_zero : reading (run 16 (start (new 16)) both_busy).consumer ≡ some 0
unfolding reading run step produce consume next new
reading_zero = refl

no_race_example : ◌≢◌ {A = ℕ} 1 0
no_race_example = no_race sixteen-IsSize both_busy 1 0 storing_one reading_zero
