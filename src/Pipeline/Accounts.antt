-- ===== src/Pipeline/Accounts.antt =====
-- What became of the messages that were received.
use aeron_archive_replay.Ring.Size.{IsSize}
use aeron_archive_replay.Base.{ℕ, ◌+◌, ◌%◌, ◌^◌, ◌≡◌, ap, List, length, arith}
use aeron_archive_replay.SpscQueue.{SpscQueue}
use aeron_archive_replay.SpscQueue.Stats.{MessageStats}
use aeron_archive_replay.MessageQueue.{count}
use aeron_archive_replay.MessageQueue.Refine.{count_lem}
use aeron_archive_replay.AeronSubscriber.{AeronSubscriber}
use aeron_archive_replay.AeronSubscriber.Recording.{Archive}
use aeron_archive_replay.MessageWorker.{MessageWorker}
use aeron_archive_replay.Pipeline.{length-map}
use aeron_archive_replay.Pipeline.Finished.{finished}
use aeron_archive_replay.Pipeline.Interleaving.{Step, run, starting, run-Kept, starting-Kept}

-- From a new pool and a new queue, after any whole messages and worker passes in any order: the
-- messages counted as received meanwhile are, modulo 2 ^ 64, those that the worker has counted
-- meanwhile as processed, invalid or duplicate, together with those in the queue.
pub run_accounts :
    (pool_size queue_size stats_size : ℕ)
    → IsSize queue_size
    → (archive : Archive) (sub : AeronSubscriber) (worker : MessageWorker)
      (stats : SpscQueue MessageStats) (steps : List Step)
    → let w =
        run pool_size queue_size stats_size archive
          (starting pool_size queue_size stats_size archive sub worker stats)
          steps in
      (w.subscriber.zc_messages_received + finished worker) % 2 ^ 64
      ≡ (sub.zc_messages_received + finished w.worker + count queue_size w.queue) % 2 ^ 64
run_accounts pool_size queue_size stats_size size archive sub worker stats steps =
    let k =
      run-Kept {pool_size = pool_size} size stats_size archive steps _
        (starting-Kept size stats_size archive sub worker stats) in
    omega (
      arith,
      k.accounted,
      count_lem size k.flows.holds.valid,
      ap length k.flows.holds.contents,
      length-map k.pending,
    )
