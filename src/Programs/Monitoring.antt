-- ===== src/Programs/Monitoring.antt =====
-- The worker's `sendToMonitoring` and the monitoring thread of subscriber/src/main.cpp over the
-- statistics queue: whole calls in any order.
pub mod Accounts
use aeron_archive_replay.Base.{ℕ, suc, ◌+◌, List, [], ◌∷◌, ◌++◌, if◌then◌else◌}
use aeron_archive_replay.SpscQueue as Spsc
use aeron_archive_replay.SpscQueue.{SpscQueue}
use aeron_archive_replay.SpscQueue.Stats.{MessageStats, blank}
use aeron_archive_replay.MessageBuffer.{MessageBuffer}
use aeron_archive_replay.MessageWorker.{stats_of, send_to_monitoring}
use aeron_archive_replay.Programs.Monitor.{Monitor, start, monitor}

-- `stats` is the monitoring thread's variable. `accepted` and `skipped` are not in the source: what
-- the queue has taken, in order, and how often it was full.
pub record Watch : Type 0 where
  pub figures : Monitor
  pub stats : MessageStats
  pub queue : SpscQueue MessageStats
  pub accepted : List MessageStats
  pub skipped : ℕ

pub data Step : Type 0 where
  sends : MessageBuffer → Step  -- the worker, of a processed message
  looks : Step  -- a turn of the monitoring thread

module _ (size : ℕ) where
  -- One turn of the monitoring thread's loop.
  unfoldable pub look : Watch → Watch
  look w =
      let (done, stats, queue) = Spsc.dequeue size w.queue w.stats in
      record w {
        stats = stats;
        queue = queue;
        figures = if done then monitor w.figures stats else w.figures;
      }

  unfoldable pub send : Watch → MessageBuffer → Watch
  send w b =
      let (done, _) = Spsc.enqueue size w.queue (stats_of b) in
      record w {
        queue = send_to_monitoring size w.queue b;
        accepted = if done then w.accepted ++ (stats_of b ∷ []) else w.accepted;
        skipped = if done then w.skipped else w.skipped + 1;
      }

  unfoldable pub run : Watch → List Step → Watch
  unfolding look send
  run w [] = w
  run w (sends b ∷ steps) = run (send w b) steps
  run w (looks ∷ steps) = run (look w) steps

  unfoldable pub begin : Watch
  begin = record {
    figures = start;
    stats = blank;
    queue = Spsc.new size blank;
    accepted = [];
    skipped = 0;
  }

-- How many messages the worker has sent.
unfoldable pub sent : List Step → ℕ
sent [] = 0
sent (sends b ∷ steps) = suc (sent steps)
sent (looks ∷ steps) = sent steps
