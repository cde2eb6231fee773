-- ===== src/Pipeline/Interleaving.antt =====
-- The two threads together: whole messages and whole passes in any order.
use aeron_archive_replay.Ring.Size.{IsSize}
use aeron_archive_replay.Base.{
  suc, ◌%◌, ◌^◌, length-append, ℕ, ◌+◌, ◌<◌, ◌≡◌, refl, ap, ◌∙◌, List, [], ◌∷◌, length, arith,
}
use aeron_archive_replay.SpscQueue.{SpscQueue}
use aeron_archive_replay.SpscQueue.Stats.{MessageStats}
use aeron_archive_replay.BufferPool as Pool
use aeron_archive_replay.BufferPool.{BufferPool, available}
use aeron_archive_replay.BufferPool.Ownership.{new-Owns}
use aeron_archive_replay.MessageQueue as Queue
use aeron_archive_replay.MessageQueue.{MessageQueue, count}
use aeron_archive_replay.MessageQueue.Refine.{new-IsValid, count_lem}
use aeron_archive_replay.AeronSubscriber.{AeronSubscriber, System}
use aeron_archive_replay.AeronSubscriber.Recording.{Archive}
use aeron_archive_replay.AeronSubscriber.FastPath.{Fragment, handle_message_fast_path}
use aeron_archive_replay.MessageWorker.{MessageWorker, Shop, Clock, pass}
use aeron_archive_replay.Pipeline.{Flows, length-map}
use aeron_archive_replay.Pipeline.Receiving.{tally, Outcome, handle_message_fast_path-Outcome}
use aeron_archive_replay.Pipeline.Finished.{finished, pass-finished, pass-finished_empty}
use aeron_archive_replay.Pipeline.Working.{pass-Flows, pass-Flows_empty}

pub record World : Type 0 where
  pub subscriber : AeronSubscriber
  pub worker : MessageWorker
  pub queue : MessageQueue
  pub pool : BufferPool
  pub stats_queue : SpscQueue MessageStats

pub data Step : Type 0 where
  message : Fragment → Step
  worker_pass : Clock → Step

module _ (pool_size queue_size stats_size : ℕ) (archive : Archive) where
  unfoldable pub step : World → Step → World
  step w (message f) =
      let s : System = record { subscriber = w.subscriber; pool = w.pool; queue = w.queue } in
      let t = handle_message_fast_path pool_size queue_size archive s f in
      record w { subscriber = t.subscriber; pool = t.pool; queue = t.queue }
  step w (worker_pass c) =
      let s : Shop = record {
        worker = w.worker;
        queue = w.queue;
        pool = w.pool;
        stats_queue = w.stats_queue;
      } in
      let t = pass pool_size queue_size stats_size s c in
      record w { worker = t.worker; queue = t.queue; pool = t.pool; stats_queue = t.stats_queue }

  unfoldable pub run : World → List Step → World
  unfolding step
  run w [] = w
  run w (x ∷ steps) = run (step w x) steps

  abbrev pub starting : AeronSubscriber → MessageWorker → SpscQueue MessageStats → World
  starting sub worker stats = record {
    subscriber = sub;
    worker = worker;
    queue = Queue.new queue_size;
    pool = Pool.new pool_size;
    stats_queue = stats;
  }

-- What every step keeps, since `before`.
pub record Kept (pool_size queue_size : ℕ) (before after : World) : Type 0 where
  pub pending : List ℕ
  pub flows : Flows pool_size queue_size after.pool after.queue pending
  pub no_room :
      pool_size < queue_size
      → after.subscriber.zc_queue_full_failures ≡ before.subscriber.zc_queue_full_failures
  pub accounted :
      (after.subscriber.zc_messages_received + finished before.worker) % 2 ^ 64
      ≡ (before.subscriber.zc_messages_received + finished after.worker + length pending) % 2 ^ 64

-- The account where the worker has done with one message more, or with none.
accounted_one :
    (all received done done' : ℕ) {queued queued' : ℕ}
    → all % 2 ^ 64 ≡ (received + done + queued) % 2 ^ 64
    → done' % 2 ^ 64 ≡ (done + 1) % 2 ^ 64
    → suc queued' ≡ queued
    → all % 2 ^ 64 ≡ (received + done' + queued') % 2 ^ 64
accounted_one all received done done' h k e = omega arith

accounted_idle :
    (all received done done' : ℕ) {queued queued' : ℕ}
    → all % 2 ^ 64 ≡ (received + done + queued) % 2 ^ 64
    → done' ≡ done
    → queued' ≡ queued
    → all % 2 ^ 64 ≡ (received + done' + queued') % 2 ^ 64
accounted_idle all received done done' h k e = omega arith

module _ {pool_size queue_size : ℕ} (size : IsSize queue_size) (stats_size : ℕ)
    (archive : Archive) where
  step-Kept :
      {before : World} (w : World) (x : Step)
      → Kept pool_size queue_size before w
      → Kept pool_size queue_size before (step pool_size queue_size stats_size archive w x)
  unfolding step tally
  step-Kept {before} w (message f) v =
      outcome _ (handle_message_fast_path-Outcome size archive _ f v.flows)
    where
      outcome :
          (t : System)
          → Outcome pool_size queue_size v.pending
              (record { subscriber = w.subscriber; pool = w.pool; queue = w.queue })
              t
          → Kept pool_size queue_size before
              (record w { subscriber = t.subscriber; pool = t.pool; queue = t.queue })
      outcome t (Outcome.no_buffer l e k) = record {
        pending = v.pending;
        flows = k;
        no_room = λ h. ap (λ c. c.no_room) e ∙ v.no_room h;
        accounted = omega (arith, ap (λ c. c.received) e, v.accounted);
      }
      outcome t (Outcome.duplicate e k) = record {
        pending = v.pending;
        flows = k;
        no_room = λ h. ap (λ c. c.no_room) e ∙ v.no_room h;
        accounted = omega (arith, ap (λ c. c.received) e, v.accounted);
      }
      outcome t (Outcome.no_room l m e k) = record {
        pending = v.pending;
        flows = k;
        no_room = λ h. absurd (omega arith);
        accounted = omega (arith, ap (λ c. c.received) e, v.accounted);
      }
      outcome t (Outcome.received i e k) = record {
        pending = _;
        flows = k;
        no_room = λ h. ap (λ c. c.no_room) e ∙ v.no_room h;
        accounted =
            omega (arith, ap (λ c. c.received) e, v.accounted, length-append v.pending (i ∷ []));
      }
  step-Kept {before} w (worker_pass c) v = passed v.pending v.flows refl
    where
      passed :
          (pending : List ℕ)
          → Flows pool_size queue_size w.pool w.queue pending
          → length pending ≡ length v.pending
          → Kept pool_size queue_size before
              (step pool_size queue_size stats_size archive w (worker_pass c))
      passed [] k e = record {
        pending = [];
        flows = (pass-Flows_empty size stats_size _ c k).0;
        no_room = v.no_room;
        accounted =
            accounted_idle _ _ _ _ v.accounted (pass-finished_empty size stats_size _ c k) e;
      }
      passed (i ∷ rest) k e = record {
        pending = rest;
        flows = pass-Flows size stats_size _ c k;
        no_room = v.no_room;
        accounted = accounted_one _ _ _ _ v.accounted (pass-finished size stats_size _ c k) e;
      }

  pub run-Kept :
      (steps : List Step) {before : World} (w : World)
      → Kept pool_size queue_size before w
      → Kept pool_size queue_size before (run pool_size queue_size stats_size archive w steps)
  unfolding run
  run-Kept [] w v = v
  run-Kept (x ∷ steps) w v = run-Kept steps _ (step-Kept w x v)

  pub starting-Kept :
      (sub : AeronSubscriber) (worker : MessageWorker) (stats : SpscQueue MessageStats)
      → let w = starting pool_size queue_size stats_size archive sub worker stats in
        Kept pool_size queue_size w w
  starting-Kept sub worker stats = record {
    pending = [];
    flows = record {
      holds = record { valid = (new-IsValid size).0; contents = (new-IsValid size).1 };
      owns = new-Owns pool_size;
    };
    no_room = λ h. refl;
    accounted = omega arith;
  }

  -- From a new pool and a new queue, after any whole messages and worker passes in any order, the
  -- free buffers and the queued ones are together as many as the pool has.
  pub run_conserves :
      (sub : AeronSubscriber) (worker : MessageWorker) (stats : SpscQueue MessageStats)
      (steps : List Step)
      → let w =
          run pool_size queue_size stats_size archive
            (starting pool_size queue_size stats_size archive sub worker stats)
            steps in
        available w.pool + count queue_size w.queue ≡ pool_size
  run_conserves sub worker stats steps =
      let k = run-Kept steps _ (starting-Kept sub worker stats) in
      omega (
        arith,
        k.flows.owns.shared.all,
        count_lem size k.flows.holds.valid,
        ap length k.flows.holds.contents,
        length-map k.pending,
      )

  -- From a new pool and a new queue with fewer buffers than slots, no whole messages and worker
  -- passes in any order raise the count of messages dropped because the queue was full.
  pub run_never_full :
      (sub : AeronSubscriber) (worker : MessageWorker) (stats : SpscQueue MessageStats)
      (steps : List Step)
      → pool_size < queue_size
      → (run pool_size queue_size stats_size archive
          (starting pool_size queue_size stats_size archive sub worker stats)
          steps).subscriber.zc_queue_full_failures
        ≡ sub.zc_queue_full_failures
  run_never_full sub worker stats steps h =
      (run-Kept steps _ (starting-Kept sub worker stats)).no_room h
