-- ===== src/Tests/Buffers.antt =====
-- The pool, the fast path and the worker on a pool of two buffers and a queue of sixteen slots.
use aeron_archive_replay.Pipeline.Finished.{finished}
use aeron_archive_replay.Pipeline.Accounts.{run_accounts}
use aeron_archive_replay.Base.{
  true, ◌≤◌, ◌%◌, ◌^◌, ℕ, ◌+◌, ◌<◌, ◌≡◌, refl, inl, inr, some, List, [], ◌∷◌, ◌++◌, length, get_or,
  arith,
}
use aeron_archive_replay.BufferPool as Pool
use aeron_archive_replay.BufferPool.{
  BufferPool, buffer_at, indices_from, allocate, deallocate, available,
}
use aeron_archive_replay.BufferPool.Ownership.{Owns, new-Owns}
use aeron_archive_replay.BufferPool.Threads as Threads
use aeron_archive_replay.BufferPool.Threads.{Turn, outside, allocating, rest}
use aeron_archive_replay.BufferPool.Occurrences.{occurrences}
use aeron_archive_replay.BufferPool.Threads.Owners.{never_returns}
use aeron_archive_replay.BufferPool.Threads.Exclusive.{allocations_share_none}
use aeron_archive_replay.BufferPool.Threads.Counts.{all_in_hand, entry}
use aeron_archive_replay.BufferPool.Threads.Interleavings.{interleaved_conserves}
use aeron_archive_replay.BufferPool.Threads.Alone.{turn_of, whole, complete, alone_completes}
use aeron_archive_replay.BufferPool.Threads.Stale.{overlap, overlap_shares}
use aeron_archive_replay.BufferPool.Clients.{Reachable, started, given, Reachable-Owns}
use aeron_archive_replay.MessageHeader.{encode}
use aeron_archive_replay.MessageQueue as Queue
use aeron_archive_replay.MessageQueue.{MessageQueue, next, enqueue, count}
use aeron_archive_replay.MessageQueue.Refine.{new-IsValid}
use aeron_archive_replay.SpscQueue as Spsc
use aeron_archive_replay.SpscQueue.{SpscQueue}
use aeron_archive_replay.SpscQueue.Stats.{MessageStats, blank}
use aeron_archive_replay.AeronSubscriber as Sub
use aeron_archive_replay.AeronSubscriber.{AeronSubscriber, System, default_config}
use aeron_archive_replay.AeronSubscriber.Recording.{Archive}
use aeron_archive_replay.AeronSubscriber.FastPath.{Fragment, handle_message_fast_path}
use aeron_archive_replay.MessageWorker as Worker
use aeron_archive_replay.MessageWorker.{MessageWorker, Shop, Clock, pass, worker_thread_main}
use aeron_archive_replay.Pipeline.{Holds, Flows, enqueue-Holds}
use aeron_archive_replay.Pipeline.Receiving.{Outcome, handle_message_fast_path-Outcome}
use aeron_archive_replay.Pipeline.Draining.{worker_thread_main-Flows}
use aeron_archive_replay.Pipeline.Interleaving.{
  World, Step, message, worker_pass, run, starting, run_conserves, run_never_full,
}
use aeron_archive_replay.Tests.{sixteen-IsSize, header_of}

-- An archive that knows one recording, number 7.
abbrev pub archive : Archive
archive = record {
  find_last_matching_recording = λ least channel stream session. some 7;
  get_recording_position = λ recording_id. some 1024;
}

abbrev pub subscriber : AeronSubscriber
subscriber = Sub.new (record default_config { duplicate_window_size = 3 })

abbrev pub fragment_of : ℕ → Fragment
fragment_of n = record {
  bytes = encode (header_of n) ++ (65 ∷ 66 ∷ []);
  position = 128;
  recv_timestamp = 40;
  checkpoint_time = 41;
}

abbrev clock : Clock
clock = record { dequeue_time = 50; start_processing = 51; end_processing = 53 }

abbrev pub stats_queue : SpscQueue MessageStats
stats_queue = Spsc.new 4 blank

-- The pool with buffer 1 given out.
abbrev one_given : BufferPool
one_given = (allocate (Pool.new 2)).0

gives_one : (allocate (Pool.new 2)).1 ≡ some 1
unfolding allocate Pool.new indices_from
gives_one = refl

one_given-Reachable : Reachable 2 one_given (1 ∷ [])
one_given-Reachable = given started gives_one

Reachable-Owns_example : Owns 2 one_given (1 ∷ [])
Reachable-Owns_example = Reachable-Owns 2 one_given-Reachable

interleaved_conserves_example :
    let m = Threads.run 2 (Threads.start 2 2) (overlap 1) in
    (m.shared.pool.free_count + length m.shared.held + all_in_hand m.threads ≡ 2)
    × (m.shared.overflows ≡ 0)
    × ((i k : ℕ) → entry (get_or m.threads i outside) ≡ some k → k < 2)
interleaved_conserves_example = interleaved_conserves 2 2 (overlap 1)

overlap_shares_example :
    let m = Threads.run 3 (Threads.start 3 2) (overlap 2) in
    (m.shared.held ≡ 1 ∷ 1 ∷ []) × (m.threads ≡ outside ∷ outside ∷ [])
overlap_shares_example = overlap_shares 3 (omega arith)

-- Two threads that allocate in turn.
abbrev two_allocate : List Turn
two_allocate = turn_of 0 allocating ∷ turn_of 1 allocating ∷ whole 0 rest ++ whole 1 rest

two_allocate-never_returns : never_returns two_allocate ≡ true
unfolding never_returns
two_allocate-never_returns = refl

allocations_share_none_example :
    occurrences 1 (Threads.run 2 (Threads.start 2 2) two_allocate).shared.held ≤ 1
allocations_share_none_example =
    allocations_share_none 2 2 two_allocate two_allocate-never_returns 1 (omega arith)

alone_completes_example :
    Threads.run 2 (Threads.start 2 2) (whole 1 allocating)
    ≡ record (Threads.start 2 2) { shared = complete 2 allocating (Threads.start 2 2).shared }
unfolding Threads.start
alone_completes_example = alone_completes 2 allocating (Threads.start 2 2) 1 (omega arith) refl

pub none_queued-Flows : Flows 2 16 (Pool.new 2) (Queue.new 16) []
none_queued-Flows = record {
  holds = record {
    valid = (new-IsValid sixteen-IsSize).0;
    contents = (new-IsValid sixteen-IsSize).1;
  };
  owns = new-Owns 2;
}

abbrev one_queued : MessageQueue
one_queued = (enqueue 16 (Queue.new 16) (some 1)).1

one_queued-Holds : Holds 16 one_queued (1 ∷ [])
one_queued-Holds = elim (enqueue-Holds sixteen-IsSize 1 none_queued-Flows.holds) [
  | inl k ↦ k.1
  | inr k ↦ absurd (omega arith)
]

one_queued-Flows : Flows 2 16 one_given one_queued (1 ∷ [])
one_queued-Flows = record { holds = one_queued-Holds; owns = Reachable-Owns 2 one_given-Reachable }

abbrev shop : Shop
shop = record {
  worker = Worker.new;
  queue = one_queued;
  pool = one_given;
  stats_queue = stats_queue;
}

-- The same with the worker running.
abbrev busy_shop : Shop
busy_shop = record shop { worker = Worker.start Worker.new }

worker_thread_main-Flows_example :
    let r = worker_thread_main 2 16 4 busy_shop (clock ∷ clock ∷ []) in Flows 2 16 r.pool r.queue []
unfolding Worker.start Worker.new
worker_thread_main-Flows_example =
    worker_thread_main-Flows sixteen-IsSize 4 (clock ∷ clock ∷ []) busy_shop (1 ∷ [])
      one_queued-Flows refl (omega arith)

abbrev system : System
system = record { subscriber = subscriber; pool = Pool.new 2; queue = Queue.new 16 }

handle_message_fast_path-Outcome_example :
    Outcome 2 16 [] system (handle_message_fast_path 2 16 archive system (fragment_of 7))
handle_message_fast_path-Outcome_example =
    handle_message_fast_path-Outcome sixteen-IsSize archive system (fragment_of 7) none_queued-Flows

abbrev steps : List Step
steps =
    message (fragment_of 7)
    ∷ message (fragment_of 8)
    ∷ worker_pass clock
    ∷ message (fragment_of 8)
    ∷ message (fragment_of 9)
    ∷ []

abbrev ended : World
ended = run 2 16 4 archive (starting 2 16 4 archive subscriber Worker.new stats_queue) steps

run_conserves_example : available ended.pool + count 16 ended.queue ≡ 2
run_conserves_example =
    run_conserves sixteen-IsSize 4 archive subscriber Worker.new stats_queue steps

run_accounts_example :
    (ended.subscriber.zc_messages_received + finished Worker.new) % 2 ^ 64
    ≡ (subscriber.zc_messages_received + finished ended.worker + count 16 ended.queue) % 2 ^ 64
run_accounts_example =
    run_accounts 2 16 4 sixteen-IsSize archive subscriber Worker.new stats_queue steps

run_never_full_example : ended.subscriber.zc_queue_full_failures ≡ subscriber.zc_queue_full_failures
run_never_full_example =
    run_never_full sixteen-IsSize 4 archive subscriber Worker.new stats_queue steps (omega arith)
