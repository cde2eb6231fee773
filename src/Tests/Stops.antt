-- ===== src/Tests/Stops.antt =====
-- The end of the subscriber's program with a message in the queue.
use aeron_archive_replay.Base.{
  List, length, ◌%◌, ◌^◌, ◌+◌, ℕ, sym, ◌∙◌, ◌≡◌, ◌≢◌, refl, true, none, some, [], ◌∷◌, ◌++◌, arith,
}
use aeron_archive_replay.MessageQueue as Queue
use aeron_archive_replay.BufferPool as Pool
use aeron_archive_replay.MessageWorker as Worker
use aeron_archive_replay.CheckpointManager.{Files, Answers, fresh}
use aeron_archive_replay.AeronSubscriber as Sub
use aeron_archive_replay.AeronSubscriber.FastPath.{
  handle_message_fast_path, receive_in, receive, fill, track_gap, track_message, count_message,
  hand_over,
}
use aeron_archive_replay.AeronSubscriber.Tracking.{
  check_for_gaps, is_duplicate, contains, add_to_deduplication_buffer,
}
use aeron_archive_replay.MessageBuffer.{copy_from_aeron}
use aeron_archive_replay.MessageHeader.{encode, decode}
use aeron_archive_replay.AeronSubscriber.{AeronSubscriber, enable_checkpoint}
use aeron_archive_replay.Pipeline.{Holds}
use aeron_archive_replay.Pipeline.Interleaving.{World, message, step}
use aeron_archive_replay.BufferPool.Ownership.{new-Owns}
use aeron_archive_replay.AeronSubscriber.Window.{IsWindow}
use aeron_archive_replay.Pipeline.Dropped.{dropped_refused}
use aeron_archive_replay.Programs.SubscriberMain.{
  SubscriberOptions, no_options, start_position, checkpoint_position,
}
use aeron_archive_replay.MessageBuffer.{blank}
use aeron_archive_replay.SpscQueue.Stats as Stats
use aeron_archive_replay.SpscQueue.Stats.{MessageStats}
use aeron_archive_replay.SpscQueue.Refine.{items}
use aeron_archive_replay.Programs.Monitor.{start, monitor_all}
use aeron_archive_replay.Programs.Monitoring as Monitoring
use aeron_archive_replay.Programs.Monitoring.Accounts.{run_watches}
use aeron_archive_replay.Programs.Stopping.{shut_down, restart_skips}
use aeron_archive_replay.Tests.{four-IsSize, sixteen-IsSize}
use aeron_archive_replay.Tests.Buffers.{
  archive, subscriber, fragment_of, stats_queue, none_queued-Flows,
}

abbrev no_files : Files
no_files = record { checkpoint_file = none; temp_file = none }

-- The disk takes all of the 40 bytes.
abbrev carried_out : Answers
carried_out = record { opens = true; written = 40; renames = true }

abbrev automatic : SubscriberOptions
automatic = record no_options { replay_auto_mode = true }

abbrev before : World
before = record {
  subscriber = record subscriber { checkpoint = some fresh };
  worker = Worker.new;
  queue = Queue.new 16;
  pool = Pool.new 2;
  stats_queue = stats_queue;
}

abbrev after : World
after = step 2 16 4 archive before (message (fragment_of 7))

one_counted : after.subscriber.zc_messages_received ≡ 1
unfolding step handle_message_fast_path receive_in receive fill track_gap track_message
    count_message hand_over check_for_gaps is_duplicate contains add_to_deduplication_buffer
    Pool.allocate Pool.buffer_at Pool.new Pool.indices_from Queue.enqueue Queue.new Queue.next
    Worker.new Sub.new copy_from_aeron encode decode
one_counted = refl

counted : after.subscriber.zc_messages_received ≢ before.subscriber.zc_messages_received
unfolding Sub.new
counted e = let none_yet : ◌≡◌ {A = ℕ} 1 0 = sym one_counted ∙ e in absurd (omega (arith, none_yet))

restart_skips_example :
    let r = shut_down carried_out after no_files in
    (start_position automatic (checkpoint_position (enable_checkpoint subscriber r.1)) ≡ 128)
    × ((i : ℕ) × Holds 16 r.0.queue ([] ++ i ∷ []))
restart_skips_example =
    restart_skips sixteen-IsSize 4 archive automatic carried_out before (fragment_of 7) no_files
      subscriber [] fresh none_queued-Flows refl counted refl (omega arith) refl refl (omega arith)
      refl

-- A queue of four slots that is full.
abbrev full_queue : Queue.MessageQueue
full_queue =
    let put = λ (q : Queue.MessageQueue) (i : ℕ). (Queue.enqueue 4 q (some i)).1 in
    put (put (put (Queue.new 4) 5) 6) 7

abbrev full_system : Sub.System
full_system = record { subscriber = subscriber; pool = Pool.new 2; queue = full_queue }

abbrev after_drop : Sub.System
after_drop = handle_message_fast_path 2 4 archive full_system (fragment_of 7)

one_dropped : after_drop.subscriber.zc_queue_full_failures ≡ 1
unfolding handle_message_fast_path receive_in receive fill track_gap track_message count_message
    hand_over check_for_gaps is_duplicate contains add_to_deduplication_buffer Pool.allocate
    Pool.buffer_at Pool.new Pool.indices_from Pool.deallocate Pool.is_valid_buffer Queue.enqueue
    Queue.new Queue.next Sub.new copy_from_aeron encode decode
one_dropped = refl

dropped :
    after_drop.subscriber.zc_queue_full_failures ≢ full_system.subscriber.zc_queue_full_failures
unfolding Sub.new
dropped e = let none_yet : ◌≡◌ {A = ℕ} 1 0 = sym one_dropped ∙ e in absurd (omega (arith, none_yet))

subscriber-IsWindow : IsWindow subscriber
unfolding Sub.new
subscriber-IsWindow = record { enabled = refl; position = omega arith; fits = omega arith }

-- The worker has emptied the queue when the message comes again.
abbrev with_room : Sub.System
with_room = record { subscriber = after_drop.subscriber; pool = Pool.new 2; queue = Queue.new 4 }

dropped_refused_example :
    (handle_message_fast_path 2 4 archive with_room (fragment_of 7)).subscriber.zc_messages_received
    ≡ with_room.subscriber.zc_messages_received
dropped_refused_example =
    dropped_refused 2 4 archive full_system (fragment_of 7) [] subscriber-IsWindow (new-Owns 2)
      dropped with_room (fragment_of 7) [] refl (new-Owns 2) refl

-- Two messages, and a turn of the monitoring thread between them.
abbrev watch_steps : List Monitoring.Step
watch_steps = Monitoring.sends blank ∷ Monitoring.looks ∷ Monitoring.sends blank ∷ []

run_watches_example :
    let w = Monitoring.run 4 (Monitoring.begin 4) watch_steps in
    (taken : List MessageStats) × (w.figures ≡ monitor_all start taken)
    × (w.figures.counter ≡ length taken % 2 ^ 64)
    × (w.accepted ≡ taken ++ items 4 Stats.blank w.queue)
    × (length w.accepted + w.skipped ≡ Monitoring.sent watch_steps)
run_watches_example = run_watches four-IsSize watch_steps
