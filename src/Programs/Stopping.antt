-- ===== src/Programs/Stopping.antt =====
-- The end of subscriber/src/main.cpp, after the subscriber's thread has left its loop, and what a
-- restart makes of it.
use aeron_archive_replay.Ring.Size.{IsSize}
use aeron_archive_replay.Base.{
  ℕ, ◌^◌, ◌<◌, ◌≤◌, ◌≡◌, ◌≢◌, refl, sym, subst, ap, ◌∙◌, Bool-cases, inl, inr, true, false, Option,
  none, some, List, [], ◌∷◌, ◌++◌, slt, ◌==◌, of_bytes, to_bytes, of_bytes-to_bytes, arith,
}
use aeron_archive_replay.CheckpointManager.{
  CheckpointData, CheckpointManager, Files, Answers, fresh, image, is_unset, close, load,
  load_bytes, loaded_with, start, get_last_position,
}
use aeron_archive_replay.CheckpointManager.Recovery.{flush_whole}
use aeron_archive_replay.AeronSubscriber.{AeronSubscriber, System, enable_checkpoint, shutdown}
use aeron_archive_replay.AeronSubscriber.Recording.{Archive}
use aeron_archive_replay.AeronSubscriber.FastPath.{Fragment, handle_message_fast_path}
use aeron_archive_replay.MessageWorker as Worker
use aeron_archive_replay.Pipeline.{Holds, Flows}
use aeron_archive_replay.Pipeline.Receiving.{tally, Outcome, handle_message_fast_path-Outcome}
use aeron_archive_replay.Pipeline.Checkpointed.{At, handle_message_fast_path-At}
use aeron_archive_replay.Pipeline.Interleaving.{World, message, step}
use aeron_archive_replay.Programs.SubscriberMain.{
  SubscriberOptions, start_position, checkpoint_position,
}

-- The destructor of the subscriber's checkpoint manager.
unfoldable pub close_checkpoint : Answers → Option CheckpointManager → Files → Files
close_checkpoint os none files = files
close_checkpoint os (some c) files = (close os c files).1

-- The subscriber and the worker are stopped, and what `main` holds is destroyed.
unfoldable pub shut_down : Answers → World → Files → World × Files
unfolding shutdown close_checkpoint
shut_down os w files = (
  record w { subscriber = shutdown w.subscriber; worker = Worker.stop w.worker },
  close_checkpoint os w.subscriber.checkpoint files,
)

is_unset-position : (d : CheckpointData) → slt 0 d.last_position ≡ true → is_unset d ≡ false
unfolding is_unset
is_unset-position d h = elim (Bool-cases (d.last_sequence_number == 0)) [
  | inl e ↦ rw (e, position_set) refl
  | inr e ↦ rw e refl
]
  where
    position_set : (d.last_position == 0) ≡ false
    position_set = ground arith

load-position :
    (d : CheckpointData)
    → d.last_position < 2 ^ 64
    → get_last_position (load fresh (some (image d))) ≡ d.last_position
unfolding load loaded_with load_bytes image to_bytes of_bytes
load-position d h = of_bytes-to_bytes 8 d.last_position h

-- The position that a start reads from the file of a flush that the system carries out whole.
start-close :
    (os : Answers) (c : CheckpointManager) (files : Files)
    → os.opens ≡ true
    → 40 ≤ os.written
    → os.renames ≡ true
    → slt 0 c.checkpoint_data.last_position ≡ true
    → c.checkpoint_data.last_position < 2 ^ 64
    → get_last_position (start (close os c files).1) ≡ c.checkpoint_data.last_position
unfolding close
start-close os c files opens whole moved set small =
    rw
      (flush_whole os (record c { running = false }) files (is_unset-position c.checkpoint_data set)
        opens whole moved)
      (load-position c.checkpoint_data small)

module _ (o : SubscriberOptions) (auto : o.replay_auto_mode ≡ true) (os : Answers)
    (opens : os.opens ≡ true) (whole : 40 ≤ os.written) (moved : os.renames ≡ true) where
  start_position-At :
      (position : ℕ) (files : Files) (sub next_sub : AeronSubscriber)
      → slt 0 position ≡ true
      → position < 2 ^ 64
      → At position sub
      → start_position o (
          checkpoint_position
            (enable_checkpoint next_sub (close_checkpoint os sub.checkpoint files)))
        ≡ position
  unfolding close_checkpoint enable_checkpoint checkpoint_position start_position
  start_position-At position files sub next_sub set small (c, e, p) =
      rw e (ap resumed loaded ∙ rw (set, auto) refl)
    where
      resumed : ℕ → ℕ
      resumed = start_position o

      loaded : get_last_position (start (close os c files).1) ≡ position
      loaded =
          start-close os c files opens whole moved (ap (slt 0) p ∙ set)
            (subst (λ n. n < 2 ^ 64) (sym p) small)
          ∙ p

queued :
    {pool_size queue_size : ℕ} {pending : List ℕ} {s t : System}
    → t.subscriber.zc_messages_received ≢ s.subscriber.zc_messages_received
    → Outcome pool_size queue_size pending s t
    → (i : ℕ) × Holds queue_size t.queue (pending ++ i ∷ [])
unfolding tally
queued counted (Outcome.no_buffer l e v) = absurd (counted (ap (λ c. c.received) e))
queued counted (Outcome.duplicate e v) = absurd (counted (ap (λ c. c.received) e))
queued counted (Outcome.no_room l k e v) = absurd (counted (ap (λ c. c.received) e))
queued counted (Outcome.received i e v) = (i, v.holds)

module _ {pool_size queue_size : ℕ} (size : IsSize queue_size) (stats_size : ℕ) (archive : Archive)
    (o : SubscriberOptions) (os : Answers) where
  -- Where the subscriber keeps a checkpoint and counts a message as received, its position being
  -- positive, and the program is stopped before the worker takes another message, the last flush
  -- being carried out whole: the message is still in the queue, as its last, and a restart in the
  -- automatic mode begins behind it.
  pub restart_skips :
      (w : World) (f : Fragment) (files : Files) (next_sub : AeronSubscriber) (pending : List ℕ)
      (m : CheckpointManager)
      → Flows pool_size queue_size w.pool w.queue pending
      → w.subscriber.checkpoint ≡ some m
      → let v = step pool_size queue_size stats_size archive w (message f) in
        v.subscriber.zc_messages_received ≢ w.subscriber.zc_messages_received
        → os.opens ≡ true
        → 40 ≤ os.written
        → os.renames ≡ true
        → slt 0 f.position ≡ true
        → f.position < 2 ^ 64
        → o.replay_auto_mode ≡ true
        → let r = shut_down os v files in
          (start_position o (checkpoint_position (enable_checkpoint next_sub r.1)) ≡ f.position)
          × ((i : ℕ) × Holds queue_size r.0.queue (pending ++ i ∷ []))
  unfolding step shut_down
  restart_skips w f files next_sub pending m flows kept counted opens whole moved set small auto =
      let s : System = record { subscriber = w.subscriber; pool = w.pool; queue = w.queue } in
      let t = handle_message_fast_path pool_size queue_size archive s f in
      (
        start_position-At o auto os opens whole moved f.position files t.subscriber next_sub set
            small (handle_message_fast_path-At pool_size queue_size archive f s kept counted),
        queued counted (handle_message_fast_path-Outcome size archive s f flows),
      )
