-- ===== src/CheckpointManager/Crash/Early.antt =====
-- A flush that falls between the stores of an update, and the restart that reads its file.
use aeron_archive_replay.Base.{ℕ, ◌<◌, ◌^◌, ◌≡◌, refl, true, false, List, [], ◌∷◌, arith}
use aeron_archive_replay.CheckpointManager as Manager
use aeron_archive_replay.CheckpointManager.{
  CheckpointData, CheckpointManager, Files, Answers, is_unset,
}
use aeron_archive_replay.CheckpointManager.Recovery.{IsInt64, start-flush}
use aeron_archive_replay.CheckpointManager.Snapshot.{step, store, load_next}
use aeron_archive_replay.CheckpointManager.Crash.{
  Event, updating, flushing, run, next, write, written, begin,
}

-- What the system answers to a flush that it carries out.
abbrev pub carried : Answers
carried = record { opens = true; written = 40; renames = true }

-- The first store of an update, the four loads of a flush and its writing.
abbrev pub early_flush : List Event
early_flush =
    updating
    ∷ flushing carried
    ∷ flushing carried
    ∷ flushing carried
    ∷ flushing carried
    ∷ flushing carried
    ∷ []

module _ (checkpoints : ℕ → CheckpointData) (m : CheckpointManager) (files : Files) where
  abbrev mixed : CheckpointData
  mixed = record (checkpoints 0) { last_sequence_number = (checkpoints 1).last_sequence_number }

  -- Where all of a flush falls between the first and the second store of the first update, and the
  -- system carries it out: a restart from the file takes the number from that update, and the
  -- position, the count and the time from the checkpoint before it. The values that it takes are
  -- in range, and the three that the manager tests are not all 0.
  pub early_flush_restarts :
      IsInt64 (checkpoints 0)
      → (checkpoints 1).last_sequence_number < 2 ^ 64
      → is_unset mixed ≡ false
      → let files' = (run checkpoints early_flush (begin checkpoints m files)).files in
        (Manager.start files').checkpoint_data ≡ mixed
  unfolding run next written write step store load_next
  early_flush_restarts p q set =
      (start-flush carried (record m { checkpoint_data = mixed }) files set refl (omega arith) refl
        (record {
          last_sequence_number = q;
          last_position = p.last_position;
          message_count = p.message_count;
          timestamp_ns = p.timestamp_ns;
        })).0
