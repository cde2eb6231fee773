-- ===== src/Tests/Checkpoints.antt =====
-- The checkpoint file on concrete data.
use aeron_archive_replay.CheckpointManager.Snapshot as Snapshot
use aeron_archive_replay.CheckpointManager.Snapshot.{Turn, writer_turn, reader_turn, snapshot}
use aeron_archive_replay.CheckpointManager.Snapshot.Loads.{IsSnapshot}
use aeron_archive_replay.CheckpointManager.Snapshot.Torn.{snapshot-IsSnapshot}
use aeron_archive_replay.Base.{
  ℕ, ◌*◌, ◌+◌, ◌≡◌, refl, ◌⊎◌, true, false, none, some, List, [], ◌∷◌, to_bytes, arith,
}
use aeron_archive_replay.CheckpointManager.{
  CheckpointData, CheckpointManager, Files, Answers, fresh, image, is_unset,
}
use aeron_archive_replay.CheckpointManager.Recovery.{IsInt64}
use aeron_archive_replay.CheckpointManager as Manager
use aeron_archive_replay.CheckpointManager.Crash as Crash
use aeron_archive_replay.CheckpointManager.Crash.Early.{early_flush, early_flush_restarts}
use aeron_archive_replay.CheckpointManager.Crash.{
  Event, updating, flushing, IsFlushed, run-IsFlushed,
}
use aeron_archive_replay.CheckpointManager.Snapshot.Stores.{begun}

abbrev sample : CheckpointData
sample = record {
  last_sequence_number = 7;
  last_position = 1280;
  message_count = 7;
  timestamp_ns = 99;
}

abbrev manager : CheckpointManager
manager = record fresh { checkpoint_data = sample }

abbrev carried_out : Answers
carried_out = record { opens = true; written = 40; renames = true }

abbrev cut_off : Answers
cut_off = record { opens = true; written = 11; renames = true }

abbrev no_files : Files
no_files = record { checkpoint_file = none; temp_file = none }

sample-IsInt64 : IsInt64 sample
sample-IsInt64 = record {
  last_sequence_number = omega arith;
  last_position = omega arith;
  message_count = omega arith;
  timestamp_ns = omega arith;
}

sample_is_set : is_unset sample ≡ false
unfolding is_unset
sample_is_set = refl

-- The checkpoint of the message `n`, at 64 bytes each.
abbrev checkpoint_of : ℕ → CheckpointData
checkpoint_of n = record {
  last_sequence_number = n;
  last_position = 64 * n;
  message_count = n;
  timestamp_ns = 1000 + n;
}

-- Two updates, with a flush between the second's first two stores.
abbrev flush_within : List Turn
flush_within =
    writer_turn ∷ writer_turn ∷ writer_turn ∷ writer_turn ∷ writer_turn ∷ reader_turn ∷ reader_turn
    ∷ writer_turn ∷ reader_turn ∷ reader_turn ∷ []

abbrev torn : CheckpointData
torn = record {
  last_sequence_number = 2;
  last_position = 64;
  message_count = 1;
  timestamp_ns = 1001;
}

loads_torn :
    (Snapshot.run checkpoint_of (Snapshot.start checkpoint_of) flush_within).reader
    ≡ snapshot 1 torn
unfolding Snapshot.run
loads_torn = refl

snapshot-IsSnapshot_example :
    IsSnapshot checkpoint_of 1
      (begun (Snapshot.run checkpoint_of (Snapshot.start checkpoint_of) flush_within))
      torn
snapshot-IsSnapshot_example = snapshot-IsSnapshot checkpoint_of flush_within 1 torn loads_torn

-- The same, and the flush is carried out.
abbrev life : List Event
life =
    updating
    ∷ updating
    ∷ updating
    ∷ updating
    ∷ updating
    ∷ flushing carried_out
    ∷ flushing carried_out
    ∷ updating
    ∷ flushing carried_out
    ∷ flushing carried_out
    ∷ flushing carried_out
    ∷ flushing cut_off
    ∷ []

writes_torn :
    (Crash.run checkpoint_of life (Crash.begin checkpoint_of fresh no_files)).files.checkpoint_file
    ≡ some (image torn)
unfolding Crash.run image to_bytes
writes_torn = refl

run-IsFlushed_example :
    let file =
      (Crash.run checkpoint_of life
        (Crash.begin checkpoint_of fresh no_files)).files.checkpoint_file in
    (file ≡ none) ⊎ IsFlushed checkpoint_of life (Crash.begin checkpoint_of fresh no_files) file
run-IsFlushed_example = run-IsFlushed checkpoint_of life fresh no_files

mixed_is_set : is_unset (record (checkpoint_of 0) { last_sequence_number = 1 }) ≡ false
unfolding is_unset
mixed_is_set = refl

checkpoint_of_0-IsInt64 : IsInt64 (checkpoint_of 0)
checkpoint_of_0-IsInt64 = record {
  last_sequence_number = omega arith;
  last_position = omega arith;
  message_count = omega arith;
  timestamp_ns = omega arith;
}

early_flush_restarts_example :
    let files =
      (Crash.run checkpoint_of early_flush (Crash.begin checkpoint_of fresh no_files)).files in
    (Manager.start files).checkpoint_data ≡ record (checkpoint_of 0) { last_sequence_number = 1 }
early_flush_restarts_example =
    early_flush_restarts checkpoint_of fresh no_files checkpoint_of_0-IsInt64 (omega arith)
      mixed_is_set
