-- ===== src/CheckpointManager/Snapshot.antt =====
-- The four stores of `update` on the subscriber's thread against the four loads of `flush` on the
-- flushing thread, one at a time. The relaxed accesses are taken as sequentially consistent.
pub mod Stores
pub mod Loads
pub mod Torn
use aeron_archive_replay.Base.{ℕ, suc, List, [], ◌∷◌}
use aeron_archive_replay.CheckpointManager.{CheckpointData}

-- How many of its stores an update has done.
pub data Writer : Type 0 where
  idle : Writer
  sequence_stored : Writer
  position_stored : Writer
  count_stored : Writer

-- What a flush has loaded. `since` is not in the source: how many updates were over when it began.
pub data Reader : Type 0 where
  waiting : Reader
  sequence_loaded : (since seq : ℕ) → Reader
  position_loaded : (since seq pos : ℕ) → Reader
  count_loaded : (since seq pos count : ℕ) → Reader
  snapshot : (since : ℕ) (d : CheckpointData) → Reader

-- `updates` counts the updates that are over.
pub record System : Type 0 where
  pub checkpoint_data : CheckpointData
  pub updates : ℕ
  pub writer : Writer
  pub reader : Reader

pub data Turn : Type 0 where
  writer_turn : Turn
  reader_turn : Turn

-- `checkpoints 0` is the checkpoint at first, and `checkpoints (suc n)` the arguments of the `n`th
-- update.
module _ (checkpoints : ℕ → CheckpointData) where
  unfoldable pub store : Writer → System → System
  store idle s =
      let d = checkpoints (suc s.updates) in
      record s {
        checkpoint_data = record s.checkpoint_data {
          last_sequence_number = d.last_sequence_number;
        };
        writer = sequence_stored;
      }
  store sequence_stored s =
      let d = checkpoints (suc s.updates) in
      record s {
        checkpoint_data = record s.checkpoint_data { last_position = d.last_position };
        writer = position_stored;
      }
  store position_stored s =
      let d = checkpoints (suc s.updates) in
      record s {
        checkpoint_data = record s.checkpoint_data { message_count = d.message_count };
        writer = count_stored;
      }
  store count_stored s =
      let d = checkpoints (suc s.updates) in
      record s {
        checkpoint_data = record s.checkpoint_data { timestamp_ns = d.timestamp_ns };
        updates = suc s.updates;
        writer = idle;
      }

  -- A flush that has its snapshot goes on with it; the next turn begins another.
  unfoldable pub load_next : Reader → System → Reader
  load_next waiting s = sequence_loaded s.updates s.checkpoint_data.last_sequence_number
  load_next (sequence_loaded n seq) s = position_loaded n seq s.checkpoint_data.last_position
  load_next (position_loaded n seq pos) s = count_loaded n seq pos s.checkpoint_data.message_count
  load_next (count_loaded n seq pos count) s = snapshot n (record {
    last_sequence_number = seq;
    last_position = pos;
    message_count = count;
    timestamp_ns = s.checkpoint_data.timestamp_ns;
  })
  load_next (snapshot n d) s = waiting

  unfoldable pub step : System → Turn → System
  unfolding store load_next
  step s writer_turn = store s.writer s
  step s reader_turn = record s { reader = load_next s.reader s }

  unfoldable pub run : System → List Turn → System
  unfolding step
  run s [] = s
  run s (t ∷ turns) = run (step s t) turns

  abbrev pub start : System
  start = record { checkpoint_data = checkpoints 0; updates = 0; writer = idle; reader = waiting }
