-- ===== src/CheckpointManager/Snapshot/Stores.antt =====
-- The values in memory between the stores of an update.
use aeron_archive_replay.Base.{ℕ, suc, ◌≤◌, ◌≡◌, refl, arith}
use aeron_archive_replay.CheckpointManager.{CheckpointData}
use aeron_archive_replay.CheckpointManager.Snapshot.{
  Writer, idle, sequence_stored, position_stored, count_stored, System, writer_turn, store, step,
}

-- The last update whose number stands in memory, and the same of its position and its count.
abbrev pub sequence_of : ℕ → Writer → ℕ
sequence_of n idle = n
sequence_of n _ = suc n

-- How many updates have begun.
abbrev pub begun : System → ℕ
begun s = sequence_of s.updates s.writer

abbrev pub position_of : ℕ → Writer → ℕ
position_of n idle = n
position_of n sequence_stored = n
position_of n _ = suc n

abbrev pub count_of : ℕ → Writer → ℕ
count_of n count_stored = suc n
count_of n _ = n

-- The order in which an update stores its values.
pub record Ordered (n : ℕ) (w : Writer) : Type 0 where
  pub sequence_first :
      (n ≤ count_of n w) × (count_of n w ≤ position_of n w) × (position_of n w ≤ sequence_of n w)
  pub not_over : sequence_of n w ≤ suc n

pub order : (n : ℕ) (w : Writer) → Ordered n w
order n idle = record {
  sequence_first = (omega arith, omega arith, omega arith);
  not_over = omega arith;
}
order n _ = record {
  sequence_first = (omega arith, omega arith, omega arith);
  not_over = omega arith;
}

module _ (checkpoints : ℕ → CheckpointData) where
  pub record Stored (d : CheckpointData) (n : ℕ) (w : Writer) : Type 0 where
    pub sequence : d.last_sequence_number ≡ (checkpoints (sequence_of n w)).last_sequence_number
    pub position : d.last_position ≡ (checkpoints (position_of n w)).last_position
    pub counted : d.message_count ≡ (checkpoints (count_of n w)).message_count
    pub timed : d.timestamp_ns ≡ (checkpoints n).timestamp_ns

  pub store-Stored :
      (s : System)
      → Stored s.checkpoint_data s.updates s.writer
      → let t = step checkpoints s writer_turn in Stored t.checkpoint_data t.updates t.writer
  unfolding step store
  store-Stored s v = by_writer s.writer v
    where
      by_writer :
          (w : Writer)
          → Stored s.checkpoint_data s.updates w
          → let t = store checkpoints w s in Stored t.checkpoint_data t.updates t.writer
      by_writer idle v = record {
        sequence = refl;
        position = v.position;
        counted = v.counted;
        timed = v.timed;
      }
      by_writer sequence_stored v = record {
        sequence = v.sequence;
        position = refl;
        counted = v.counted;
        timed = v.timed;
      }
      by_writer position_stored v = record {
        sequence = v.sequence;
        position = v.position;
        counted = refl;
        timed = v.timed;
      }
      by_writer count_stored v = record {
        sequence = v.sequence;
        position = v.position;
        counted = v.counted;
        timed = refl;
      }
