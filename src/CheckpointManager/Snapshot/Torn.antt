-- ===== src/CheckpointManager/Snapshot/Torn.antt =====
-- Which updates the values of a snapshot come from.
use aeron_archive_replay.Base.{ℕ, ◌≡◌, refl, sym, subst, List, [], ◌∷◌, arith}
use aeron_archive_replay.CheckpointManager.{CheckpointData}
use aeron_archive_replay.CheckpointManager.Snapshot.Stores.{
  sequence_of, begun, position_of, count_of, Stored, store-Stored,
}
use aeron_archive_replay.CheckpointManager.Snapshot.Loads.{
  IsSnapshot, Loads, Loads-later, load_next-Loads,
}
use aeron_archive_replay.CheckpointManager.Snapshot.{
  Writer, idle, sequence_stored, position_stored, count_stored, snapshot, System, Turn, writer_turn,
  reader_turn, store, step, run, start,
}

module _ (checkpoints : ℕ → CheckpointData) where
  pub record Inv (s : System) : Type 0 where
    pub stored : Stored checkpoints s.checkpoint_data s.updates s.writer
    pub loads :
        Loads checkpoints s.updates
          (sequence_of s.updates s.writer)
          (position_of s.updates s.writer)
          (count_of s.updates s.writer)
          s.reader

  store-Loads :
      (w : Writer) (s : System)
      → let t = store checkpoints w s in
        Loads checkpoints s.updates
          (sequence_of s.updates w)
          (position_of s.updates w)
          (count_of s.updates w)
          s.reader
        → Loads checkpoints t.updates
            (sequence_of t.updates t.writer)
            (position_of t.updates t.writer)
            (count_of t.updates t.writer)
            s.reader
  unfolding store
  store-Loads idle s v =
      Loads-later checkpoints s.reader (omega arith) (omega arith) (omega arith) (omega arith) v
  store-Loads sequence_stored s v =
      Loads-later checkpoints s.reader (omega arith) (omega arith) (omega arith) (omega arith) v
  store-Loads position_stored s v =
      Loads-later checkpoints s.reader (omega arith) (omega arith) (omega arith) (omega arith) v
  store-Loads count_stored s v =
      Loads-later checkpoints s.reader (omega arith) (omega arith) (omega arith) (omega arith) v

  store-reader : (w : Writer) (s : System) → (store checkpoints w s).reader ≡ s.reader
  unfolding store
  store-reader idle s = refl
  store-reader _ s = refl

  pub step-Inv : (t : Turn) (s : System) → Inv s → Inv (step checkpoints s t)
  unfolding step
  step-Inv writer_turn s v = record {
    stored = store-Stored checkpoints s v.stored;
    loads =
        subst (Loads checkpoints _ _ _ _) (sym (store-reader s.writer s))
          (store-Loads s.writer s v.loads);
  }
  step-Inv reader_turn s v = record {
    stored = v.stored;
    loads = load_next-Loads checkpoints s.reader s v.stored v.loads;
  }

  pub start-Inv : Inv (start checkpoints)
  unfolding Loads
  start-Inv = record {
    stored = record { sequence = refl; position = refl; counted = refl; timed = refl };
    loads = tt;
  }

  run-Inv : (turns : List Turn) (s : System) → Inv s → Inv (run checkpoints s turns)
  unfolding run
  run-Inv [] s v = v
  run-Inv (t ∷ turns) s v = run-Inv turns (step checkpoints s t) (step-Inv t s v)

  pub Inv-IsSnapshot :
      {since : ℕ} {d : CheckpointData} (s : System)
      → Inv s
      → s.reader ≡ snapshot since d
      → IsSnapshot checkpoints since (begun s) d
  unfolding Loads
  Inv-IsSnapshot s v e = subst (Loads checkpoints _ _ _ _) e v.loads

  -- Whatever the order of the stores of the updates and the loads of a flush, each of them
  -- sequentially consistent: each value of the flush's snapshot is that of the last update that
  -- was over when the flush began, or of a later one that has begun by now; and a value is at most
  -- one update ahead of the value loaded after it.
  pub snapshot-IsSnapshot :
      (turns : List Turn) (since : ℕ) (d : CheckpointData)
      → (run checkpoints (start checkpoints) turns).reader ≡ snapshot since d
      → IsSnapshot checkpoints since (begun (run checkpoints (start checkpoints) turns)) d
  snapshot-IsSnapshot turns since d e =
      Inv-IsSnapshot (run checkpoints (start checkpoints) turns)
        (run-Inv turns (start checkpoints) start-Inv) e
