-- ===== src/CheckpointManager/Crash.antt =====
-- The checkpoint file over the life of a manager: each access of an `update` on the subscriber's
-- thread and each of a `flush` on the flushing thread is an event of its own. Flushes come one after
-- another, as `flushLoop` and the destructor call them.
pub mod Early
use aeron_archive_replay.Base.{
  ℕ, ◌≤◌, ◌≡◌, refl, ap, ◌∙◌, ◌++◌, ◌⊎◌, inl, inr, Option, some, List, [], ◌∷◌, arith,
}
use aeron_archive_replay.CheckpointManager.{
  CheckpointData, CheckpointManager, Files, Answers, image, flush,
}
use aeron_archive_replay.CheckpointManager.Recovery.{flush-cases}
use aeron_archive_replay.CheckpointManager.Snapshot.{
  Reader, snapshot, System, Turn, writer_turn, reader_turn, step, start,
}
use aeron_archive_replay.CheckpointManager.Snapshot.Stores.{begun}
use aeron_archive_replay.CheckpointManager.Snapshot.Loads.{IsSnapshot, Loads, Loads-later}
use aeron_archive_replay.CheckpointManager.Snapshot.Torn.{Inv, start-Inv, step-Inv, Inv-IsSnapshot}

-- The manager's data are those of the system.
pub record Life : Type 0 where
  pub system : System
  pub manager : CheckpointManager
  pub files : Files

-- One access of an update, or the next part of a flush: a load, or the writing, which the operating
-- system answers.
pub data Event : Type 0 where
  updating : Event
  flushing : Answers → Event

abbrev pub turn_of : Event → Turn
turn_of updating = writer_turn
turn_of (flushing os) = reader_turn

-- What `flush` does after its loads, with the values that they gave.
unfoldable pub write : Reader → Answers → CheckpointManager → Files → CheckpointManager × Files
unfolding flush
write (snapshot since d) os m files = flush os (record m { checkpoint_data = d }) files
write _ os m files = (m, files)

unfoldable pub written : Event → Life → CheckpointManager × Files
unfolding write
written updating l = (l.manager, l.files)
written (flushing os) l = write l.system.reader os l.manager l.files

module _ (checkpoints : ℕ → CheckpointData) where
  unfoldable pub next : Event → Life → Life
  unfolding written step
  next e l =
      let r = written e l in
      record {
        system = step checkpoints l.system (turn_of e);
        manager = record r.0 {
          checkpoint_data = (step checkpoints l.system (turn_of e)).checkpoint_data;
        };
        files = r.1;
      }

  unfoldable pub run : List Event → Life → Life
  unfolding next
  run [] l = l
  run (e ∷ es) l = run es (next e l)

  -- The life of a manager starts with the first checkpoint, before any update.
  abbrev pub begin : CheckpointManager → Files → Life
  begin m files = record {
    system = start checkpoints;
    manager = record m { checkpoint_data = checkpoints 0 };
    files = files;
  }

  -- The file is what a flush wrote: after the events `before` it had its snapshot, and `os` is how
  -- the system answered it.
  pub record IsFlushed (es : List Event) (l : Life) (file : Option (List ℕ)) : Type 0 where
    pub before : List Event
    pub os : Answers
    pub after : List Event
    pub since : ℕ
    pub d : CheckpointData
    pub events : es ≡ before ++ flushing os ∷ after
    pub taken : (run before l).system.reader ≡ snapshot since d
    pub of_updates : IsSnapshot checkpoints since (begun (run before l).system) d
    pub whole : file ≡ some (image d)

  write-cases :
      (r : Reader) (os : Answers) (m : CheckpointManager) (files : Files)
      → ((write r os m files).1.checkpoint_file ≡ files.checkpoint_file)
        ⊎ ((since : ℕ) × (d : CheckpointData) × (r ≡ snapshot since d)
            × ((write r os m files).1.checkpoint_file ≡ some (image d)))
  unfolding write
  write-cases (snapshot since d) os m files =
      elim (flush-cases os (record m { checkpoint_data = d }) files) [
        | inl done ↦ inr (since, d, refl, done)
        | inr kept ↦ inl kept
      ]
  write-cases _ os m files = inl refl

  next-cases :
      (e : Event) (es : List Event) (l : Life) {file : Option (List ℕ)}
      → Inv checkpoints l.system
      → file ≡ (next e l).files.checkpoint_file
      → (file ≡ l.files.checkpoint_file) ⊎ IsFlushed (e ∷ es) l file
  unfolding next written run
  next-cases updating es l v same = inl same
  next-cases (flushing os) es l v same = elim (write-cases l.system.reader os l.manager l.files) [
    | inl kept ↦ inl (same ∙ kept)
    | inr k ↦ inr (record {
      before = [];
      os = os;
      after = es;
      since = k.0;
      d = k.1;
      events = refl;
      taken = k.2;
      of_updates = Inv-IsSnapshot checkpoints l.system v k.2;
      whole = same ∙ k.3;
    })
  ]

  run-IsFlushed_from :
      (es : List Event) (l : Life)
      → Inv checkpoints l.system
      → let file = (run es l).files.checkpoint_file in
        (file ≡ l.files.checkpoint_file) ⊎ IsFlushed es l file
  unfolding run next
  run-IsFlushed_from [] l v = inl refl
  run-IsFlushed_from (e ∷ es) l v =
      elim (run-IsFlushed_from es (next e l) (step-Inv checkpoints (turn_of e) l.system v)) [
        | inl same ↦ next-cases e es l v same
        | inr k ↦ inr (record {
          before = e ∷ k.before;
          os = k.os;
          after = k.after;
          since = k.since;
          d = k.d;
          events = ap (λ es. e ∷ es) k.events;
          taken = k.taken;
          of_updates = k.of_updates;
          whole = k.whole;
        })
      ]

  -- Whatever the order of the accesses of the updates on one thread and of the flushes, one after
  -- another, on another, each of them sequentially consistent, and however the system answers the
  -- flushes: the checkpoint file is the one that was there at first, or the whole image of the
  -- snapshot that one of the flushes took. Each value of this snapshot is that of the last update
  -- that was over when that flush began, or of a later one that had begun when it had its
  -- snapshot, and is at most one update ahead of the value loaded after it.
  pub run-IsFlushed :
      (es : List Event) (m : CheckpointManager) (files : Files)
      → let file = (run es (begin m files)).files.checkpoint_file in
        (file ≡ files.checkpoint_file) ⊎ IsFlushed es (begin m files) file
  run-IsFlushed es m files = run-IsFlushed_from es (begin m files) (start-Inv checkpoints)
