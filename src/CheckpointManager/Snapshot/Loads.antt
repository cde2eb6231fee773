-- ===== src/CheckpointManager/Snapshot/Loads.antt =====
-- What the loads of a flush have read, between any two accesses.
use aeron_archive_replay.Base.{ℕ, suc, ◌≤◌, ◌≡◌, arith}
use aeron_archive_replay.CheckpointManager.{CheckpointData}
use aeron_archive_replay.CheckpointManager.Snapshot.{
  Reader, waiting, sequence_loaded, position_loaded, count_loaded, snapshot, System, load_next,
}
use aeron_archive_replay.CheckpointManager.Snapshot.Stores.{
  sequence_of, position_of, count_of, order, Stored,
}

module _ (checkpoints : ℕ → CheckpointData) where
  -- The values of a snapshot come from the updates `i`, `j`, `k` and `l`: from none older than
  -- `since`, none that is not begun yet, and none that is more than one ahead of the next value's.
  pub record IsSnapshot (since begun : ℕ) (d : CheckpointData) : Type 0 where
    pub i : ℕ
    pub j : ℕ
    pub k : ℕ
    pub l : ℕ
    pub fresh : (since ≤ i) × (since ≤ j) × (since ≤ k) × (since ≤ l)
    pub lag : (i ≤ suc j) × (j ≤ suc k) × (k ≤ suc l)
    pub no_later : (i ≤ begun) × (j ≤ begun) × (k ≤ begun) × (l ≤ begun)
    pub sequence : d.last_sequence_number ≡ (checkpoints i).last_sequence_number
    pub position : d.last_position ≡ (checkpoints j).last_position
    pub counted : d.message_count ≡ (checkpoints k).message_count
    pub timed : d.timestamp_ns ≡ (checkpoints l).timestamp_ns

  -- What the flush has loaded so far, while `e` updates are over and the first three values in memory
  -- are of the updates `a`, `b` and `c`.
  unfoldable pub Loads : (e a b c : ℕ) → Reader → Type 0
  Loads e a b c waiting = Unit
  Loads e a b c (sequence_loaded n seq) =
      (n ≤ e) × (i : ℕ) × (n ≤ i) × (i ≤ a) × (seq ≡ (checkpoints i).last_sequence_number)
  Loads e a b c (position_loaded n seq pos) =
      (n ≤ e)
      × (i : ℕ) × (j : ℕ) × (n ≤ i)
      × (i ≤ suc j)
      × (i ≤ a)
      × (n ≤ j)
      × (j ≤ b)
      × (seq ≡ (checkpoints i).last_sequence_number)
      × (pos ≡ (checkpoints j).last_position)
  Loads e a b c (count_loaded n seq pos count) =
      (n ≤ e)
      × (i : ℕ) × (j : ℕ) × (k : ℕ) × (n ≤ i)
      × (i ≤ suc j)
      × (i ≤ a)
      × (n ≤ j)
      × (j ≤ suc k)
      × (j ≤ b)
      × (n ≤ k)
      × (k ≤ c)
      × (seq ≡ (checkpoints i).last_sequence_number)
      × (pos ≡ (checkpoints j).last_position)
      × (count ≡ (checkpoints k).message_count)
  Loads e a b c (snapshot n d) = IsSnapshot n a d

  pub Loads-later :
      {e a b c e' a' b' c' : ℕ} (r : Reader)
      → e ≤ e'
      → a ≤ a'
      → b ≤ b'
      → c ≤ c'
      → Loads e a b c r
      → Loads e' a' b' c' r
  unfolding Loads
  Loads-later waiting g h h' h'' v = tt
  Loads-later (sequence_loaded n seq) g h h' h'' v =
      (omega (arith, v.0), v.1, v.2, omega (arith, v.3), v.4)
  Loads-later (position_loaded n seq pos) g h h' h'' v = (
    omega (arith, v.0),
    v.1,
    v.2,
    v.3,
    v.4,
    omega (arith, v.5),
    v.6,
    omega (arith, v.7),
    v.8,
    v.9,
  )
  Loads-later (count_loaded n seq pos count) g h h' h'' v = (
    omega (arith, v.0),
    v.1,
    v.2,
    v.3,
    v.4,
    v.5,
    omega (arith, v.6),
    v.7,
    v.8,
    omega (arith, v.9),
    v.10,
    omega (arith, v.11),
    v.12,
    v.13,
    v.14,
  )
  Loads-later {a' = a'} (snapshot n d) g h h' h'' v = record {
    i = v.i;
    j = v.j;
    k = v.k;
    l = v.l;
    fresh = v.fresh;
    lag = v.lag;
    no_later = (
      omega (arith, v.no_later.0),
      omega (arith, v.no_later.1),
      omega (arith, v.no_later.2),
      omega (arith, v.no_later.3),
    );
    sequence = v.sequence;
    position = v.position;
    counted = v.counted;
    timed = v.timed;
  }

  pub load_next-Loads :
      (r : Reader) (s : System)
      → Stored checkpoints s.checkpoint_data s.updates s.writer
      → let n = s.updates in
        let w = s.writer in
        Loads n (sequence_of n w) (position_of n w) (count_of n w) r
        → Loads n (sequence_of n w) (position_of n w) (count_of n w) (load_next checkpoints r s)
  unfolding load_next Loads
  load_next-Loads waiting s m v =
      let o = order s.updates s.writer in
      (omega arith, _, omega (arith, o.sequence_first), omega arith, m.sequence)
  load_next-Loads (sequence_loaded n seq) s m v =
      let o = order s.updates s.writer in
      (
        v.0,
        v.1,
        _,
        v.2,
        omega (arith, v.3, o.sequence_first, o.not_over),
        v.3,
        omega (arith, v.0, o.sequence_first),
        omega arith,
        v.4,
        m.position,
      )
  load_next-Loads (position_loaded n seq pos) s m v =
      let o = order s.updates s.writer in
      (
        v.0,
        v.1,
        v.2,
        _,
        v.3,
        v.4,
        v.5,
        v.6,
        omega (arith, v.7, o.sequence_first, o.not_over),
        v.7,
        omega (arith, v.0, o.sequence_first),
        omega arith,
        v.8,
        v.9,
        m.counted,
      )
  load_next-Loads (count_loaded n seq pos count) s m v =
      let o = order s.updates s.writer in
      record {
        i = v.1;
        j = v.2;
        k = v.3;
        l = s.updates;
        fresh = (v.4, v.7, v.10, v.0);
        lag = (v.5, v.8, omega (arith, v.11, o.sequence_first, o.not_over));
        no_later = (
          v.6,
          omega (arith, v.9, o.sequence_first),
          omega (arith, v.11, o.sequence_first),
          omega (arith, o.sequence_first),
        );
        sequence = v.12;
        position = v.13;
        counted = v.14;
        timed = m.timed;
      }
  load_next-Loads (snapshot n d) s m v = tt
