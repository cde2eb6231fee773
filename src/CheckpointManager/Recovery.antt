-- ===== src/CheckpointManager/Recovery.antt =====
-- What a restart finds after a flush, whatever the operating system answered and wherever a crash cut
-- the flush off: a crash leaves the files as the failure at that point does.
use aeron_archive_replay.Base.{
  ℕ, ◌^◌, ◌<◌, ◌≤◌, ◌≡◌, refl, ap, ◌⊎◌, inl, inr, Bool-cases, true, false, none, some, List, length,
  take_all, ltb, ltb→ge, ge→ltb, of_bytes-to_bytes, to_bytes, of_bytes, if_same, if_true, lt→ltb,
  add64, arith,
}
use aeron_archive_replay.CheckpointManager.{
  CheckpointData, CheckpointManager, Files, Answers, fresh, image, is_unset, flush, load_bytes,
  load, loaded_with, start,
}

-- The numbers are bit patterns of an `int64_t`.
pub record IsInt64 (d : CheckpointData) : Type 0 where
  pub last_sequence_number : d.last_sequence_number < 2 ^ 64
  pub last_position : d.last_position < 2 ^ 64
  pub message_count : d.message_count < 2 ^ 64
  pub timestamp_ns : d.timestamp_ns < 2 ^ 64

-- What is written is read back.
pub load-image : {d : CheckpointData} → IsInt64 d → load_bytes (image d) ≡ some d
unfolding load_bytes image to_bytes of_bytes
load-image {d} p = λ i. some (record {
  last_sequence_number = of_bytes-to_bytes 8 d.last_sequence_number p.last_sequence_number i;
  last_position = of_bytes-to_bytes 8 d.last_position p.last_position i;
  message_count = of_bytes-to_bytes 8 d.message_count p.message_count i;
  timestamp_ns = of_bytes-to_bytes 8 d.timestamp_ns p.timestamp_ns i;
})

length-image : (d : CheckpointData) → length (image d) ≡ 40
unfolding image to_bytes
length-image d = refl

-- A checkpoint file of fewer than 40 bytes is refused.
pub load_short : (bytes : List ℕ) → length bytes < 40 → load_bytes bytes ≡ none
unfolding load_bytes
load_short bytes h = if_same _ (if_same _ (if_true _ (lt→ltb (length bytes) 40 h)))

-- The three ways in which a flush ends.
pub flush-cases :
    (os : Answers) (m : CheckpointManager) (files : Files)
    → ((flush os m files).1.checkpoint_file ≡ some (image m.checkpoint_data))
      ⊎ ((flush os m files).1.checkpoint_file ≡ files.checkpoint_file)
unfolding flush
flush-cases os m files = elim (Bool-cases (is_unset m.checkpoint_data)) [
  | inl unset ↦ rw unset (inr refl)
  | inr set ↦ elim (Bool-cases os.opens) [
    | inr shut ↦ rw set (rw shut (inr refl))
    | inl opens ↦ elim (Bool-cases (ltb os.written (length (image m.checkpoint_data)))) [
      | inl short ↦ rw set (rw opens (rw short (inr refl)))
      | inr whole ↦ elim (Bool-cases os.renames) [
        | inr kept ↦ rw set (rw opens (rw whole (rw kept (inr refl))))
        | inl moved ↦
            rw set
              (rw opens (rw whole (rw moved (inl (ap some (take_all _ _ (ltb→ge _ _ whole)))))))
      ]
    ]
  ]
]

loaded :
    (m : CheckpointManager) (bytes : List ℕ) {d : CheckpointData}
    → load_bytes bytes ≡ some d
    → (load m (some bytes)).checkpoint_data ≡ d
unfolding load loaded_with
loaded m bytes e = ap (λ o. (loaded_with m o).checkpoint_data) e

-- A flush of data that is set, which the system carries out whole.
pub flush_whole :
    (os : Answers) (m : CheckpointManager) (files : Files)
    → is_unset m.checkpoint_data ≡ false
    → os.opens ≡ true
    → 40 ≤ os.written
    → os.renames ≡ true
    → flush os m files ≡ (
      record m { flush_count = add64 m.flush_count 1 },
      record { checkpoint_file = some (image m.checkpoint_data); temp_file = none },
    )
unfolding flush
flush_whole os m files set opens whole moved = rw set (
    rw opens (
      rw (ge→ltb os.written (length (image m.checkpoint_data)) long) (
        rw moved (
          ap
            (λ b. (
              record m { flush_count = add64 m.flush_count 1 },
              record { checkpoint_file = some b; temp_file = none },
            ))
            (take_all (image m.checkpoint_data) os.written long)))))
  where
    long : length (image m.checkpoint_data) ≤ os.written
    long = omega (arith, length-image m.checkpoint_data)

-- A flush of data that is set and in range, which the system carries out whole, is what the next
-- start loads, whatever was there before; it counts as one flush and as no failure.
pub start-flush :
    (os : Answers) (m : CheckpointManager) (files : Files)
    → is_unset m.checkpoint_data ≡ false
    → os.opens ≡ true
    → 40 ≤ os.written
    → os.renames ≡ true
    → IsInt64 m.checkpoint_data
    → let r = flush os m files in
      ((start r.1).checkpoint_data ≡ m.checkpoint_data)
      × (r.0.flush_count ≡ add64 m.flush_count 1)
      × (r.0.flush_failures ≡ m.flush_failures)
unfolding load
start-flush os m files set opens whole moved p =
    rw (flush_whole os m files set opens whole moved) (loaded fresh _ (load-image p), refl, refl)
