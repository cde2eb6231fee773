-- ===== src/CheckpointManager.antt =====
-- subscriber/src/CheckpointManager.cpp and its header: the position that a subscriber keeps in a file.
-- The file system is the contents of the two paths that the manager uses.
pub mod Recovery
pub mod Crash
pub mod Snapshot
use aeron_archive_replay.Base.{
  ℕ, ◌+◌, ◌-◌, Bool, true, false, not, ◌&&◌, ◌||◌, Option, none, some, List, [], ◌∷◌, ◌++◌, length,
  take, drop, ltb, ◌==◌, if◌then◌else◌, add64, to_bytes, of_bytes,
}

pub record CheckpointData : Type 0 where
  pub last_sequence_number : ℕ
  pub last_position : ℕ
  pub message_count : ℕ
  pub timestamp_ns : ℕ

pub record CheckpointManager : Type 0 where
  pub checkpoint_data : CheckpointData
  pub running : Bool
  pub flush_count : ℕ
  pub flush_failures : ℕ

-- `checkpoint_file` is the file of that name and `temp_file` the one with `.tmp` added; `none` where
-- there is no such file.
pub record Files : Type 0 where
  pub checkpoint_file : Option (List ℕ)
  pub temp_file : Option (List ℕ)

-- How the operating system answers one flush: whether the temporary file opens, how many bytes of
-- what is written reach it, and whether the rename succeeds.
pub record Answers : Type 0 where
  pub opens : Bool
  pub written : ℕ
  pub renames : Bool

abbrev pub magic : ℕ
magic = 0x4348_4b50

abbrev pub version : ℕ
version = 1

abbrev pub file_size : ℕ
file_size = 40

abbrev pub no_data : CheckpointData
no_data = record {
  last_sequence_number = 0;
  last_position = 0;
  message_count = 0;
  timestamp_ns = 0;
}

-- The members' initial values.
abbrev pub fresh : CheckpointManager
fresh = record { checkpoint_data = no_data; running = true; flush_count = 0; flush_failures = 0 }

-- `now` is `getCurrentTimeNanos()`.
unfoldable pub update : CheckpointData → (sequence position msg_count now : ℕ) → CheckpointData
update d sequence position msg_count now = record {
  last_sequence_number = sequence;
  last_position = position;
  message_count = msg_count;
  timestamp_ns = now;
}

abbrev pub get_last_sequence : CheckpointManager → ℕ
get_last_sequence m = m.checkpoint_data.last_sequence_number

abbrev pub get_last_position : CheckpointManager → ℕ
get_last_position m = m.checkpoint_data.last_position

abbrev pub get_message_count : CheckpointManager → ℕ
get_message_count m = m.checkpoint_data.message_count

abbrev pub get_timestamp : CheckpointManager → ℕ
get_timestamp m = m.checkpoint_data.timestamp_ns

-- The bytes that `flush` writes, in order.
unfoldable pub image : CheckpointData → List ℕ
image d =
    to_bytes 4 magic
    ++ to_bytes 2 version
    ++ to_bytes 2 0
    ++ to_bytes 8 d.last_sequence_number
    ++ to_bytes 8 d.last_position
    ++ to_bytes 8 d.message_count
    ++ to_bytes 8 d.timestamp_ns

unfoldable pub is_unset : CheckpointData → Bool
is_unset d = d.last_sequence_number == 0 && d.last_position == 0 && d.message_count == 0

abbrev pub failed : CheckpointManager → CheckpointManager
failed m = record m { flush_failures = add64 m.flush_failures 1 }

unfoldable pub flush : Answers → CheckpointManager → Files → CheckpointManager × Files
unfolding image is_unset
flush os m files =
    let bytes = image m.checkpoint_data in
    let opened = record files { temp_file = some (take os.written bytes) } in
    if is_unset m.checkpoint_data
    then (m, files)
    else if not os.opens
    then (failed m, files)
    else if ltb os.written (length bytes)
    then (failed m, opened)
    else if not os.renames
    then (failed m, opened)
    else (
      record m { flush_count = add64 m.flush_count 1 },
      record { checkpoint_file = opened.temp_file; temp_file = none },
    )

-- `n` bytes at `at`, as the machine's little-endian number.
abbrev pub number_at : List ℕ → ℕ → ℕ → ℕ
number_at bytes at n = of_bytes (take n (drop at bytes))

-- A short read leaves its variable unset, and is refused by the test of the version or by the last
-- test.
unfoldable pub load_bytes : List ℕ → Option CheckpointData
load_bytes bytes =
    if ltb (length bytes) 4 || not (number_at bytes 0 4 == magic)
    then none
    else if not (number_at bytes 4 2 == version)
    then none
    else if ltb (length bytes) file_size
    then none
    else some (record {
      last_sequence_number = number_at bytes 8 8;
      last_position = number_at bytes 16 8;
      message_count = number_at bytes 24 8;
      timestamp_ns = number_at bytes 32 8;
    })

unfoldable pub loaded_with : CheckpointManager → Option CheckpointData → CheckpointManager
loaded_with m none = m
loaded_with m (some d) = record m { checkpoint_data = d }

-- Where the file is missing or refused, the manager keeps its d.
unfoldable pub load : CheckpointManager → Option (List ℕ) → CheckpointManager
unfolding load_bytes loaded_with
load m none = m
load m (some bytes) = loaded_with m (load_bytes bytes)

abbrev pub force_flush : Answers → CheckpointManager → Files → CheckpointManager × Files
force_flush os m files = flush os m files

-- The constructor, then the flushes of the background thread, one after each sleep while `running_` holds, and
-- the flush of the destructor.
abbrev pub start : Files → CheckpointManager
start files = load fresh files.checkpoint_file

unfoldable pub flush_loop : List Answers → CheckpointManager → Files → CheckpointManager × Files
unfolding flush
flush_loop [] m files = (m, files)
flush_loop (os ∷ answers) m files =
    let next = if m.running then flush os m files else (m, files) in
    flush_loop answers next.0 next.1

unfoldable pub close : Answers → CheckpointManager → Files → CheckpointManager × Files
close os m files = flush os (record m { running = false }) files
