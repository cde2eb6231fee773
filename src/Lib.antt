-- ===== src/Lib.antt =====
-- Models and proofs of aeron-archive-replay: the publisher's messages and recordings, the path of a
-- message from the subscriber's Aeron thread to the worker's, the checkpoint that a restart begins
-- from, and the configuration of both programs.
--
-- The program's parts and the files that model them:
--
-- - SpscQueue: subscriber/include/SPSCQueue.h, the ring of statistics between worker and monitor.
-- - MessageQueue: subscriber/include/MessageQueue.h, the ring of buffer pointers between the
--   subscriber's thread and the worker's; MessageQueue/Threads runs `enqueue` and `dequeue` on two
--   threads, one access of memory at a time, under sequential consistency.
-- - Crc, MessageHeader, MessageBuffer: subscriber/include/MessageBuffer.h (common/include holds the
--   same file), the checksum, the packed header as bytes, and the buffer of the pool.
-- - BufferPool: subscriber/include/BufferPool.h; a pointer is an index. BufferPool has a call at a
--   time, BufferPool/Threads any number of threads, one access of memory at a time.
-- - CheckpointManager: subscriber/src/CheckpointManager.cpp; the file system is the contents of the
--   file and of its temporary file, and what the system answers to a flush is an argument. Snapshot
--   has the stores of `update` against the loads of `flush`, one at a time, and Crash adds what the
--   flush writes.
-- - AeronSubscriber: subscriber/src/AeronSubscriber.cpp. Tracking has the gaps and the duplicates,
--   FastPath `handleMessageFastPath`, Legacy `extractMessageNumber`, Polling the loop `run`,
--   Recording the calls of Aeron and of its archive, whose answers are arguments; Shutdown runs the
--   loop and `shutdown` on two threads, one access of a member at a time.
-- - MessageWorker: subscriber/src/MessageWorker.cpp, the worker's loop.
-- - Pipeline: the subscriber and the worker over one pool and one queue, whole messages and whole
--   passes in any order.
-- - ConfigLoader: common/src/ConfigLoader.cpp. Ini has `trim` and `parseINI`, Loading `loadFromFile`
--   and the environment, Templates `generateTemplate`; the contents of files are arguments.
-- - RecordingController: publisher/src/RecordingController.cpp; the archive's listings and answers are
--   arguments.
-- - AeronPublisher: publisher/src/AeronPublisher.cpp. Message builds a message, Running takes the
--   turns of the publishing thread and of the commands in any order; what `offer` answers is an
--   argument.
-- - TestMessagePublisher: test_message_publisher.cpp, which sends the same messages up to a count.
-- - Programs: publisher/src/main.cpp and subscriber/src/main.cpp, from the options that `getopt_long`
--   delivers to the running objects, the figures of the monitoring thread over the statistics
--   queue, and the end of the subscriber's program.
-- - ReplayToLiveHandler: deprecated/ReplayToLiveHandler.cpp, which nothing builds any more.
-- - Ring and Fifo: indices that wrap, and the bounded queue that both rings implement.
-- - Base: the names, lists, words and bytes that all share. Tests: concrete runs.
--
-- A word of w bits is a number below 2 ^ w with the wrap written out; an `int64_t` is its bit
-- pattern, compared through `slt`. Loops run on lists, so no fuel is needed, but for the printing of
-- a number, which has twenty digits to use: enough for 64 bits, since 2 ^ 64 is below 10 ^ 20. The
-- polling and worker loops run on the list of what each turn meets.
--
-- Not modelled: printing and floating-point ratios; the weak memory order of the atomics, and
-- frees within a poll; in the programs the usage texts and the signal handlers; the logger;
-- an exception of Aeron in `startLive`, which ends the program. Aeron and its
-- archive client are not in the repository.
pub mod Base
pub mod Ring
pub mod Fifo
pub mod SpscQueue
pub mod MessageQueue
pub mod Crc
pub mod MessageHeader
pub mod MessageBuffer
pub mod BufferPool
pub mod CheckpointManager
pub mod AeronSubscriber
pub mod MessageWorker
pub mod Pipeline
pub mod Tests
pub mod ConfigLoader
pub mod RecordingController
pub mod AeronPublisher
pub mod Programs
pub mod TestMessagePublisher
pub mod ReplayToLiveHandler
