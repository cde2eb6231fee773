-- ===== src/MessageQueue/Threads.antt =====
-- `MessageQueue::enqueue` and `MessageQueue::dequeue` on two threads, one access of shared memory at
-- a time. The loads with acquire order and the stores with release order are taken as sequentially
-- consistent; each index is written by one thread only.
pub mod Invariant
pub mod Moves
pub mod Safety
use aeron_archive_replay.Base.{
  ℕ, Bool, true, false, Option, none, some, List, [], ◌∷◌, ◌++◌, get_or, set, add64, ◌==◌,
  if◌then◌else◌,
}
use aeron_archive_replay.MessageQueue.{Pointer, MessageQueue, next}

-- Where the producer stands in `enqueue(buf)`, with its locals.
pub data Producer : Type 0 where
  idle : Producer
  at_tail : (buf current_tail : ℕ) → Producer  -- the tail is loaded
  refused : Producer  -- the queue was full, before the failure is counted
  has_room : (buf current_tail : ℕ) → Producer  -- the head is checked
  written : (buf current_tail : ℕ) → Producer  -- the slot is stored
  published : Producer  -- the tail is stored, before the success is counted

-- Where the consumer stands in `dequeue`.
pub data Consumer : Type 0 where
  waiting : Consumer
  at_head : (current_head : ℕ) → Consumer  -- the head is loaded
  has_item : (current_head : ℕ) → Consumer  -- the tail is checked
  got : (current_head : ℕ) (item : Pointer) → Consumer  -- the slot is read
  cleared : (current_head : ℕ) (item : Pointer) → Consumer  -- the slot is cleared
  moved : Consumer  -- the head is stored, before the success is counted

-- `sent` and `received` record the pointers that each side has published and taken, in order.
pub record System : Type 0 where
  pub queue : MessageQueue
  pub producer : Producer
  pub consumer : Consumer
  pub sent : List Pointer
  pub received : List Pointer

module _ (size : ℕ) where
  -- The next access of the producer; an idle one begins to enqueue `b`.
  unfoldable pub produce : ℕ → Producer → System → System
  produce b idle s = record s { producer = at_tail b s.queue.tail }
  produce b (at_tail buf t) s = record s {
    producer = if next size t == s.queue.head then refused else has_room buf t;
  }
  produce b refused s =
      let q = s.queue in
      record s {
        queue = record q { enqueue_failures = add64 q.enqueue_failures 1 };
        producer = idle;
      }
  produce b (has_room buf t) s =
      let q = s.queue in
      record s { queue = record q { buffer = set q.buffer t (some buf) }; producer = written buf t }
  produce b (written buf t) s =
      let q = s.queue in
      record s {
        queue = record q { tail = next size t };
        producer = published;
        sent = s.sent ++ (some buf ∷ []);
      }
  produce b published s =
      let q = s.queue in
      record s { queue = record q { total_enqueued = add64 q.total_enqueued 1 }; producer = idle }

  -- The next access of the consumer.
  unfoldable pub consume : Consumer → System → System
  consume waiting s = record s { consumer = at_head s.queue.head }
  consume (at_head h) s = record s { consumer = if h == s.queue.tail then waiting else has_item h }
  consume (has_item h) s = record s { consumer = got h (get_or s.queue.buffer h none) }
  consume (got h x) s =
      let q = s.queue in
      record s { queue = record q { buffer = set q.buffer h none }; consumer = cleared h x }
  consume (cleared h x) s =
      let q = s.queue in
      record s {
        queue = record q { head = next size h };
        consumer = moved;
        received = s.received ++ (x ∷ []);
      }
  consume moved s =
      let q = s.queue in
      record s {
        queue = record q { total_dequeued = add64 q.total_dequeued 1 };
        consumer = waiting;
      }

-- Whose turn it is; the number is the buffer that an idle producer sends next.
pub data Turn : Type 0 where
  producer_turn : ℕ → Turn
  consumer_turn : Turn

module _ (size : ℕ) where
  unfoldable pub step : System → Turn → System
  unfolding produce consume
  step s (producer_turn b) = produce size b s.producer s
  step s consumer_turn = consume size s.consumer s

  -- Any interleaving of the two threads.
  unfoldable pub run : System → List Turn → System
  unfolding step
  run s [] = s
  run s (t ∷ turns) = run (step s t) turns

abbrev pub start : MessageQueue → System
start q = record { queue = q; producer = idle; consumer = waiting; sent = []; received = [] }
