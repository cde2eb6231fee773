-- ===== src/MessageQueue/Threads/Safety.antt =====
-- What every interleaving of one producer and one consumer keeps.
use aeron_archive_replay.Ring.Size.{IsSize}
use aeron_archive_replay.Ring.Index.{used-lt, used-head}
use aeron_archive_replay.Ring.Contents.{length-contents}
use aeron_archive_replay.Base.{
  ℕ, ◌+◌, ◌%◌, ◌<◌, ◌≡◌, ◌≢◌, refl, sym, Option, none, some, List, [], ◌∷◌, ◌++◌, length, arith,
}
use aeron_archive_replay.MessageQueue.{Pointer, new}
use aeron_archive_replay.MessageQueue.Refine.{items, new-IsValid}
use aeron_archive_replay.MessageQueue.Threads.Invariant.{ProducerInv, ConsumerInv, pending, Inv}
use aeron_archive_replay.MessageQueue.Threads.Moves.{produce-Inv, consume-Inv}
use aeron_archive_replay.MessageQueue.Threads.{
  Producer, has_room, Consumer, has_item, got, cleared, System, Turn, producer_turn, consumer_turn,
  step, run, start,
}

-- The slot that the producer is about to store to, and the slot that the consumer is about to read
-- or to clear.
unfoldable pub storing : Producer → Option ℕ
storing (has_room b t) = some t
storing _ = none

unfoldable pub reading : Consumer → Option ℕ
reading (has_item h) = some h
reading (got h x) = some h
reading _ = none

module _ (size : ℕ) (buf : List Pointer) (head tail : ℕ) where
  length-pending :
      head < size
      → tail < size
      → (c : Consumer) → ConsumerInv size buf head tail c
      → length (pending size buf head tail c) < size
  length-pending h t (cleared i x) k = omega (
    arith,
    length-contents size none buf ((head + 1) % size) tail,
    used-head size head tail h t k.1,
    used-lt size head tail (omega arith),
  )
  length-pending h t _ k =
      omega (arith, length-contents size none buf head tail, used-lt size head tail (omega arith))

  slots_ne :
      (i j : ℕ) (p : Producer) (c : Consumer)
      → ProducerInv size buf head tail p
      → ConsumerInv size buf head tail c
      → storing p ≡ some i
      → reading c ≡ some j
      → i ≢ j
  unfolding storing reading
  slots_ne i j (has_room b t) (has_item h) k l p c = ground arith
  slots_ne i j (has_room b t) (got h x) k l p c = ground arith
  slots_ne i j _ _ k l p c = cc

module _ {size : ℕ} (s : IsSize size) where
  start-Inv : Inv size (start (new size))
  unfolding items
  start-Inv = record {
    valid = (new-IsValid s).0;
    producer_ok = tt;
    consumer_ok = tt;
    history = sym (new-IsValid s).1;
  }

  step-Inv : {m : System} (t : Turn) → Inv size m → Inv size (step size m t)
  unfolding step
  step-Inv {m} (producer_turn b) v = produce-Inv s b m.producer refl v
  step-Inv {m} consumer_turn v = consume-Inv s m.consumer refl v

  run-Inv : (turns : List Turn) {m : System} → Inv size m → Inv size (run size m turns)
  unfolding run
  run-Inv [] v = v
  run-Inv (t ∷ turns) v = run-Inv turns (step-Inv t v)

  -- From a new queue, under every interleaving of the single accesses of one producer and one
  -- consumer, the pointers sent are those received, in order, followed by fewer than `size`
  -- others.
  pub run_fifo :
      (turns : List Turn)
      → let m = run size (start (new size)) turns in
        (rest : List Pointer) × (m.sent ≡ m.received ++ rest) × (length rest < size)
  run_fifo turns =
      let v = run-Inv turns start-Inv in
      (_, v.history, length-pending size _ _ _ v.valid.head_in v.valid.tail_in _ v.consumer_ok)

  -- From a new queue, under every interleaving, the slot that the producer is about to store to is
  -- not the slot that the consumer is about to read or to clear.
  pub no_race :
      (turns : List Turn) (i j : ℕ)
      → let m = run size (start (new size)) turns in
        storing m.producer ≡ some i → reading m.consumer ≡ some j → i ≢ j
  no_race turns i j p c =
      let v = run-Inv turns start-Inv in slots_ne size _ _ _ i j _ _ v.producer_ok v.consumer_ok p c
