-- ===== src/MessageQueue/Threads/Moves.antt =====
-- Each access of the producer and of the consumer keeps the invariant.
use aeron_archive_replay.Ring.Size.{IsSize}
use aeron_archive_replay.Ring.Contents.{contents-set_head, contents_cons}
use aeron_archive_replay.Base.{
  ℕ, ◌≡◌, refl, ap, ap₂, sym, ◌∙◌, none, some, [], ◌∷◌, ◌++◌, append_assoc, length-set,
  get_or-set_self, arith,
}
use aeron_archive_replay.MessageQueue.{MessageQueue}
use aeron_archive_replay.MessageQueue.Threads.Invariant.{
  ProducerInv, ConsumerInv, Inv, ConsumerInv-set, pending-set, ConsumerInv-tail, pending-tail,
  ProducerInv-clear, ProducerInv-head,
}
use aeron_archive_replay.MessageQueue.Refine.{next_lem}
use aeron_archive_replay.MessageQueue.Threads.{
  Producer, idle, at_tail, has_room, written, Consumer, waiting, at_head, has_item, got, cleared,
  moved, System, produce, consume,
}

module _ {size : ℕ} (s : IsSize size) where
  pub produce-Inv :
      (b : ℕ) (p : Producer) {m : System}
      → m.producer ≡ p
      → Inv size m
      → Inv size (produce size b p m)
  unfolding produce
  produce-Inv b idle {m} e v = record {
    valid = v.valid;
    producer_ok = refl;
    consumer_ok = v.consumer_ok;
    history = v.history;
  }
  produce-Inv b (at_tail x t) {m} e v = ground (arith, next_lem s t)
  produce-Inv b (has_room x t) {m} e v = record {
    valid = record {
      slots = length-set q.buffer t (some x) ∙ v.valid.slots;
      head_in = v.valid.head_in;
      tail_in = v.valid.tail_in;
    };
    producer_ok = (
      own.0,
      own.1,
      rw own.0 (
          get_or-set_self q.buffer q.tail (some x) none
            (omega (arith, v.valid.slots, v.valid.tail_in))),
    );
    consumer_ok = rw own.0 (
        ConsumerInv-set size q.buffer q.head q.tail v.valid.slots v.valid.head_in v.valid.tail_in
          m.consumer (some x) v.consumer_ok);
    history =
        v.history
        ∙ ap (◌++◌ m.received) (
            rw own.0 (
              sym (
                pending-set size q.buffer q.head q.tail v.valid.slots v.valid.head_in
                  v.valid.tail_in m.consumer (some x) v.consumer_ok)));
  }
    where
      q : MessageQueue
      q = m.queue

      own : ProducerInv size q.buffer q.head q.tail (has_room x t)
      own = rw e at v.producer_ok
  produce-Inv b (written x t) {m} e v =
      rw (own.0, next_lem s q.tail v.valid.tail_in)
        record {
          valid = record {
            slots = v.valid.slots;
            head_in = v.valid.head_in;
            tail_in = omega arith;
          };
          producer_ok = tt;
          consumer_ok =
              ConsumerInv-tail size q.buffer q.head q.tail v.valid.slots v.valid.head_in
                v.valid.tail_in own.1 m.consumer v.consumer_ok;
          history =
              rw
                (
                  pending-tail size q.buffer q.head q.tail v.valid.slots v.valid.head_in
                      v.valid.tail_in own.1 m.consumer v.consumer_ok,
                  own.2,
                  v.history,
                )
                (append_assoc m.received _ (some x ∷ []));
        }
    where
      q : MessageQueue
      q = m.queue

      own : ProducerInv size q.buffer q.head q.tail (written x t)
      own = rw e at v.producer_ok
  produce-Inv b _ {m} e v = record {
    valid = record { slots = v.valid.slots; head_in = v.valid.head_in; tail_in = v.valid.tail_in };
    producer_ok = tt;
    consumer_ok = v.consumer_ok;
    history = v.history;
  }

  pub consume-Inv :
      (c : Consumer) {m : System} → m.consumer ≡ c → Inv size m → Inv size (consume size c m)
  unfolding consume
  consume-Inv waiting {m} e v = record {
    valid = v.valid;
    producer_ok = v.producer_ok;
    consumer_ok = refl;
    history = rw e at v.history;
  }
  consume-Inv (at_head h) {m} e v = ground arith
  consume-Inv (has_item h) {m} e v = record {
    valid = v.valid;
    producer_ok = v.producer_ok;
    consumer_ok = (own.0, own.1, rw own.0);
    history = rw e at v.history;
  }
    where
      own : ConsumerInv size m.queue.buffer m.queue.head m.queue.tail (has_item h)
      own = rw e at v.consumer_ok
  consume-Inv (got h x) {m} e v = rw own.0 record {
    valid = record {
      slots = length-set q.buffer q.head none ∙ v.valid.slots;
      head_in = v.valid.head_in;
      tail_in = v.valid.tail_in;
    };
    producer_ok = ProducerInv-clear size q.buffer q.head q.tail own.1 m.producer v.producer_ok;
    consumer_ok = (refl, own.1);
    history =
        (rw e at v.history)
        ∙ ap (◌++◌ m.received) (
            contents_cons size none q.buffer q.head q.tail v.valid.slots v.valid.head_in
              v.valid.tail_in own.1
            ∙ ap₂ ◌∷◌ (sym own.2) (
                sym (
                  contents-set_head size none q.buffer q.head q.tail v.valid.slots v.valid.head_in
                    v.valid.tail_in none own.1)));
  }
    where
      q : MessageQueue
      q = m.queue

      own : ConsumerInv size q.buffer q.head q.tail (got h x)
      own = rw e at v.consumer_ok
  consume-Inv (cleared h x) {m} e v =
      rw (own.0, next_lem s q.head v.valid.head_in)
        record {
          valid = record {
            slots = v.valid.slots;
            head_in = omega arith;
            tail_in = v.valid.tail_in;
          };
          producer_ok =
              ProducerInv-head size q.buffer q.head q.tail v.valid.head_in v.valid.tail_in own.1
                m.producer v.producer_ok;
          consumer_ok = tt;
          history = (rw e at v.history) ∙ sym (append_assoc m.received (x ∷ []) _);
        }
    where
      q : MessageQueue
      q = m.queue

      own : ConsumerInv size q.buffer q.head q.tail (cleared h x)
      own = rw e at v.consumer_ok
  consume-Inv moved {m} e v = record {
    valid = record { slots = v.valid.slots; head_in = v.valid.head_in; tail_in = v.valid.tail_in };
    producer_ok = v.producer_ok;
    consumer_ok = tt;
    history = rw e at v.history;
  }
