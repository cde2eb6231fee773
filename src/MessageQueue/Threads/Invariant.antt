-- ===== src/MessageQueue/Threads/Invariant.antt =====
-- What holds between the accesses of the two threads, whatever their order.
use aeron_archive_replay.Ring.Index.{next_injective}
use aeron_archive_replay.Ring.Contents.{contents, contents-set_free, contents-next_tail}
use aeron_archive_replay.Base.{
  ℕ, ◌+◌, ◌%◌, ◌<◌, ◌≡◌, ◌≢◌, ap, sym, ◌∙◌, none, some, List, [], ◌∷◌, ◌++◌, length, get_or, set,
  get_or-set_ne, arith,
}
use aeron_archive_replay.MessageQueue.{Pointer}
use aeron_archive_replay.MessageQueue.Refine.{IsValid}
use aeron_archive_replay.MessageQueue.Threads.{
  Producer, at_tail, has_room, written, Consumer, at_head, has_item, got, cleared, System,
}

module _ (size : ℕ) where
  -- What the locals of the producer say of the slots, the head and the tail.
  abbrev pub ProducerInv : List Pointer → ℕ → ℕ → Producer → Type 0
  ProducerInv buf head tail (at_tail b t) = t ≡ tail
  ProducerInv buf head tail (has_room b t) = (t ≡ tail) × ((tail + 1) % size ≢ head)
  ProducerInv buf head tail (written b t) =
      (t ≡ tail) × ((tail + 1) % size ≢ head) × (get_or buf tail none ≡ some b)
  ProducerInv buf head tail _ = Unit

  abbrev pub ConsumerInv : List Pointer → ℕ → ℕ → Consumer → Type 0
  ConsumerInv buf head tail (at_head h) = h ≡ head
  ConsumerInv buf head tail (has_item h) = (h ≡ head) × (head ≢ tail)
  ConsumerInv buf head tail (got h x) = (h ≡ head) × (head ≢ tail) × (x ≡ get_or buf head none)
  ConsumerInv buf head tail (cleared h x) = (h ≡ head) × (head ≢ tail)
  ConsumerInv buf head tail _ = Unit

  -- What is published and not yet taken, oldest first.
  abbrev pub pending : List Pointer → ℕ → ℕ → Consumer → List Pointer
  pending buf head tail (cleared h x) = x ∷ contents size none buf ((head + 1) % size) tail
  pending buf head tail _ = contents size none buf head tail

  pub record Inv (s : System) : Type 0 where
    pub valid : IsValid size s.queue
    pub producer_ok : ProducerInv s.queue.buffer s.queue.head s.queue.tail s.producer
    pub consumer_ok : ConsumerInv s.queue.buffer s.queue.head s.queue.tail s.consumer
    pub history : s.sent ≡ s.received ++ pending s.queue.buffer s.queue.head s.queue.tail s.consumer

module _ (size : ℕ) (buf : List Pointer) (head tail : ℕ) (slots : length buf ≡ size)
    (head_in : head < size) (tail_in : tail < size) where
  -- A store to the free slot at the tail.
  pub ConsumerInv-set :
      (c : Consumer) (v : Pointer)
      → ConsumerInv size buf head tail c
      → ConsumerInv size (set buf tail v) head tail c
  ConsumerInv-set (got h x) v k = ground (arith, get_or-set_ne buf tail head v none)
  ConsumerInv-set _ v k = k

  pub pending-set :
      (c : Consumer) (v : Pointer)
      → ConsumerInv size buf head tail c
      → pending size (set buf tail v) head tail c ≡ pending size buf head tail c
  pending-set (cleared h x) v k =
      ap (◌∷◌ x)
        (contents-set_free size none buf ((head + 1) % size) tail slots (omega arith) tail_in v)
  pending-set _ v k = contents-set_free size none buf head tail slots head_in tail_in v

  module _ (ne : (tail + 1) % size ≢ head) where
    -- A step of the tail.
    pub ConsumerInv-tail :
        (c : Consumer)
        → ConsumerInv size buf head tail c
        → ConsumerInv size buf head ((tail + 1) % size) c
    ConsumerInv-tail (has_item h) k = (k.0, λ e. ne (sym e))
    ConsumerInv-tail (got h x) k = (k.0, λ e. ne (sym e), k.2)
    ConsumerInv-tail (cleared h x) k = (k.0, λ e. ne (sym e))
    ConsumerInv-tail _ k = k

    pub pending-tail :
        (c : Consumer)
        → ConsumerInv size buf head tail c
        → pending size buf head ((tail + 1) % size) c
          ≡ pending size buf head tail c ++ (get_or buf tail none ∷ [])
    pending-tail (cleared h x) k = ap (◌∷◌ x) (
        contents-next_tail size none buf ((head + 1) % size) tail slots (omega arith) tail_in
          (λ e. k.1 (next_injective size head tail head_in tail_in (sym e))))
    pending-tail _ k = contents-next_tail size none buf head tail slots head_in tail_in ne

module _ (size : ℕ) (buf : List Pointer) (head tail : ℕ) where
  -- The store of `nullptr` to the slot at the head.
  pub ProducerInv-clear :
      head ≢ tail
      → (p : Producer) → ProducerInv size buf head tail p
      → ProducerInv size (set buf head none) head tail p
  ProducerInv-clear ne (written b t) k = (k.0, k.1, get_or-set_ne buf head tail none none ne ∙ k.2)
  ProducerInv-clear ne _ k = k

  -- A step of the head.
  pub ProducerInv-head :
      head < size
      → tail < size
      → head ≢ tail
      → (p : Producer) → ProducerInv size buf head tail p
      → ProducerInv size buf ((head + 1) % size) tail p
  ProducerInv-head h t ne (has_room b u) k =
      (k.0, λ e. ne (next_injective size head tail h t (sym e)))
  ProducerInv-head h t ne (written b u) k =
      (k.0, (λ e. ne (next_injective size head tail h t (sym e))), k.2)
  ProducerInv-head h t ne _ k = k
