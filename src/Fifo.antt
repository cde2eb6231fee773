-- ===== src/Fifo.antt =====
-- What both queues promise: a first-in first-out queue of at most `cap` items, oldest first.
use aeron_archive_replay.Base.{
  ℕ, Bool, true, false, List, [], ◌∷◌, ◌++◌, length, ltb, if◌then◌else◌,
}

pub data Call {ℓ} (T : Type ℓ) : Type ℓ where
  put : T → Call T
  get : Call T

-- What a call reports: whether it succeeded, and the item variable of the caller afterwards.
pub data Reply {ℓ} (T : Type ℓ) : Type ℓ where
  stored : Bool → Reply T
  taken : Bool → T → Reply T

module _ {ℓ} {T : Type ℓ} where
  unfoldable pub push : ℕ → List T → T → Bool × List T
  push cap q x = if ltb (length q) cap then (true, q ++ (x ∷ [])) else (false, q)

  unfoldable pub pop : List T → T → Bool × T × List T
  pop [] item = (false, item, [])
  pop (x ∷ q) item = (true, x, q)

  -- A history of calls; `item` is the variable that `dequeue` writes to.
  unfoldable pub run : ℕ → List T → T → List (Call T) → List (Reply T)
  run cap q item [] = []
  run cap q item (put x ∷ calls) =
      let (done, q') = push cap q x in stored done ∷ run cap q' item calls
  run cap q item (get ∷ calls) =
      let (done, item', q') = pop q item in taken done item' ∷ run cap q' item' calls
