-- ===== src/Ring/Contents.antt =====
-- The contents of a ring between its indices, and what the four moves of a queue see of them: a
-- write behind the tail, a read at the head, a full ring and an empty one.
use aeron_archive_replay.Ring.Index.{
  used, used_self, used_ne, used-tail, used_full, used-head, used-lt, add-used, slot_ne,
  slot_ne_behind,
}
use aeron_archive_replay.Ring.Window.{
  window, length-window, window-set_tail, window-set_outside, window_cons,
}
use aeron_archive_replay.Base.{
  ℕ, ◌+◌, ◌-◌, ◌%◌, ◌<◌, ◌≡◌, ◌≢◌, sym, ap, ◌∙◌, List, [], ◌∷◌, ◌++◌, length, get_or, set, arith,
}

module _ {A : Type 0} (size : ℕ) (d : A) where
  pub contents : List A → ℕ → ℕ → List A
  contents buf head tail = window size d buf head (used size head tail)

  pub length-contents :
      (buf : List A) (head tail : ℕ) → length (contents buf head tail) ≡ used size head tail
  unfolding contents
  length-contents buf head tail = length-window size d buf head (used size head tail)

  pub contents_empty : (buf : List A) (head : ℕ) → head < size → contents buf head head ≡ []
  unfolding contents
  contents_empty buf head h = ap (window size d buf head) (used_self size head h)

module _ {A : Type 0} (size : ℕ) (d : A) (buf : List A) (head tail : ℕ) (slots : length buf ≡ size)
    (head_in : head < size) (tail_in : tail < size) where
  pub contents-set_tail :
      (v : A)
      → (tail + 1) % size ≢ head
      → contents size d (set buf tail v) head ((tail + 1) % size)
        ≡ contents size d buf head tail ++ (v ∷ [])
  unfolding contents
  contents-set_tail v ne =
      ap (window size d (set buf tail v) head) (used-tail size head tail head_in tail_in ne)
      ∙ window-set_tail size d buf head (used size head tail) tail v head_in
          (used-lt size head tail (omega arith)) (omega arith)
          (sym (add-used size head tail head_in tail_in))

  -- A step of the tail alone takes in the slot that it leaves.
  pub contents-next_tail :
      (tail + 1) % size ≢ head
      → contents size d buf head ((tail + 1) % size)
        ≡ contents size d buf head tail ++ (get_or buf tail d ∷ [])
  unfolding contents
  contents-next_tail ne =
      ap (window size d buf head) (used-tail size head tail head_in tail_in ne)
      ∙ ap (λ k. window size d buf head (used size head tail) ++ (get_or buf k d ∷ []))
          (add-used size head tail head_in tail_in)

  -- A write to the free slot at the tail, before the tail moves.
  pub contents-set_free :
      (v : A) → contents size d (set buf tail v) head tail ≡ contents size d buf head tail
  unfolding contents
  contents-set_free v = window-set_outside size d buf head (used size head tail) tail v λ i p e.
      slot_ne size head i (used size head tail) head_in p (used-lt size head tail (omega arith))
        (add-used size head tail head_in tail_in ∙ e)

  pub contents_cons :
      head ≢ tail
      → contents size d buf head tail
        ≡ get_or buf head d ∷ contents size d buf ((head + 1) % size) tail
  unfolding contents
  contents_cons ne =
      ap (window size d buf head) (used-head size head tail head_in tail_in ne)
      ∙ window_cons size d buf head (used size ((head + 1) % size) tail) head_in

  -- A write to the slot at the head does not touch what lies behind it.
  pub contents-set_head :
      (v : A)
      → head ≢ tail
      → contents size d (set buf head v) ((head + 1) % size) tail
        ≡ contents size d buf ((head + 1) % size) tail
  unfolding contents
  contents-set_head v ne =
      window-set_outside size d buf ((head + 1) % size) (used size ((head + 1) % size) tail) head v
        λ i p. slot_ne_behind size head i head_in (
          omega (
            arith,
            used-head size head tail head_in tail_in ne,
            used-lt size head tail (omega arith),
          ))

  pub length-contents_full :
      (tail + 1) % size ≡ head → length (contents size d buf head tail) ≡ size - 1
  length-contents_full e =
      omega
        (arith, length-contents size d buf head tail, used_full size head tail head_in tail_in e)

  pub length-contents_room :
      (tail + 1) % size ≢ head → length (contents size d buf head tail) < size - 1
  length-contents_room ne = omega (
    arith,
    length-contents size d buf head tail,
    used-tail size head tail head_in tail_in ne,
    used-lt size head ((tail + 1) % size) (omega arith),
  )

  pub length-contents_pos : head ≢ tail → 0 < length (contents size d buf head tail)
  length-contents_pos ne =
      omega (arith, length-contents size d buf head tail, used_ne size head tail head_in tail_in ne)
