-- ===== src/Ring/Window.antt =====
-- The slots of a ring from a head on, and what a write does to them.
use aeron_archive_replay.Ring.Index.{mod_cases, slot_ne}
use native.Mathlib.Nat.{mod-add-mod}
use aeron_archive_replay.Base.{
  ℕ, zero, suc, ◌+◌, ◌%◌, ◌≤◌, ◌<◌, ◌≡◌, ◌≢◌, refl, sym, ap, ap₂, ◌∙◌, List, [], ◌∷◌, ◌++◌, length,
  get_or, set, get_or-set_self, get_or-set_ne, length-append, arith,
}

module _ {ℓ} {A : Type ℓ} (size : ℕ) (d : A) where
  -- The contents of the `n` slots from `head` on, in the order of the ring.
  abbrev pub window : List A → ℕ → ℕ → List A
  window buf head zero = []
  window buf head (suc n) = window buf head n ++ (get_or buf ((head + n) % size) d ∷ [])

  pub length-window : (buf : List A) (head n : ℕ) → length (window buf head n) ≡ n
  length-window buf head zero = refl
  length-window buf head (suc n) = omega (
    arith,
    length-append (window buf head n) (get_or buf ((head + n) % size) d ∷ []),
    length-window buf head n,
  )

  -- A write beside the window leaves it alone.
  pub window-set_outside :
      (buf : List A) (head n j : ℕ) (v : A)
      → ((i : ℕ) → i < n → j ≢ (head + i) % size)
      → window (set buf j v) head n ≡ window buf head n
  window-set_outside buf head zero j v h = refl
  window-set_outside buf head (suc n) j v h =
      ap₂ (λ xs x. xs ++ (x ∷ [])) (window-set_outside buf head n j v (λ i p. h i (omega arith)))
        (get_or-set_ne buf j ((head + n) % size) v d (h n (omega arith)))

  -- A write just behind the window appends to it.
  pub window-set_tail :
      (buf : List A) (head n j : ℕ) (v : A)
      → head < size
      → n < size
      → size ≤ length buf
      → j ≡ (head + n) % size
      → window (set buf j v) head (suc n) ≡ window buf head n ++ (v ∷ [])
  window-set_tail buf head n j v h p len e =
      ap₂ (λ xs x. xs ++ (x ∷ []))
        (window-set_outside buf head n j v (λ i q f. slot_ne size head i n h q p (sym e ∙ f)))
        (ap (λ k. get_or (set buf j v) k d) (sym e)
          ∙ get_or-set_self buf j v d (omega (arith, mod_cases (head + n) size (omega arith))))

  -- The first slot of the window, and the window behind it.
  pub window_cons :
      (buf : List A) (head n : ℕ)
      → head < size
      → window buf head (suc n) ≡ get_or buf head d ∷ window buf ((head + 1) % size) n
  window_cons buf head zero h =
      ap (λ k. get_or buf k d ∷ []) (omega (arith, mod_cases (head + 0) size (omega arith)))
  window_cons buf head (suc n) h =
      ap₂ (λ xs k. xs ++ (get_or buf k d ∷ [])) (window_cons buf head n h) shift
    where
      shift : (head + suc n) % size ≡ ((head + 1) % size + n) % size
      shift = rw mod-add-mod (ap (λ k. k % size) (omega arith))
