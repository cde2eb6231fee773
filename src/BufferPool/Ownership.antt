-- ===== src/BufferPool/Ownership.antt =====
-- Who owns each buffer of the pool: the free list, or a client that allocated it.
use aeron_archive_replay.Base.{
  ℕ, suc, ◌+◌, ◌<◌, ◌≤◌, ◌≡◌, refl, ap, ◌∙◌, ◌⊎◌, inl, inr, Bool-cases, true, false, false, add64,
  none, some, List, [], ◌∷◌, ◌++◌, length, length-append, length-set, length-replicate, get_or,
  get_or-set_self, subst, ◌-◌, set, take, ltb, ltb→lt, ltb→ge, lt→ltb, ◌==◌, ==_iff, arith,
}
use aeron_archive_replay.BufferPool.Occurrences.{
  occurrences, occurrences_self, occurrences-append, occurrences-take-suc, occurrences-take-set,
  length-indices_from, occurrences-indices_from,
}
use aeron_archive_replay.MessageBuffer.{reset}
use aeron_archive_replay.BufferPool.{
  buffer_at, is_valid_buffer, BufferPool, new, allocate, deallocate,
}

positive : (n : ℕ) → (n == 0) ≡ false → n ≡ suc (n - 1)
positive n h = ground arith

-- Every buffer of a pool of `size` has one owner: it stands in the first `count` entries of the free
-- list, or it is held by a client, once.
pub record Shared (size : ℕ) (free_list : List ℕ) (count : ℕ) (held : List ℕ) : Type 0 where
  pub list_length : length free_list ≡ size
  pub all : count + length held ≡ size
  pub one_owner : (i : ℕ) → i < size → occurrences i (take count free_list) + occurrences i held ≡ 1
  pub no_other : (i : ℕ) → size ≤ i → occurrences i (take count free_list) + occurrences i held ≡ 0

pub record Owns (size : ℕ) (p : BufferPool) (held : List ℕ) : Type 0 where
  pub buffers_length : length p.buffers ≡ size
  pub shared : Shared size p.free_list p.free_count held

module _ (size : ℕ) where
  pub new-Owns : Owns size (new size) []
  unfolding new occurrences
  new-Owns = record {
    buffers_length = length-replicate size _;
    shared = record {
      list_length = length-indices_from 0 size;
      all = omega arith;
      one_owner =
          λ i h. omega (arith, (occurrences-indices_from 0 i size).2 (omega arith) (omega arith));
      no_other = λ i h. omega (arith, (occurrences-indices_from 0 i size).1 (omega arith));
    };
  }

  taken-Shared :
      {list held : List ℕ} {n : ℕ}
      → Shared size list (suc n) held
      → Shared size list n (get_or list n 0 ∷ held)
  unfolding occurrences
  taken-Shared {list} {held} {n} v = record {
    list_length = v.list_length;
    all = omega (arith, v.all);
    one_owner = λ i h. omega (arith, v.one_owner i h, moved i);
    no_other = λ i h. omega (arith, v.no_other i h, moved i);
  }
    where
      moved :
          (i : ℕ)
          → occurrences i (take (suc n) list) ≡ occurrences i (get_or list n 0 ∷ take n list)
      moved i = occurrences-take-suc i n list (omega (arith, v.list_length, v.all))

  returned-Shared :
      {list : List ℕ} {n : ℕ} (xs ys : List ℕ) (i : ℕ)
      → Shared size list n (xs ++ i ∷ ys)
      → Shared size (set list n i) (suc n) (xs ++ ys)
  unfolding occurrences
  returned-Shared {list} {n} xs ys i v = record {
    list_length = length-set list n i ∙ v.list_length;
    all = omega (arith, v.all, length-append xs (i ∷ ys), length-append xs ys);
    one_owner = λ j h. omega (
      arith,
      v.one_owner j h,
      moved j,
      occurrences-append j xs (i ∷ ys),
      occurrences-append j xs ys,
    );
    no_other = λ j h. omega (
      arith,
      v.no_other j h,
      moved j,
      occurrences-append j xs (i ∷ ys),
      occurrences-append j xs ys,
    );
  }
    where
      moved :
          (j : ℕ) → occurrences j (take (suc n) (set list n i)) ≡ occurrences j (i ∷ take n list)
      moved j =
          occurrences-take-set j n list i
            (omega (arith, v.list_length, v.all, length-append xs (i ∷ ys)))

  -- What a client holds is a buffer of the pool.
  pub held-lt :
      {list : List ℕ} {n : ℕ} (xs ys : List ℕ) (i : ℕ)
      → Shared size list n (xs ++ i ∷ ys)
      → i < size
  unfolding occurrences
  held-lt xs ys i v = elim (Bool-cases (ltb i size)) [
    | inl e ↦ ltb→lt i size e
    | inr e ↦ absurd (
        omega (
          arith,
          v.no_other i (ltb→ge i size e),
          occurrences-append i xs (i ∷ ys),
          occurrences_self i ys,
        ))
  ]

  -- What `allocate` does of a pool with free buffers.
  allocated :
      (p : BufferPool)
      → (p.free_count == 0) ≡ false
      → let n = p.free_count - 1 in
        let i = get_or p.free_list n 0 in
        allocate p ≡ (
          record p {
            buffers = set p.buffers i (reset (record (buffer_at p i) { in_use = true }));
            free_count = n;
            total_allocations = add64 p.total_allocations 1;
          },
          some i,
        )
  unfolding allocate buffer_at
  allocated p e = rw e refl

  exhausted :
      (p : BufferPool)
      → (p.free_count == 0) ≡ true
      → allocate p ≡ (record p { allocation_failures = add64 p.allocation_failures 1 }, none)
  unfolding allocate
  exhausted p e = rw e refl

  -- Where every buffer has one owner, `allocate` gives nothing where clients hold every buffer,
  -- and else a buffer that no client held, reset and marked as in use, which is then the client's.
  pub allocate-Owns :
      {p : BufferPool} {held : List ℕ}
      → Owns size p held
      → ((length held ≡ size) × ((allocate p).1 ≡ none) × Owns size (allocate p).0 held)
        ⊎ ((i : ℕ) × (length held < size)
            × ((allocate p).1 ≡ some i)
            × (occurrences i held ≡ 0)
            × Owns size (allocate p).0 (i ∷ held)
            × (buffer_at (allocate p).0 i ≡ reset (record (buffer_at p i) { in_use = true })))
  unfolding buffer_at occurrences
  allocate-Owns {p} {held} v = elim (Bool-cases (p.free_count == 0)) [
    | inl e ↦ inl (
      omega (arith, v.shared.all, (==_iff _ _).0 e),
      ap (λ r. r.1) (exhausted p e),
      rw (exhausted p e) (record { buffers_length = v.buffers_length; shared = v.shared }),
    )
    | inr ne ↦
        let n = p.free_count - 1 in
        let e : p.free_count ≡ suc n = positive p.free_count ne in
        let i = get_or p.free_list n 0 in
        let w : Shared size p.free_list n (i ∷ held) =
          taken-Shared (subst (λ c. Shared size p.free_list c held) e v.shared) in
        inr (
          i,
          omega (arith, v.shared.all, e),
          ap (λ r. r.1) (allocated p ne),
          omega (arith, w.one_owner i (held-lt [] held i w), occurrences_self i held),
          rw (allocated p ne)
              (record { buffers_length = length-set p.buffers i _ ∙ v.buffers_length; shared = w }),
          rw (allocated p ne) (
              get_or-set_self p.buffers i _ _
                (omega (arith, held-lt [] held i w, v.buffers_length))),
        )
  ]

  deallocated :
      (p : BufferPool) (i : ℕ)
      → i < size
      → p.free_count < size
      → deallocate size p (some i) ≡ record p {
        buffers = set p.buffers i (record (buffer_at p i) { in_use = false });
        free_count = p.free_count + 1;
        free_list = set p.free_list p.free_count i;
        total_deallocations = add64 p.total_deallocations 1;
      }
  unfolding deallocate is_valid_buffer buffer_at
  deallocated p i h k = rw (lt→ltb i size h) (rw (lt→ltb p.free_count size k) refl)

  -- Where every buffer has one owner, each still has one after a client returns one that it holds.
  pub deallocate-Owns :
      {p : BufferPool} (xs ys : List ℕ) (i : ℕ)
      → Owns size p (xs ++ i ∷ ys)
      → Owns size (deallocate size p (some i)) (xs ++ ys)
  deallocate-Owns {p} xs ys i v =
      rw
        (deallocated p i (held-lt xs ys i v.shared)
          (omega (arith, v.shared.all, length-append xs (i ∷ ys))))
        (record {
          buffers_length = length-set p.buffers i _ ∙ v.buffers_length;
          shared =
              subst (λ c. Shared size (set p.free_list p.free_count i) c (xs ++ ys)) (omega arith)
                (returned-Shared xs ys i v.shared);
        })
