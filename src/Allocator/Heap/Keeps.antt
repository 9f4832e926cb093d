-- ===== src/Allocator/Heap/Keeps.antt =====
-- What `heap_alloc_proc` does with a block, over functions of the C library that do as they are
-- documented to do.
use cxb.Prelude.{
  ℕ, ◌+◌, ◌-◌, ◌<◌, ◌≤◌, ◌≡◌, ◌≢◌, ◌⊎◌, inl, inr, refl, ◌∙◌, Bool, true, false, Bool-cases, Option,
  some, if◌then◌else◌, add64, arith, ◌==◌, lt→ltb, ==_ne, ==_iff,
}
use cxb.Text.{Memory}
use cxb.Arena.{memset, memcpy}
use cxb.Allocator.Writes.{memset_inside, memset_outside, memcpy_inside, memcpy_outside}
use cxb.Allocator.Heap.{
  CHeap, HeapAllocData, HeapState, count_bytes, heap_copy_zeros, heap_copy, heap_moved,
  heap_alloc_proc,
}

-- Two regions without a common byte.
abbrev pub IsApart : (a n b k : ℕ) → Type 0
IsApart a n b k = (a + n ≤ b) ⊎ (b + k ≤ a)

module _ {H : Type 0} (c : CHeap H) where
  -- The documented behaviour, with the blocks that are in use in a state of the heap. A new block is
  -- apart from a block in use, which stays in use with its bytes; `realloc` gives a block with the old
  -- bytes, or fails and leaves the old block; `free` leaves the bytes outside of the block.
  pub record IsCHeap (InUse : H → (head n : ℕ) → Type 0) : Type 0 where
    pub malloc_new :
        (m : Memory) (h : H) (n head old : ℕ)
        → InUse h head old
        → let (m', h', p) = c.malloc m h n in
          p ≢ 0
          → IsApart p n head old
            × InUse h' head old
            × ((i : ℕ) → i < old → m' (head + i) ≡ m (head + i))
    pub calloc_new :
        (m : Memory) (h : H) (n head old : ℕ)
        → InUse h head old
        → let (m', h', p) = c.calloc m h n 1 in
          p ≢ 0
          → IsApart p n head old
            × ((i : ℕ) → i < old → m' (head + i) ≡ m (head + i))
            × ((i : ℕ) → i < n → m' (p + i) ≡ 0)
    pub realloc_kept :
        (m : Memory) (h : H) (head n old : ℕ)
        → InUse h head old
        → let (m', h', p) = c.realloc m h head n in
          p ≢ 0 → (i : ℕ) → i < old → i < n → m' (p + i) ≡ m (head + i)
    pub realloc_failed :
        (m : Memory) (h : H) (head n old : ℕ)
        → InUse h head old
        → let (m', h', p) = c.realloc m h head n in
          p ≡ 0 → InUse h' head old × ((i : ℕ) → i < old → m' (head + i) ≡ m (head + i))
    pub free_outside :
        (m : Memory) (h : H) (head old : ℕ)
        → InUse h head old
        → (x : ℕ) → (x < head) ⊎ (head + old ≤ x)
        → (c.free m h head).0 x ≡ m x

  -- The block that a call gives: it is not null, it holds the old bytes and, if these were asked for,
  -- zeros behind them; the active bytes are counted.
  pub record IsMoved (m : Memory) (d : HeapAllocData) (head n_bytes old_n_bytes : ℕ)
      (fill_zeros : Bool) (r : Memory × HeapState H × ℕ) : Type 0 where
    pub some_block : r.2 ≢ 0
    pub kept : (i : ℕ) → i < old_n_bytes → r.0 (r.2 + i) ≡ m (head + i)
    pub zeros : fill_zeros ≡ true → (i : ℕ) → old_n_bytes ≤ i → i < n_bytes → r.0 (r.2 + i) ≡ 0
    pub active : r.1.heap_data.n_active_bytes ≡ d.n_active_bytes

  Moved :
      (m : Memory) (d : HeapAllocData) (head n_bytes old_n_bytes : ℕ) (fill_zeros : Bool)
      → Option (Memory × HeapState H × ℕ)
      → Type 0
  Moved m d head n_bytes old_n_bytes fill_zeros call =
      (m' : Memory) × (s' : HeapState H) × (p : ℕ) × (call ≡ some (m', s', p))
      × IsMoved m d head n_bytes old_n_bytes fill_zeros (m', s', p)

  -- Two regions of which one is at least as long as the copied bytes.
  shorter :
      (p n head old : ℕ) → old < n → IsApart p n head old → (p + old ≤ head) ⊎ (head + old ≤ p)
  shorter p n head old more apart = ground (arith, apart)

  module _ (InUse : H → (head n : ℕ) → Type 0) (laws : IsCHeap InUse) (m m' : Memory)
      (s : HeapState H) (head n old : ℕ) (in_use : InUse s.heap head old)
      (same : (i : ℕ) → i < old → m' (head + i) ≡ m (head + i)) (more : old < n) where
    heap_copy_zeros-Moved :
        (c.calloc m' s.heap n 1).2 ≢ 0
        → Moved m s.heap_data head n old true (heap_copy_zeros c m' s head n old)
    unfolding heap_copy_zeros Moved
    heap_copy_zeros-Moved ne =
        let r = c.calloc m' s.heap n 1 in
        let (apart, used, kept) = laws.calloc_new m' s.heap n head old in_use ne in
        (
          memcpy r.0 r.2 head old,
          record s { heap = r.1 },
          r.2,
          rw (==_ne r.2 0 ne) refl,
          record {
            some_block = ne;
            kept = λ i l.
                memcpy_inside r.0 r.2 head old i (shorter r.2 n head old more apart) l
                ∙ used i l
                ∙ same i l;
            zeros = λ _ i lo hi.
                memcpy_outside r.0 r.2 head old (r.2 + i) (inr (omega arith)) ∙ kept i hi;
            active = refl;
          },
        )

    heap_copy-Moved :
        (c.malloc m' s.heap n).2 ≢ 0
        → Moved m s.heap_data head n old false (heap_copy c m' s head n old)
    unfolding heap_copy Moved
    heap_copy-Moved ne =
        let r = c.malloc m' s.heap n in
        let (apart, used, kept) = laws.malloc_new m' s.heap n head old in_use ne in
        let f = c.free (memcpy r.0 r.2 head old) r.1 head in
        (
          f.0,
          record {
            heap = f.1;
            heap_data = record s.heap_data { n_freed_bytes = add64 s.heap_data.n_freed_bytes old };
          },
          r.2,
          rw (==_ne r.2 0 ne) refl,
          record {
            some_block = ne;
            kept = λ i l.
                laws.free_outside (memcpy r.0 r.2 head old) r.1 head old used (r.2 + i)
                  (outside r.2 i l apart)
                ∙ memcpy_inside r.0 r.2 head old i (shorter r.2 n head old more apart) l
                ∙ kept i l
                ∙ same i l;
            zeros = λ no_zeros. cc;
            active = refl;
          },
        )
      where
        outside : (p i : ℕ) → i < old → IsApart p n head old → (p + i < head) ⊎ (head + old ≤ p + i)
        outside p i l (inl before) = inl (omega arith)
        outside p i l (inr behind) = inr (omega arith)

  -- The new block to which a block is copied where `realloc` failed.
  abbrev pub new_block : Memory × H × ℕ → (n_bytes : ℕ) → (fill_zeros : Bool) → ℕ
  new_block (m, h, p) n_bytes fill_zeros =
      if fill_zeros then (c.calloc m h n_bytes 1).2 else (c.malloc m h n_bytes).2

  heap_moved-Moved :
      (InUse : H → (head n : ℕ) → Type 0) (laws : IsCHeap InUse) (m : Memory) (h : H)
      (d : HeapAllocData) (head n old : ℕ) (fill : Bool)
      → InUse h head old
      → old < n
      → let r = c.realloc m h head n in
        (r.2 ≡ 0 → new_block r n fill ≢ 0)
        → Moved m d head n old fill (heap_moved c r d head n old fill)
  unfolding heap_moved
  heap_moved-Moved InUse laws m h d head n old fill in_use more given =
      let r = c.realloc m h head n in
      elim (Bool-cases (r.2 == 0)) [
        | inl null ↦
            let is_null : r.2 ≡ 0 = (==_iff r.2 0).0 null in
            let (used, same) = laws.realloc_failed m h head n old in_use is_null in
            let s : HeapState H = record { heap = r.1; heap_data = d } in
            elim (Bool-cases fill) [
              | inl z ↦
                  rw (null, z)
                    (heap_copy_zeros-Moved InUse laws m r.0 s head n old used same more
                      (rw z at (given is_null)))
              | inr z ↦
                  rw (null, z)
                    (heap_copy-Moved InUse laws m r.0 s head n old used same more
                      (rw z at (given is_null)))
            ]
        | inr moved ↦
            let ne : r.2 ≢ 0 = λ e. let is : (r.2 == 0) ≡ true = (==_iff r.2 0).1 e in cc in
            let kept = laws.realloc_kept m h head n old in_use ne in
            elim (Bool-cases fill) [
              | inl z ↦
                  rw (moved, z)
                    (unfold Moved in
                      (
                        memset r.0 (r.2 + old) 0 (n - old),
                        record { heap = r.1; heap_data = d },
                        r.2,
                        refl,
                        record {
                          some_block = ne;
                          kept = λ i l.
                              memset_outside r.0 (r.2 + old) 0 (n - old) (r.2 + i)
                                (inl (omega arith))
                              ∙ kept i l (omega arith);
                          zeros = λ _ i lo hi.
                              memset_inside r.0 (r.2 + old) 0 (n - old) (r.2 + i) (omega arith)
                                (omega arith);
                          active = refl;
                        },
                      ))
              | inr z ↦
                  rw (moved, z)
                    (unfold Moved in
                      (
                        r.0,
                        record { heap = r.1; heap_data = d },
                        r.2,
                        refl,
                        record {
                          some_block = ne;
                          kept = λ i l. kept i l (omega arith);
                          zeros = λ no_zeros. cc;
                          active = refl;
                        },
                      ))
            ]
      ]

  -- Where the functions of the C library do as they are documented to do, a call that makes a block in
  -- use larger returns, unless both `realloc` and the `calloc` or `malloc` that is called in its place
  -- give a null pointer. The block that it gives is not null and holds the old bytes, whether
  -- `realloc` moved the block or failed, and zeros behind them if these were asked for; the bytes by
  -- which the block is larger are counted as active.
  pub heap_alloc_proc_correct :
      (InUse : H → (head n : ℕ) → Type 0) (laws : IsCHeap InUse) (m : Memory) (s : HeapState H)
      (head n_bytes alignment old_n_bytes : ℕ) (fill_zeros : Bool)
      → InUse s.heap head old_n_bytes
      → head ≢ 0
      → 0 < old_n_bytes
      → old_n_bytes < n_bytes
      → let r = c.realloc m s.heap head n_bytes in
        (r.2 ≡ 0 → new_block r n_bytes fill_zeros ≢ 0)
        → (m' : Memory) × (s' : HeapState H) × (p : ℕ) × (heap_alloc_proc c m s head n_bytes
              alignment old_n_bytes fill_zeros
            ≡ some (m', s', p))
          × IsMoved m
              (count_bytes s.heap_data n_bytes old_n_bytes)
              head
              n_bytes
              old_n_bytes
              fill_zeros
              (m', s', p)
  unfolding heap_alloc_proc Moved
  heap_alloc_proc_correct InUse laws m s head n alignment old fill in_use some_head some_old more
        given =
      let d = count_bytes s.heap_data n old in
      rw (heap_alloc_proc, lt→ltb 0 old some_old, ==_ne head 0 some_head, lt→ltb old n more)
        (heap_moved-Moved InUse laws m s.heap d head n old fill in_use more given)
