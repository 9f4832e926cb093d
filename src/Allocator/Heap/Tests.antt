-- ===== src/Allocator/Heap/Tests.antt =====
-- A heap that never gives memory back, with a `realloc` that fails on blocks of more than 64 bytes, and
-- the procedures over it.
use cxb.Prelude.{
  ℕ, ◌+◌, ◌<◌, ◌≤◌, ◌≡◌, ◌≢◌, inl, inr, refl, true, false, Bool-cases, Option, none, some, List, [],
  ◌∷◌, arith, ltb, if◌then◌else◌,
}
use cxb.Text.{Memory, bytes}
use cxb.Arena.{memset, memcpy, memmove}
use cxb.Allocator.Writes.{memset_inside, memset_outside, memmove_inside}
use cxb.Allocator.Heap.{
  CHeap, HeapAllocData, HeapState, count_bytes, heap_alloc_proc, heap_free_proc,
}
use cxb.Allocator.Heap.Keeps.{IsCHeap, IsMoved, heap_alloc_proc_correct}

abbrev realloc : Memory → ℕ → (head n : ℕ) → Memory × ℕ × ℕ
realloc m h head n = if ltb 64 n then (m, h, 0) else (memmove m h head n, h + n, h)

-- The state is the address behind the last block.
abbrev bump : CHeap ℕ
bump = record {
  malloc = λ m h n. (m, h + n, h);
  calloc = λ m h n size. (memset m h 0 n, h + n, h);
  realloc = realloc;
  free = λ m h head. (m, h);
}

abbrev InUse : ℕ → (head n : ℕ) → Type 0
InUse h head n = head + n ≤ h

realloc_kept :
    (m : Memory) (h head n : ℕ)
    → (realloc m h head n).2 ≢ 0
    → (i : ℕ) → i < n
    → (realloc m h head n).0 ((realloc m h head n).2 + i) ≡ m (head + i)
realloc_kept m h head n ne i l = elim (Bool-cases (ltb 64 n)) [
  | inl big ↦ absurd (ne (rw big refl))
  | inr small ↦ rw small (memmove_inside m h head n i l)
]

realloc_failed :
    (m : Memory) (h head n old : ℕ)
    → InUse h head old
    → (realloc m h head n).2 ≡ 0
    → InUse (realloc m h head n).1 head old
      × ((i : ℕ) → i < old → (realloc m h head n).0 (head + i) ≡ m (head + i))
realloc_failed m h head n old used null = elim (Bool-cases (ltb 64 n)) [
  | inl big ↦ rw big (used, λ i l. refl)
  | inr small ↦
      let e : h ≡ 0 = rw small at null in rw small (omega arith, λ i l. absurd (omega arith))
]

bump-IsCHeap : IsCHeap bump InUse
bump-IsCHeap = record {
  malloc_new = λ m h n head old used ne. (inr used, omega arith, λ i l. refl);
  calloc_new = λ m h n head old used ne. (
    inr used,
    λ i l. memset_outside m h 0 n (head + i) (inl (omega arith)),
    λ i l. memset_inside m h 0 n (h + i) (omega arith) (omega arith),
  );
  realloc_kept = λ m h head n old used ne i lo hi. realloc_kept m h head n ne i hi;
  realloc_failed = λ m h head n old used null. realloc_failed m h head n old used null;
  free_outside = λ m h head old used x out. refl;
}

abbrev start : HeapState ℕ
start = record {
  heap = 4200;
  heap_data = record { n_active_bytes = 2; n_allocated_bytes = 2; n_freed_bytes = 0 };
}

-- The block and its first bytes, and the counters of active and of freed bytes.
abbrev outcome : Option (Memory × HeapState ℕ × ℕ) → Option (ℕ × List ℕ × ℕ × ℕ)
outcome none = none
outcome (some (m, s, p)) =
    some (p, bytes m p 3, s.heap_data.n_active_bytes, s.heap_data.n_freed_bytes)

reallocated :
    outcome (heap_alloc_proc bump (λ x. x) start 4100 8 1 2 true)
    ≡ some (4200, 4100 ∷ 4101 ∷ 0 ∷ [], 8, 0)
unfolding heap_alloc_proc cxb.Allocator.Heap.heap_moved memset count_bytes memmove
reallocated = refl

-- Where `realloc` fails, the block is freed only if no zeros are asked for.
copied_zeros :
    outcome (heap_alloc_proc bump (λ x. x) start 4100 80 1 2 true)
    ≡ some (4200, 4100 ∷ 4101 ∷ 0 ∷ [], 80, 0)
unfolding heap_alloc_proc cxb.Allocator.Heap.heap_moved cxb.Allocator.Heap.heap_copy_zeros memcpy
    count_bytes memset
copied_zeros = refl

copied :
    outcome (heap_alloc_proc bump (λ x. x) start 4100 80 1 2 false)
    ≡ some (4200, 4100 ∷ 4101 ∷ 4202 ∷ [], 80, 2)
unfolding heap_alloc_proc cxb.Allocator.Heap.heap_moved cxb.Allocator.Heap.heap_copy memcpy
    count_bytes
copied = refl

-- A block that is asked to become smaller fails an assertion.
smaller : heap_alloc_proc bump (λ x. x) start 4100 1 1 2 false ≡ none
unfolding heap_alloc_proc
smaller = refl

freed : (heap_free_proc bump (λ x. x) start 4100 2).1.heap_data.n_active_bytes ≡ 0
unfolding heap_free_proc
freed = refl

heap_alloc_proc_correct_example :
    (m : Memory) × (s : HeapState ℕ) × (p : ℕ) × (heap_alloc_proc bump
        (λ x. x)
        start
        4100
        80
        1
        2
        true
      ≡ some (m, s, p))
    × IsMoved bump (λ x. x) (count_bytes start.heap_data 80 2) 4100 80 2 true (m, s, p)
heap_alloc_proc_correct_example =
    heap_alloc_proc_correct bump InUse bump-IsCHeap (λ x. x) start 4100 80 1 2 true (omega arith)
      (omega arith) (omega arith) (omega arith) (λ null. omega arith)
