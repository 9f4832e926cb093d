-- ===== src/Allocator/Heap.antt =====
-- The allocation procedures of cxb/cxb.cpp over the allocator of the C library, whose functions are
-- parameters: on memory and a state of their own they give the address of a block, or 0.
pub mod Keeps
mod Tests
use cxb.Prelude.{
  check, ◌>>=◌, ◌>>◌, ℕ, ◌+◌, ◌-◌, ◌%◌, ◌^◌, Bool, true, false, not, Option, none, some, ◌==◌, ltb,
  if◌then◌else◌, add64, sub64,
}
use cxb.Text.{Memory}
use cxb.Arena.{memset, memcpy}

pub record CHeap (H : Type 0) : Type 0 where
  pub malloc : Memory → H → (n : ℕ) → Memory × H × ℕ
  pub calloc : Memory → H → (n size : ℕ) → Memory × H × ℕ
  pub realloc : Memory → H → (head n : ℕ) → Memory × H × ℕ
  pub free : Memory → H → (head : ℕ) → Memory × H

-- Counters of 64 bits.
pub record HeapAllocData : Type 0 where
  pub n_active_bytes : ℕ
  pub n_allocated_bytes : ℕ
  pub n_freed_bytes : ℕ

pub record HeapState (H : Type 0) : Type 0 where
  pub heap : H
  pub heap_data : HeapAllocData

-- The counters that every call advances.
unfoldable pub count_bytes : HeapAllocData → (n_bytes old_n_bytes : ℕ) → HeapAllocData
count_bytes d n_bytes old_n_bytes = record d {
  n_active_bytes = add64 d.n_active_bytes (sub64 n_bytes old_n_bytes);
  n_allocated_bytes = add64 d.n_allocated_bytes (sub64 n_bytes old_n_bytes);
}

module _ {H : Type 0} (c : CHeap H) where
  -- A call without old bytes.
  unfoldable pub heap_new :
      Memory
      → HeapState H
      → (head n_bytes : ℕ) → (fill_zeros : Bool) → Option (Memory × HeapState H × ℕ)
  heap_new m s head n_bytes fill_zeros =
      let r = if fill_zeros then c.calloc m s.heap n_bytes 1 else c.malloc m s.heap n_bytes in
      check (head == 0) >> some (r.0, record s { heap = r.1 }, r.2)

  -- `realloc` failed, and the block is copied to a new one of zeros. Without a new block `memcpy`
  -- writes through a null pointer, which ends the program: `none`.
  unfoldable pub heap_copy_zeros :
      Memory → HeapState H → (head n_bytes old_n_bytes : ℕ) → Option (Memory × HeapState H × ℕ)
  heap_copy_zeros m s head n_bytes old_n_bytes =
      let (m', h, p) = c.calloc m s.heap n_bytes 1 in
      check (not (p == 0)) >> some (memcpy m' p head old_n_bytes, record s { heap = h }, p)

  -- `realloc` failed, and the block is copied to a new one and freed; `none` as above.
  unfoldable pub heap_copy :
      Memory → HeapState H → (head n_bytes old_n_bytes : ℕ) → Option (Memory × HeapState H × ℕ)
  heap_copy m s head n_bytes old_n_bytes =
      let (m₁, h₁, p) = c.malloc m s.heap n_bytes in
      let (m₂, h₂) = c.free (memcpy m₁ p head old_n_bytes) h₁ head in
      check (not (p == 0))
      >> some (
        m₂,
        record {
          heap = h₂;
          heap_data = record s.heap_data {
            n_freed_bytes = add64 s.heap_data.n_freed_bytes old_n_bytes;
          };
        },
        p,
      )

  -- What is done with the result of `realloc`.
  unfoldable pub heap_moved :
      Memory × H × ℕ
      → HeapAllocData
      → (head n_bytes old_n_bytes : ℕ) → (fill_zeros : Bool) → Option (Memory × HeapState H × ℕ)
  heap_moved (m, h, p) d head n_bytes old_n_bytes fill_zeros =
      let s : HeapState H = record { heap = h; heap_data = d } in
      if p == 0
      then (if fill_zeros
          then heap_copy_zeros m s head n_bytes old_n_bytes
          else heap_copy m s head n_bytes old_n_bytes)
      else some
          (if fill_zeros then memset m (p + old_n_bytes) 0 (n_bytes - old_n_bytes) else m, s, p)

  unfoldable pub heap_alloc_proc :
      Memory
      → HeapState H
      → (head n_bytes alignment old_n_bytes : ℕ) → (fill_zeros : Bool)
      → Option (Memory × HeapState H × ℕ)
  heap_alloc_proc m s head n_bytes alignment old_n_bytes fill_zeros =
      let d = count_bytes s.heap_data n_bytes old_n_bytes in
      let resized = (do
        check (not (head == 0))
        check (ltb old_n_bytes n_bytes)
        heap_moved (c.realloc m s.heap head n_bytes) d head n_bytes old_n_bytes fill_zeros) in
      if ltb 0 old_n_bytes
      then resized
      else heap_new m (record s { heap_data = d }) head n_bytes fill_zeros

  unfoldable pub heap_free_proc : Memory → HeapState H → (head n_bytes : ℕ) → Memory × HeapState H
  heap_free_proc m s head n_bytes =
      let (m', h) = c.free m s.heap head in
      (
        m',
        record {
          heap = h;
          heap_data = record s.heap_data {
            n_active_bytes = sub64 s.heap_data.n_active_bytes n_bytes;
            n_freed_bytes = add64 s.heap_data.n_freed_bytes n_bytes;
          };
        },
      )
