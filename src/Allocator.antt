-- ===== src/Allocator.antt =====
-- The allocation procedures of cxb/cxb.cpp over an arena. An `Allocator` of cxb/cxb.h calls them
-- with the arena as its data.
pub mod Writes
pub mod Resize
pub mod Heap
mod Tests
use cxb.Prelude.{
  check, ◌>>=◌, ◌>>◌, ℕ, ◌+◌, ◌-◌, ◌%◌, ◌^◌, Bool, true, false, ◌&&◌, Option, none, some, ◌==◌, ltb,
  if◌then◌else◌, sub64,
}
use cxb.Text.{Memory}
use cxb.Arena.{Arena, arena_push_bytes, arena_pop_to, memset, memcpy}

-- A call without a block.
unfoldable pub alloc_new :
    Memory → Arena → (n_bytes alignment : ℕ) → (fill_zeros : Bool) → Option (Memory × Arena × ℕ)
alloc_new m a n_bytes alignment fill_zeros = do
  (a', result) ← arena_push_bytes a n_bytes alignment
  some (if fill_zeros then memset m result 0 n_bytes else m, a', result)

-- A call with a block at the end of the arena, which stays where it is.
unfoldable pub alloc_last :
    Memory
    → Arena
    → (head n_bytes alignment old_n_bytes : ℕ) → (fill_zeros : Bool) → Option (Memory × Arena × ℕ)
alloc_last m a head n_bytes alignment old_n_bytes fill_zeros =
    let bigger = (do
      (a', _) ← arena_push_bytes a (sub64 n_bytes old_n_bytes) alignment
      some (
        if fill_zeros then memset m (head + old_n_bytes) 0 (sub64 n_bytes old_n_bytes) else m,
        a',
        head,
      )) in
    let smaller = (do
      a' ← arena_pop_to a (sub64 a.pos (sub64 old_n_bytes n_bytes))
      some (m, a', head)) in
    if ltb old_n_bytes n_bytes then bigger else smaller

-- A call with any other block, which is copied.
unfoldable pub alloc_moved :
    Memory
    → Arena
    → (head n_bytes alignment old_n_bytes : ℕ) → (fill_zeros : Bool) → Option (Memory × Arena × ℕ)
alloc_moved m a head n_bytes alignment old_n_bytes fill_zeros = do
  (a', new_head) ← arena_push_bytes a n_bytes alignment
  let copy_n = if ltb old_n_bytes n_bytes then old_n_bytes else n_bytes
  let copied = if ltb 0 copy_n then memcpy m new_head head copy_n else m
  some (
    if fill_zeros && ltb old_n_bytes n_bytes
        then memset copied (new_head + old_n_bytes) 0 (sub64 n_bytes old_n_bytes)
        else copied,
    a',
    new_head,
  )

-- The memory, the arena and the address of the block after the call.
unfoldable pub arena_alloc_proc :
    Memory
    → Arena
    → (head n_bytes alignment old_n_bytes : ℕ) → (fill_zeros : Bool) → Option (Memory × Arena × ℕ)
unfolding alloc_new alloc_last alloc_moved
arena_alloc_proc m a head n_bytes alignment old_n_bytes fill_zeros =
    if head == 0
    then alloc_new m a n_bytes alignment fill_zeros
    else if (head + old_n_bytes) == (a.start + a.pos)
    then alloc_last m a head n_bytes alignment old_n_bytes fill_zeros
    else alloc_moved m a head n_bytes alignment old_n_bytes fill_zeros

unfoldable pub arena_free_proc : Arena → (head n_bytes : ℕ) → Option Arena
arena_free_proc a head n_bytes =
    if (head + n_bytes) == (a.start + a.pos) then arena_pop_to a (sub64 a.pos n_bytes) else some a
