-- ===== src/Array.antt =====
-- `Array<T>` on an arena: the array functions of cxb/cxb.h at a type `T` that is given by its size
-- and alignment, whose values are the bytes that stand for them.
pub mod Bytes
pub mod Grow
pub mod Resize
mod Tests
use cxb.Prelude.{
  check, ◌>>=◌, ◌>>◌, ℕ, zero, suc, ◌+◌, ◌-◌, ◌*◌, ◌%◌, ◌^◌, Bool, true, false, not, ◌&&◌, ◌||◌,
  Option, none, some, List, [], ◌∷◌, ◌==◌, ltb, leb, if◌then◌else◌, add64, sub64,
}
use cxb.Text.{Memory}
use cxb.Arena.{
  Arena, arena_push_bytes, arena_pop_to, arena_push_fast, arena_push, memset, memcpy, memmove,
}

pub record Array : Type 0 where
  pub address : ℕ
  pub len : ℕ

-- The store that the functions change: memory, the arena and the array.
pub record State : Type 0 where
  pub memory : Memory
  pub arena : Arena
  pub array : Array

-- An object is written byte by byte.
unfoldable pub write_bytes : Memory → ℕ → List ℕ → Memory
write_bytes m a [] i = m i
write_bytes m a (v ∷ vs) i = if i == a then v else write_bytes m (suc a) vs i

-- The first `DEBUG_ASSERT` of the array functions.
unfoldable pub on_arena : Arena → Array → Bool
on_arena a xs = xs.address == 0 || (leb a.start xs.address && ltb xs.address a.end)

module _ (size align : ℕ) where
  -- `xs.data + xs.len == arena->start + arena->pos`
  unfoldable pub ends_arena : Arena → Array → Bool
  ends_arena a xs = (xs.address + size * xs.len) == (a.start + a.pos)

  unfoldable pub array_push_back : State → List ℕ → Option State
  array_push_back s value = do
    check (on_arena s.arena s.array)
    check (s.array.address == 0 || ends_arena s.arena s.array)
    (a, data') ← arena_push_bytes s.arena size align
    let address = if s.array.address == 0 then data' else s.array.address
    some (record {
      memory = write_bytes s.memory (address + size * s.array.len) value;
      arena = a;
      array = record { address = address; len = add64 s.array.len 1 };
    })

  unfoldable pub array_pop_back : State → Option State
  array_pop_back s = do
    check (on_arena s.arena s.array)
    check (ends_arena s.arena s.array)
    a ← arena_pop_to s.arena (sub64 s.arena.pos size)
    some (record s {
      arena = a;
      array = record { address = s.array.address; len = sub64 s.array.len 1 };
    })

  -- `array_extend` with the array that is appended.
  unfoldable pub array_extend : State → Array → Option State
  array_extend s other = do
    check (on_arena s.arena s.array)
    check (s.array.address == 0 || ends_arena s.arena s.array)
    (a, data') ← arena_push_bytes s.arena ((other.len * size) % 2 ^ 64) align
    let address = if s.array.address == 0 then data' else s.array.address
    some (record {
      memory = memcpy s.memory (address + size * s.array.len) other.address (other.len * size);
      arena = a;
      array = record { address = address; len = add64 s.array.len other.len };
    })

  unfoldable pub array_insert : State → Array → ℕ → Option State
  array_insert s other i = do
    check (on_arena s.arena s.array)
    check (ends_arena s.arena s.array)
    check (leb i s.array.len)
    (a, data') ← arena_push_bytes s.arena ((other.len * size) % 2 ^ 64) align
    let at' = s.array.address + size * i
    let moved = memmove s.memory (at' + size * other.len) at' ((s.array.len - i) * size)
    some (record {
      memory = memcpy moved at' other.address (other.len * size);
      arena = a;
      array = record { address = s.array.address; len = add64 s.array.len other.len };
    })

  unfoldable pub array_pop_all : State → Option State
  array_pop_all s = do
    check (on_arena s.arena s.array)
    check (ends_arena s.arena s.array)
    a ← arena_pop_to s.arena (sub64 s.arena.pos ((size * s.array.len) % 2 ^ 64))
    some (record s { arena = a; array = record { address = 0; len = 0 } })

  -- What the three `array_resize` functions do where the array grows: they differ in how the pushed
  -- elements are filled.
  unfoldable pub grow : State → ℕ → (ℕ → Memory → Memory) → Option State
  grow s new_size fill = do
    (a, data') ← arena_push_fast s.arena size align (sub64 new_size s.array.len)
    some (record {
      memory = fill data' s.memory;
      arena = a;
      array = record {
        address = if s.array.address == 0 then data' else s.array.address;
        len = new_size;
      };
    })

  -- The bytes by which a shrinking array is shorter.
  unfoldable pub dropped : State → ℕ → ℕ
  dropped s new_size = (size * sub64 s.array.len new_size) % 2 ^ 64

  -- The assertions of the three functions.
  unfoldable pub can_resize : State → Option (Unit {0})
  can_resize s = do
    check (on_arena s.arena s.array)
    check (s.array.address == 0 || ends_arena s.arena s.array)

  -- What they do where it shrinks, at the position that each computes.
  unfoldable pub shrink : State → ℕ → ℕ → Option State
  shrink s new_size pos = do
    a ← arena_pop_to s.arena pos
    some (record s { arena = a; array = record { address = s.array.address; len = new_size } })

  unfoldable pub array_resize_fast : State → ℕ → Option State
  array_resize_fast s new_size =
      let bigger = grow s new_size (λ p m. m) in
      let smaller = shrink s new_size (add64 s.arena.pos (dropped s new_size)) in
      let go = can_resize s >> (if ltb s.array.len new_size then bigger else smaller) in
      if new_size == s.array.len then some s else go

  unfoldable pub array_resize : State → ℕ → Option State
  array_resize s new_size =
      let n = sub64 new_size s.array.len in
      let bigger = grow s new_size (λ p m. memset m p 0 ((size * n) % 2 ^ 64)) in
      let smaller = shrink s new_size (sub64 s.arena.pos (dropped s new_size)) in
      let go = can_resize s >> (if ltb s.array.len new_size then bigger else smaller) in
      if new_size == s.array.len then some s else go

  -- The loop of `construct(xs, n, default_value)`.
  unfoldable pub construct_value : ℕ → List ℕ → ℕ → Memory → Memory
  construct_value zero value p m = m
  construct_value (suc n) value p m = construct_value n value (p + size) (write_bytes m p value)

  unfoldable pub array_resize_value : State → ℕ → List ℕ → Option State
  array_resize_value s new_size value =
      let n = sub64 new_size s.array.len in
      let bigger = grow s new_size (construct_value n value) in
      let smaller = shrink s new_size (add64 s.arena.pos (dropped s new_size)) in
      let go = can_resize s >> (if ltb s.array.len new_size then bigger else smaller) in
      if new_size == s.array.len then some s else go
