-- ===== src/Arena.antt =====
-- The arena of cxb/cxb.h and cxb/cxb.cpp: a region of memory that is handed out from its start.
-- A result in `Option` is `none` where an assertion of the source stops the program.
pub mod Position
mod Tests
use cxb.Bits.{pow2mod}
use cxb.Prelude.{
  check, ◌>>=◌, ◌>>◌, ℕ, zero, suc, ◌+◌, ◌-◌, ◌*◌, ◌%◌, ◌^◌, Bool, true, false, not, ◌&&◌, ◌||◌,
  Option, none, some, List, [], ◌∷◌, ◌==◌, ltb, leb, if◌then◌else◌, add64, sub64,
}
use cxb.Text.{Memory, bytes}

pub record ArenaParams : Type 0 where
  pub reserve_bytes : ℕ
  pub max_n_blocks : ℕ

-- `Arena`, less the links to other blocks, which are always null.
pub record Arena : Type 0 where
  pub start : ℕ
  pub end : ℕ
  pub pos : ℕ
  pub params : ArenaParams
  pub n_blocks : ℕ

-- `sizeof(Arena)`: eight words.
abbrev pub sizeof_arena : ℕ
sizeof_arena = 64

-- The arena that `arena_make` writes at the start of the region that it got.
unfoldable pub arena_at : ArenaParams → ℕ → Arena
arena_at params address = record {
  start = address;
  end = address + params.reserve_bytes;
  pos = sizeof_arena;
  params = params;
  n_blocks = 1;
}

-- `arena_make`; the second argument is what `mmap` gives, `none` for MAP_FAILED, and the result is
-- then a null pointer, `none` inside.
unfoldable pub arena_make : ArenaParams → Option ℕ → Option (Option Arena)
unfolding arena_at
arena_make params mapped =
    let reserve = if params.reserve_bytes == 0 then 2 ^ 20 else params.reserve_bytes in
    let params' = record params { reserve_bytes = reserve } in
    do
      check (ltb (2 * sizeof_arena) reserve)
      elim mapped [ none ↦ some none | some a ↦ some (some (arena_at params' a)) ]

unfoldable pub arena_make_nbytes : ℕ → Option ℕ → Option (Option Arena)
unfolding arena_make
arena_make_nbytes n = arena_make (record { reserve_bytes = n; max_n_blocks = 1 })

-- `arena_push_bytes`: the arena and the address of the pushed bytes. The padding is
-- `-pos & (align - 1)`.
unfoldable pub arena_push_bytes : Arena → ℕ → ℕ → Option (Arena × ℕ)
arena_push_bytes a size align =
    let pos = add64 a.pos (pow2mod (sub64 0 a.pos) align) in
    let address = a.start + pos in
    do
      check (ltb (address + size) a.end)
      check (pow2mod address align == 0)
      some (record a { pos = add64 pos size }, address)

unfoldable pub arena_pop_to : Arena → ℕ → Option Arena
arena_pop_to a pos = do
  check (pos == a.pos || (ltb pos a.pos && leb pos (a.end - a.start)))
  some (record a { pos = pos })

unfoldable pub arena_clear : Arena → Arena
arena_clear a = record a { pos = sizeof_arena }

-- The C library's functions on memory. What `memcpy` leaves where the two regions have a common byte
-- is undefined: the model then leaves 256, which is no byte, wherever it writes.
unfoldable pub memset : Memory → ℕ → ℕ → ℕ → Memory
memset m a c n i = if leb a i && ltb i (a + n) then c else m i

unfoldable pub memmove : Memory → ℕ → ℕ → ℕ → Memory
memmove m dst src n i = if leb dst i && ltb i (dst + n) then m (src + (i - dst)) else m i

unfoldable pub memcpy : Memory → ℕ → ℕ → ℕ → Memory
memcpy m dst src n i =
    let copied = if leb (dst + n) src || leb (src + n) dst then m (src + (i - dst)) else 256 in
    if leb dst i && ltb i (dst + n) then copied else m i

-- `arena_push_fast<T>(arena, n)` at a type of the given size and alignment.
unfoldable pub arena_push_fast : Arena → ℕ → ℕ → ℕ → Option (Arena × ℕ)
arena_push_fast a size align n = arena_push_bytes a ((size * n) % 2 ^ 64) align

-- `arena_push<T>(arena, n)` at a type that is constructed by zeroing it.
unfoldable pub arena_push : Memory → Arena → ℕ → ℕ → ℕ → Option (Memory × Arena × ℕ)
arena_push m a size align n = do
  (a', address) ← arena_push_fast a size align n
  check (ltb 0 n)
  some (memset m address 0 ((size * n) % 2 ^ 64), a', address)
