-- ===== src/Strings.antt =====
-- `String8` at the end of an arena: the string functions of cxb/cxb.cpp that change it.
pub mod Append
pub mod Shorten
pub mod Fill
mod Tests
use cxb.Prelude.{
  check, ◌>>=◌, ◌>>◌, ℕ, zero, suc, ◌+◌, ◌-◌, ◌^◌, ◌%◌, Bool, true, false, not, ◌&&◌, ◌||◌, Option,
  none, some, ◌==◌, ltb, leb, if◌then◌else◌, add64, sub64,
}
use cxb.Text.{Memory, String8, n_bytes}
use cxb.Arena.{Arena, arena_push, arena_pop_to, memset, memcpy, memmove}

-- The store that the functions change: memory, the arena and the string.
pub record TextState : Type 0 where
  pub memory : Memory
  pub arena : Arena
  pub str : String8

-- One byte is written.
unfoldable pub write_byte : Memory → ℕ → ℕ → Memory
write_byte m a c i = if i == a then c else m i

-- The conditions that the functions assert.
unfoldable pub in_arena : Arena → String8 → Bool
in_arena a s = leb a.start s.address && ltb s.address a.end

unfoldable pub at_end : Arena → String8 → Bool
at_end a s = (s.address + n_bytes s) == (a.start + a.pos)

-- The byte for the terminator that the first push to a null string adds.
unfoldable pub first_terminator : String8 → ℕ
first_terminator s = if s.address == 0 && not s.not_null_term then 1 else 0

unfoldable pub string8_push_back : TextState → ℕ → Option TextState
string8_push_back s ch = do
  check (s.str.address == 0 || in_arena s.arena s.str)
  check (s.str.address == 0 || at_end s.arena s.str)
  (m, a, data') ← arena_push s.memory s.arena 1 1 (1 + first_terminator s.str)
  let address = if s.str.address == 0 then data' else s.str.address
  some (record {
    memory = write_byte m (address + s.str.len) ch;
    arena = a;
    str = record {
      address = address;
      len = s.str.len + 1;
      not_null_term = not (not s.str.not_null_term || ch == 0);
    };
  })

unfoldable pub string8_pop_back : TextState → Option TextState
string8_pop_back s = do
  check (ltb 0 s.str.len)
  check (in_arena s.arena s.str)
  check (at_end s.arena s.str)
  a ← arena_pop_to s.arena (sub64 s.arena.pos 1)
  some (record {
    memory = write_byte s.memory (s.str.address + (s.str.len - 1)) 0;
    arena = a;
    str = record { address = s.str.address; len = s.str.len - 1; not_null_term = false };
  })

unfoldable pub string8_pop_all : TextState → Option TextState
string8_pop_all s = do
  check (in_arena s.arena s.str)
  check (at_end s.arena s.str)
  a ← arena_pop_to s.arena (sub64 s.arena.pos (n_bytes s.str))
  some (record s {
    arena = a;
    str = record { address = 0; len = 0; not_null_term = s.str.not_null_term };
  })

unfoldable pub string8_insert_char : TextState → ℕ → ℕ → Option TextState
string8_insert_char s ch i = do
  check (in_arena s.arena s.str)
  check (at_end s.arena s.str)
  check (leb i s.str.len)
  (m, a, data') ← arena_push s.memory s.arena 1 1 1
  let at' = s.str.address + i
  some (record {
    memory = write_byte (memmove m (at' + 1) at' (s.str.len - i)) at' ch;
    arena = a;
    str = record s.str { len = s.str.len + 1 };
  })

-- `string8_insert` with a string. Its first `memcpy` is from and to the text itself.
unfoldable pub string8_insert : TextState → String8 → ℕ → Option TextState
string8_insert s to_insert i = do
  check (in_arena s.arena s.str)
  check (at_end s.arena s.str)
  check (leb i s.str.len)
  (m, a, data') ← arena_push s.memory s.arena 1 1 to_insert.len
  let at' = s.str.address + i
  let moved = memcpy m (at' + to_insert.len) at' (s.str.len - i)
  some (record {
    memory = memcpy moved at' to_insert.address to_insert.len;
    arena = a;
    str = record s.str { len = s.str.len + to_insert.len };
  })

unfoldable pub string8_extend : TextState → String8 → Option TextState
string8_extend s to_append =
    let go = (do
      check (s.str.address == 0 || in_arena s.arena s.str)
      check (s.str.address == 0 || at_end s.arena s.str)
      (m, a, data') ← arena_push s.memory s.arena 1 1 (to_append.len + first_terminator s.str)
      let address = if s.str.address == 0 then data' else s.str.address
      some (record {
        memory = memcpy m (address + s.str.len) to_append.address to_append.len;
        arena = a;
        str = record s.str { address = address; len = s.str.len + to_append.len };
      })) in
    if to_append.len == 0 then some s else go

-- Where the string grows.
unfoldable pub string8_grow : TextState → ℕ → ℕ → Option TextState
string8_grow s n fill_char = do
  let delta = n - s.str.len
  (m, a, data') ← arena_push s.memory s.arena 1 1 (delta + first_terminator s.str)
  some (record {
    memory = memset m (if s.str.not_null_term then data' else data' - 1) fill_char delta;
    arena = a;
    str = record s.str {
      address = if s.str.address == 0 then data' else s.str.address;
      len = s.str.len + delta;
    };
  })

-- Where it shrinks, or keeps its length.
unfoldable pub string8_shrink : TextState → ℕ → Option TextState
string8_shrink s n = do
  a ← arena_pop_to s.arena (sub64 s.arena.pos (s.str.len - n))
  some (record s { arena = a; str = record s.str { len = n } })

unfoldable pub string8_resize : TextState → ℕ → ℕ → Option TextState
string8_resize s n fill_char =
    check (s.str.address == 0 || in_arena s.arena s.str)
    >> (check (s.str.address == 0 || at_end s.arena s.str)
        >> (if ltb s.str.len n then string8_grow s n fill_char else string8_shrink s n))
