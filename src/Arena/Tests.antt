-- ===== src/Arena/Tests.antt =====
-- Runs of the arena on a region at address 4096, and its theorems at that arena.
use cxb.Bits.{pow2mod}
use cxb.Prelude.{◌>>=◌, ℕ, ◌+◌, ◌%◌, ◌<◌, ◌≤◌, ◌≡◌, refl, Option, none, some, arith}
use cxb.Arena.{Arena, arena_at, arena_make, arena_make_nbytes, arena_push_bytes, arena_clear}
use cxb.Arena.Position.{aligned_pos, arena_push_bytes_correct}

-- A block of 1024 bytes, with five bytes behind its header.
abbrev block : Arena
block = record {
  start = 4096;
  end = 5120;
  pos = 69;
  params = record { reserve_bytes = 1024; max_n_blocks = 1 };
  n_blocks = 1;
}

-- A block is made, five bytes and an aligned word are pushed, and the block is cleared.
abbrev session : Option (ℕ × ℕ × ℕ)
session = do
  made ← arena_make_nbytes 1024 (some 4096)
  a ← made
  (a, first) ← arena_push_bytes a 5 1
  (a, second) ← arena_push_bytes a 8 8
  some (first, second, (arena_clear a).pos)

session_run : session ≡ some (4160, 4168, 64)
unfolding arena_make_nbytes arena_make arena_at arena_push_bytes arena_clear pow2mod
session_run = refl

too_small_run : arena_make_nbytes 128 (some 4096) ≡ none
unfolding arena_make_nbytes arena_make
too_small_run = refl

failed_map_run : arena_make_nbytes 1024 none ≡ some none
unfolding arena_make_nbytes arena_make
failed_map_run = refl

arena_push_bytes_correct_example :
    (arena_push_bytes block 8 8 ≡ some (record block { pos = 80 }, 4168))
    × (69 ≤ 72)
    × (72 < 77)
    × ((4096 + aligned_pos 69 8) % 8 ≡ 0)
arena_push_bytes_correct_example =
    arena_push_bytes_correct block 8 3 (omega arith) refl (omega arith) (omega arith) (omega arith)

block_full : arena_push_bytes block 952 8 ≡ none
unfolding arena_push_bytes pow2mod
block_full = refl

block_pushed : arena_push_bytes block 8 8 ≡ some (record block { pos = 80 }, 4168)
unfolding arena_push_bytes pow2mod
block_pushed = refl
