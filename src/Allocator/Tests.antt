-- ===== src/Allocator/Tests.antt =====
-- Runs of the arena's allocation procedures, and their theorem at a block that moves.
use cxb.Prelude.{ℕ, ◌≡◌, inr, refl, true, Option, none, some, List, [], ◌∷◌, arith, ◌>>=◌}
use cxb.Text.{Memory, bytes}
use cxb.Arena.{Arena}
use cxb.Allocator.{arena_alloc_proc, arena_free_proc}
use cxb.Allocator.Resize.{Resized, arena_alloc_proc_correct}

-- A region of 1024 bytes of which 48 are in use behind the header.
abbrev region : Arena
region = record {
  start = 4096;
  end = 5120;
  pos = 112;
  params = record { reserve_bytes = 1024; max_n_blocks = 1 };
  n_blocks = 1;
}

-- Every byte holds its address.
abbrev marked : Memory
marked x = x

-- The block, four of its bytes, and the position after a call.
abbrev outcome : Option (Memory × Arena × ℕ) → Option (ℕ × List ℕ × ℕ)
outcome none = none
outcome (some (m, a, p)) = some (p, bytes m p 4, a.pos)

fresh_block :
    outcome (arena_alloc_proc marked region 0 4 8 0 true) ≡ some (4208, 0 ∷ 0 ∷ 0 ∷ 0 ∷ [], 116)
unfolding arena_alloc_proc cxb.Arena.arena_push_bytes cxb.Bits.pow2mod cxb.Arena.memset
fresh_block = refl

last_block_grows :
    outcome (arena_alloc_proc marked region 4206 4 1 2 true)
    ≡ some (4206, 4206 ∷ 4207 ∷ 0 ∷ 0 ∷ [], 114)
unfolding arena_alloc_proc cxb.Arena.arena_push_bytes cxb.Bits.pow2mod cxb.Arena.memset
last_block_grows = refl

block_moves :
    outcome (arena_alloc_proc marked region 4160 4 1 2 true)
    ≡ some (4208, 4160 ∷ 4161 ∷ 0 ∷ 0 ∷ [], 116)
unfolding arena_alloc_proc cxb.Arena.arena_push_bytes cxb.Bits.pow2mod cxb.Arena.memset
    cxb.Arena.memcpy
block_moves = refl

last_block_freed : (arena_free_proc region 4200 8 >>= λ a. some a.pos) ≡ some 104
unfolding arena_free_proc cxb.Arena.arena_pop_to
last_block_freed = refl

other_block_kept : (arena_free_proc region 4160 8 >>= λ a. some a.pos) ≡ some 112
unfolding arena_free_proc
other_block_kept = refl

arena_alloc_proc_correct_example :
    (m : Memory) × (a : Arena) × (p : ℕ) × (arena_alloc_proc marked region 4160 4 8 2 true
      ≡ some (m, a, p))
    × Resized marked region 4160 2 4 true m a p
arena_alloc_proc_correct_example =
    arena_alloc_proc_correct marked region 3 (omega arith) refl 4160 2 4 true
      (record {
        used = omega arith;
        below = omega arith;
        start = omega arith;
        place = inr (omega arith, omega arith);
      })
      (omega arith)
