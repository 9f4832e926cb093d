-- ===== src/Owned/Tests.antt =====
-- Runs of strings that own their bytes, on an arena, and their theorems at such strings.
use cxb.Prelude.{
  ℕ, ◌+◌, ◌≡◌, inr, refl, Bool, true, false, Option, none, some, List, [], ◌∷◌, arith, ◌>>=◌,
}
use cxb.Text.{Memory, String8, bytes}
use cxb.Arena.{Arena}
use cxb.Allocator.{arena_alloc_proc}
use cxb.Owned.{
  Store, mstring_resize, mstring_push_back, mstring_pop_back, mstring_extend, mstring_copy,
  ensure_not_null_terminated,
}
use cxb.Owned.Terminator.{mstring_extend_past}
use cxb.Owned.Extend.{OnArena, Extended, mstring_extend_correct}

-- A region of 1024 bytes of which 64 are in use behind the header.
abbrev region : Arena
region = record {
  start = 4096;
  end = 5120;
  pos = 128;
  params = record { reserve_bytes = 1024; max_n_blocks = 1 };
  n_blocks = 1;
}

-- A string of the given length and capacity at address 4160; every byte holds its address.
abbrev string : ℕ → ℕ → Bool → Store Arena
string n cap not_null = record {
  memory = λ x. x;
  state = region;
  str = record {
    address = 4160;
    len = n;
    not_null_term = not_null;
    capacity = cap;
    has_allocator = true;
  };
}

abbrev text : ℕ → String8
text n = record { address = 4200; len = n; not_null_term = true }

-- The length, the capacity and the bytes up to and with the terminator.
abbrev outcome : Option (Store Arena) → Option (ℕ × ℕ × List ℕ)
outcome none = none
outcome (some s) = some (s.str.len, s.str.capacity, bytes s.memory s.str.address (s.str.len + 1))

pushed :
    outcome (mstring_push_back arena_alloc_proc (string 2 32 false) 7)
    ≡ some (3, 32, 4160 ∷ 4161 ∷ 7 ∷ 0 ∷ [])
unfolding mstring_push_back
pushed = refl

popped : (mstring_pop_back arena_alloc_proc (string 2 32 true) >>= λ r. some r.1) ≡ some 4161
unfolding mstring_pop_back
popped = refl

resized :
    outcome (mstring_resize arena_alloc_proc (string 1 32 false) 3 9)
    ≡ some (3, 32, 4160 ∷ 9 ∷ 9 ∷ 0 ∷ [])
unfolding mstring_resize cxb.Arena.memset
resized = refl

extended :
    outcome (mstring_extend arena_alloc_proc (string 1 1 false) (text 2))
    ≡ some (3, 32, 4160 ∷ 4200 ∷ 4201 ∷ 0 ∷ [])
unfolding mstring_extend arena_alloc_proc cxb.Arena.arena_push_bytes cxb.Bits.pow2mod
    cxb.Arena.memcpy
extended = refl

copied :
    outcome (mstring_copy arena_alloc_proc (string 2 32 false)) ≡ some (2, 32, 4160 ∷ 4161 ∷ 0 ∷ [])
unfolding mstring_copy arena_alloc_proc cxb.Arena.arena_push_bytes cxb.Bits.pow2mod cxb.Arena.memcpy
copied = refl

-- The terminator that `ensure_not_null_terminated` adds counts as a byte of the string.
made_longer :
    outcome (ensure_not_null_terminated arena_alloc_proc (string 2 32 true))
    ≡ some (3, 32, 4160 ∷ 4161 ∷ 0 ∷ 0 ∷ [])
unfolding ensure_not_null_terminated
made_longer = refl

ten-OnArena : OnArena (string 10 16 false) (text 8)
ten-OnArena = record {
  has_allocator = refl;
  block = record {
    used = omega arith;
    below = omega arith;
    start = omega arith;
    place = inr (omega arith, omega arith);
  };
  holds = omega arith;
  text = omega arith;
  apart = inr (omega arith);
  room = omega arith;
}

mstring_extend_correct_example :
    (s : Store Arena) × (mstring_extend arena_alloc_proc (string 10 16 false) (text 8) ≡ some s)
    × Extended arena_alloc_proc (string 10 16 false) (text 8) s
mstring_extend_correct_example =
    mstring_extend_correct (string 10 16 false) (text 8) (omega arith) ten-OnArena

-- An allocator that gives the same address each time.
abbrev fixed :
    Memory
    → ℕ
    → (head n_bytes alignment old_n_bytes : ℕ) → (fill_zeros : Bool) → Option (Memory × ℕ × ℕ)
fixed m s head n_bytes alignment old_n_bytes fill_zeros = some (m, s, 9000)

abbrev full_string : Store ℕ
full_string = record {
  memory = λ x. x;
  state = 0;
  str = record {
    address = 4160;
    len = 32;
    not_null_term = false;
    capacity = 33;
    has_allocator = true;
  };
}

mstring_extend_past_example :
    (s : Store ℕ) × (mstring_extend fixed full_string (text 8) ≡ some s)
    × (s.str.address ≡ 9000)
    × (s.str.capacity ≡ s.str.len)
    × (s.memory (9000 + s.str.capacity) ≡ 0)
mstring_extend_past_example =
    mstring_extend_past fixed full_string (text 8) (λ x. x) 0 9000 refl refl (omega arith)
      (omega arith) (omega arith) refl
