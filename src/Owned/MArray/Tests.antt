-- ===== src/Owned/MArray/Tests.antt =====
-- Runs of arrays that own their elements, on an arena, and their theorems at such arrays.
use cxb.Prelude.{
  ℕ, ◌*◌, ◌≡◌, inr, refl, true, false, Option, none, some, List, [], ◌∷◌, arith, ◌>>=◌,
}
use cxb.Text.{bytes}
use cxb.Arena.{Arena}
use cxb.Allocator.{arena_alloc_proc}
use cxb.Owned.MArray.{
  MArray, ArrayStore, seq_grow, marray_resize, marray_resize_value, marray_push_back, marray_push,
  marray_pop_back, marray_get_or_add_until, marray_release, marray_extend, marray_copy,
  marray_destroy,
}
use cxb.Owned.MArray.Append.{OnArena, Appended, marray_push_back_correct}
use cxb.Owned.MArray.Resize.{marray_resize_not_longer}

-- A region of 1024 bytes of which 128 are in use.
abbrev region : Arena
region = record {
  start = 4096;
  end = 5120;
  pos = 192;
  params = record { reserve_bytes = 1024; max_n_blocks = 1 };
  n_blocks = 1;
}

-- An array of the given length and capacity at address 4160; every byte holds its address.
abbrev array : ℕ → ℕ → ArrayStore Arena
array n cap = record {
  memory = λ x. x;
  state = region;
  array = record { address = 4160; len = n; capacity = cap; has_allocator = true };
}

-- The length, the capacity and the bytes of the elements, of two bytes each.
abbrev outcome : Option (ArrayStore Arena) → Option (ℕ × ℕ × List ℕ)
outcome none = none
outcome (some s) =
    some (s.array.len, s.array.capacity, bytes s.memory s.array.address (2 * s.array.len))

abbrev len_and_element : ArrayStore Arena × List ℕ → Option (ℕ × List ℕ)
len_and_element (s, element) = some (s.array.len, element)

-- The address, and the second element of an array at address 0.
abbrev null_and_second : ArrayStore Arena → Option (ℕ × List ℕ)
null_and_second s = some (s.array.address, bytes s.memory 2 2)

pushed :
    outcome (marray_push_back arena_alloc_proc 2 2 (array 1 1) (7 ∷ 8 ∷ []))
    ≡ some (2, 32, 4160 ∷ 4161 ∷ 7 ∷ 8 ∷ [])
unfolding marray_push_back cxb.Owned.MArray.marray_reserve seq_grow arena_alloc_proc
    cxb.Arena.arena_push_bytes cxb.Bits.pow2mod cxb.Owned.MArray.put_back cxb.Array.write_bytes
    cxb.Arena.memcpy
pushed = refl

pushed_initial :
    outcome (marray_push arena_alloc_proc 2 2 (array 1 32) (0 ∷ 0 ∷ []))
    ≡ some (2, 32, 4160 ∷ 4161 ∷ 0 ∷ 0 ∷ [])
unfolding marray_push cxb.Owned.MArray.marray_reserve cxb.Owned.MArray.put_back
    cxb.Array.write_bytes
pushed_initial = refl

popped :
    (marray_pop_back arena_alloc_proc 2 2 (array 2 32) >>= λ r. some r.1) ≡ some (4162 ∷ 4163 ∷ [])
unfolding marray_pop_back
popped = refl

resized :
    outcome (marray_resize arena_alloc_proc 2 2 (array 1 32) 3)
    ≡ some (3, 32, 4160 ∷ 4161 ∷ 0 ∷ 0 ∷ 0 ∷ 0 ∷ [])
unfolding marray_resize cxb.Owned.MArray.marray_resize_with cxb.Arena.memset
resized = refl

filled :
    outcome (marray_resize_value arena_alloc_proc 2 2 (array 1 32) 3 (5 ∷ 6 ∷ []))
    ≡ some (3, 32, 4160 ∷ 4161 ∷ 5 ∷ 6 ∷ 5 ∷ 6 ∷ [])
unfolding marray_resize_value cxb.Owned.MArray.marray_resize_with cxb.Array.construct_value
    cxb.Array.write_bytes
filled = refl

added_until :
    (marray_get_or_add_until arena_alloc_proc 2 2 (array 1 32) 2 >>= len_and_element)
    ≡ some (3, 0 ∷ 0 ∷ [])
unfolding marray_get_or_add_until marray_resize cxb.Owned.MArray.marray_resize_with cxb.Arena.memset
added_until = refl

extended :
    outcome (marray_extend arena_alloc_proc 2 2 (array 1 1) 4200 1)
    ≡ some (2, 32, 4160 ∷ 4161 ∷ 4200 ∷ 4201 ∷ [])
unfolding marray_extend cxb.Owned.MArray.marray_reserve arena_alloc_proc cxb.Arena.arena_push_bytes
    cxb.Bits.pow2mod cxb.Arena.memcpy
extended = refl

copied :
    outcome (marray_copy arena_alloc_proc 2 2 (array 2 2))
    ≡ some (2, 32, 4160 ∷ 4161 ∷ 4162 ∷ 4163 ∷ [])
unfolding marray_copy cxb.Owned.MArray.marray_reserve arena_alloc_proc cxb.Arena.arena_push_bytes
    cxb.Bits.pow2mod cxb.Arena.memcpy
copied = refl

-- An array that is destroyed keeps its capacity, so the next element is written behind a null pointer.
destroyed :
    (marray_destroy arena_alloc_proc 2 2 (λ m a head n. some (m, a)) (array 1 32) >>= λ s.
    marray_push_back arena_alloc_proc 2 2 s (7 ∷ 8 ∷ []) >>= null_and_second)
    ≡ some (0, 7 ∷ 8 ∷ [])
unfolding marray_destroy marray_push_back cxb.Owned.MArray.put_back cxb.Array.write_bytes
destroyed = refl

released : (marray_release arena_alloc_proc 2 2 (array 1 32)).1.array.has_allocator ≡ false
unfolding marray_release
released = refl

grown_capacity : seq_grow 2 ≡ 3
unfolding seq_grow
grown_capacity = refl

array-OnArena : OnArena 2 (array 2 2) 1 (seq_grow 2)
unfolding seq_grow
array-OnArena = record {
  has_allocator = refl;
  small = omega arith;
  start = refl;
  block = record {
    used = omega arith;
    below = omega arith;
    start = omega arith;
    place = inr (omega arith, omega arith);
  };
  holds = omega arith;
  room = omega arith;
}

marray_push_back_correct_example :
    (s : ArrayStore Arena) × (marray_push_back arena_alloc_proc 2 2 (array 2 2) (7 ∷ 8 ∷ [])
      ≡ some s)
    × Appended 2 (array 2 2) 1 (7 ∷ 8 ∷ []) s
marray_push_back_correct_example =
    marray_push_back_correct 2 (array 2 2) 1 (7 ∷ 8 ∷ []) refl (omega arith) array-OnArena

marray_resize_not_longer_example : marray_resize arena_alloc_proc 1 1 (array 4 32) 2 ≡ none
marray_resize_not_longer_example =
    marray_resize_not_longer arena_alloc_proc 1 (array 4 32) refl 2 (omega arith) (omega arith)
      (omega arith) (omega arith)
