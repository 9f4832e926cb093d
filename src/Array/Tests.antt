-- ===== src/Array/Tests.antt =====
-- Runs of the array functions on four-byte elements, and their theorems at an array of two.
use cxb.Bits.{pow2mod}
use cxb.Prelude.{
  ◌>>=◌, ℕ, ◌≡◌, inl, inr, refl, Option, none, some, List, [], ◌∷◌, ◌++◌, arith, ltb, if◌then◌else◌,
}
use cxb.Text.{bytes}
use cxb.Arena.{arena_push_bytes, arena_push_fast, arena_pop_to, memcpy, memset}
use cxb.Array.{
  Array, State, write_bytes, on_arena, ends_arena, array_push_back, array_pop_back, array_extend,
  array_insert, array_resize, array_resize_fast, array_resize_value, grow, can_resize,
}
use cxb.Array.Grow.{IsLast, Extended, array_push_back_correct, array_extend_correct}
use cxb.Array.Resize.{array_resize_stops}

-- An arena of 1024 bytes at address 4096, and an array of two elements behind its header.
abbrev two : State
two = record {
  memory = λ i. if ltb i 4164 then 1 else 2;
  arena = record {
    start = 4096;
    end = 5120;
    pos = 72;
    params = record { reserve_bytes = 1024; max_n_blocks = 1 };
    n_blocks = 1;
  };
  array = record { address = 4160; len = 2 };
}

-- The same arena with a null array.
abbrev null_array : State
null_array = record two { array = record { address = 0; len = 0 } }

abbrev word_of : ℕ → List ℕ
word_of c = c ∷ 0 ∷ 0 ∷ 0 ∷ []

-- Two pushes, an insertion of the array into itself, a resize and a pop.
abbrev session : Option (ℕ × List ℕ)
session = do
  s ← array_push_back 4 4 null_array (word_of 7)
  s ← array_push_back 4 4 s (word_of 8)
  s ← array_resize 4 4 s 3
  s ← array_pop_back 4 4 s
  s ← array_insert 4 4 s (record { address = 4168; len = 1 }) 1
  some (s.array.len, bytes s.memory s.array.address 12)

session_run : session ≡ some (3, word_of 7 ++ word_of 7 ++ word_of 8)
unfolding array_push_back array_pop_back array_resize array_insert grow can_resize on_arena
    ends_arena arena_push_bytes arena_push_fast arena_pop_to memcpy memset write_bytes pow2mod
    cxb.Arena.memmove
session_run = refl

two-IsLast : IsLast 4 2 two
two-IsLast = record {
  small = omega arith;
  some_size = omega arith;
  not_null = omega arith;
  low = omega arith;
  start = refl;
  pos = refl;
  room = omega arith;
  len = omega arith;
  place = inr (omega arith, omega arith, refl);
}

array_push_back_correct_example :
    (s' : State) × (array_push_back 4 4 two (word_of 9) ≡ some s')
    × Extended 4 2 two 1 (word_of 9) s'
array_push_back_correct_example =
    array_push_back_correct 4 2 two two-IsLast (word_of 9) refl (omega arith)

abbrev first_of_two : Array
first_of_two = record { address = 4160; len = 1 }

array_extend_correct_example :
    (s' : State) × (array_extend 4 4 two first_of_two ≡ some s')
    × Extended 4 2 two 1 (bytes two.memory 4160 4) s'
array_extend_correct_example =
    array_extend_correct 4 2 two two-IsLast first_of_two (inl (omega arith)) (omega arith)
      (omega arith)

array_resize_stops_example :
    (array_resize_fast 4 4 two 1 ≡ none) × (array_resize_value 4 4 two 1 (word_of 0) ≡ none)
array_resize_stops_example = array_resize_stops 4 2 two two-IsLast 1 (omega arith) (word_of 0)
