-- ===== src/Strings/Tests.antt =====
-- Runs of the string functions on an arena at address 4096, and their theorems at a text of two
-- bytes on it.
use cxb.Bits.{pow2mod}
use cxb.Prelude.{
  ◌>>=◌, ℕ, ◌-◌, ◌≡◌, inl, inr, refl, true, false, Option, some, List, [], ◌∷◌, ◌++◌, arith,
  if◌then◌else◌, ◌==◌,
}
use cxb.Text.{view, n_bytes}
use cxb.Arena.{arena_push, arena_push_bytes, arena_push_fast, arena_pop_to, memcpy, memset}
use cxb.Strings.{
  TextState, write_byte, in_arena, at_end, first_terminator, string8_push_back, string8_pop_back,
  string8_insert_char, string8_extend, string8_resize,
}
use cxb.Strings.Append.{IsText, Appended, string8_push_back_correct, string8_extend_correct}
use cxb.Strings.Shorten.{string8_pop_back_correct}
use cxb.Strings.Fill.{string8_resize_correct, string8_resize_null}

-- An arena of 1024 bytes with "hi" behind its header.
abbrev hi : TextState
hi = record {
  memory = λ i. if i == 4160 then 104 else if i == 4161 then 105 else 0;
  arena = record {
    start = 4096;
    end = 5120;
    pos = 67;
    params = record { reserve_bytes = 1024; max_n_blocks = 1 };
    n_blocks = 1;
  };
  str = record { address = 4160; len = 2; not_null_term = false };
}

-- The same arena with a null string.
abbrev null_text : TextState
null_text = record hi { str = record { address = 0; len = 0; not_null_term = false } }

-- The same two bytes without their terminator.
abbrev bare : TextState
bare = record hi {
  arena = record hi.arena { pos = 66 };
  str = record { address = 4160; len = 2; not_null_term = true };
}

-- "a", "abc" by an extension with a part of itself, and back.
abbrev session : Option (List ℕ)
session = do
  s ← string8_push_back null_text 97
  s ← string8_push_back s 98
  s ← string8_extend s (record { address = s.str.address; len = 1; not_null_term = true })
  s ← string8_insert_char s 99 1
  s ← string8_pop_back s
  some (view s.memory s.str)

session_run : session ≡ some (97 ∷ 99 ∷ 98 ∷ [])
unfolding string8_push_back string8_extend string8_insert_char string8_pop_back in_arena at_end
    first_terminator n_bytes arena_push arena_push_bytes arena_push_fast arena_pop_to memcpy memset
    write_byte pow2mod cxb.Arena.memmove
session_run = refl

hi-IsText : IsText hi
hi-IsText = record {
  not_null = omega arith;
  low = omega arith;
  room = omega arith;
  has_term = refl;
  place = inr (omega arith, omega arith, refl, refl);
}

null_text-IsText : IsText null_text
null_text-IsText = record {
  not_null = omega arith;
  low = omega arith;
  room = omega arith;
  has_term = refl;
  place = inl (refl, refl);
}

string8_push_back_correct_example :
    (s' : TextState) × (string8_push_back hi 33 ≡ some s') × Appended hi (33 ∷ []) s'
string8_push_back_correct_example = string8_push_back_correct hi hi-IsText 33 (omega arith)

string8_extend_correct_example :
    (s' : TextState) × (string8_extend hi hi.str ≡ some s') × Appended hi (104 ∷ 105 ∷ []) s'
string8_extend_correct_example =
    string8_extend_correct hi hi-IsText hi.str (omega arith) (inl (omega arith)) (omega arith)

string8_pop_back_correct_example :
    (s' : TextState) × (string8_pop_back hi ≡ some s')
    × IsText s'
    × ((last : ℕ) × (view hi.memory hi.str ≡ view s'.memory s'.str ++ (last ∷ [])))
string8_pop_back_correct_example = string8_pop_back_correct hi hi-IsText (omega arith)

string8_resize_correct_example :
    (s' : TextState) × (string8_resize hi 4 46 ≡ some s') × Appended hi (46 ∷ 46 ∷ []) s'
string8_resize_correct_example =
    string8_resize_correct hi hi-IsText 4 46 (omega arith) (omega arith) (omega arith)

string8_resize_null_example :
    (s' : TextState) × (string8_resize null_text 3 46 ≡ some s')
    × (view s'.memory s'.str ≡ 46 ∷ 46 ∷ 0 ∷ [])
    × (s'.memory (s'.str.address - 1) ≡ 46)
string8_resize_null_example =
    string8_resize_null null_text null_text-IsText 3 46 (omega arith) (omega arith) refl
