-- ===== src/Numbers/Tests.antt =====
-- Runs of parsing and formatting, and their theorems at a 64-bit integer on an empty arena.
use cxb.Bits.{pow2mod}
use cxb.Prelude.{
  ◌>>=◌, Bool, ℕ, ◌-◌, ◌^◌, ◌≡◌, inl, refl, true, false, Option, some, List, [], ◌∷◌, arith,
}
use cxb.Text.{view, n_bytes}
use cxb.Arena.{arena_push, arena_push_bytes, arena_push_fast, memset}
use cxb.Strings.{TextState, write_byte, in_arena, at_end, first_terminator, string8_push_back}
use cxb.Strings.Append.{IsText}
use cxb.Numbers.{string8_parse, digits_of, push_reversed, format_value}
use cxb.Numbers.RoundTrip.{string8_parse-format_value, string8_parse_sign}

-- A null string and an arena of 1024 bytes at address 4096.
abbrev blank : TextState
blank = record {
  memory = λ i. 0;
  arena = record {
    start = 4096;
    end = 5120;
    pos = 64;
    params = record { reserve_bytes = 1024; max_n_blocks = 1 };
    n_blocks = 1;
  };
  str = record { address = 0; len = 0; not_null_term = false };
}

abbrev text_of_value : Bool → ℕ → Option (List ℕ)
text_of_value signed value = do s ← format_value signed 64 blank value; some (view s.memory s.str)

-- 205, and -7.
formatted_run :
    (text_of_value false 205 ≡ some (50 ∷ 48 ∷ 53 ∷ []))
    × (text_of_value true (2 ^ 64 - 7) ≡ some (45 ∷ 55 ∷ []))
unfolding format_value digits_of push_reversed string8_push_back in_arena at_end first_terminator
    n_bytes arena_push arena_push_bytes arena_push_fast memset write_byte pow2mod
formatted_run = (refl, refl)

blank-IsText : IsText blank
blank-IsText = record {
  not_null = omega arith;
  low = omega arith;
  room = omega arith;
  has_term = refl;
  place = inl (refl, refl);
}

string8_parse-format_value_example :
    (s' : TextState) × (format_value false 64 blank 205 ≡ some s')
    × IsText s'
    × (string8_parse false 64 s'.memory s'.str 10
        ≡ some (record { value = 205; exists = true; n_consumed = s'.str.len }))
string8_parse-format_value_example =
    string8_parse-format_value false 64 blank 205 blank-IsText refl (omega arith) (omega arith)
      (omega arith) (omega arith) (inl refl)

-- -5 is read as 5.
string8_parse_sign_example :
    (s' : TextState) × (format_value true 64 blank (2 ^ 64 - 5) ≡ some s')
    × IsText s'
    × (string8_parse true 64 s'.memory s'.str 10
        ≡ some (record { value = 5; exists = true; n_consumed = s'.str.len }))
string8_parse_sign_example =
    string8_parse_sign true 64 blank (2 ^ 64 - 5) blank-IsText refl (omega arith) (omega arith)
      (omega arith) (omega arith) refl (omega arith)
