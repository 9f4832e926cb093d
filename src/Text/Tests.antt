-- ===== src/Text/Tests.antt =====
-- Runs of the string functions on texts of tests/test_string.cpp, and their theorems at those texts.
use Prim.Native.Char.{code}
use Prim.Native.String.{String}
use cxb.Prelude.{
  ℕ, zero, suc, ◌-◌, ◌<◌, ◌≡◌, refl, true, false, List, [], ◌∷◌, arith, ltb, if◌then◌else◌,
}
use cxb.Text.{
  Memory, String8, memcmp, find_from, string8_find, contains_char, trim_leading, trim_trailing,
  slice_between, string8_trim, string8_trim_all, trim_all_leading, trim_all_trailing,
  string8_contains_chars, contains_chars_from,
}
use cxb.Text.Trim.{Stays, Trims, Trimmed, string8_trim_correct}

abbrev codes : String → List ℕ
codes String.[] = []
codes (String.◌∷◌ c s) = code c ∷ codes s

abbrev byte_at : List ℕ → ℕ → ℕ
byte_at [] i = 0
byte_at (x ∷ xs) zero = x
byte_at (x ∷ xs) (suc i) = byte_at xs i

-- One text at address 100 and another at address 200, with a zero behind each.
abbrev two_texts : String → String → Memory
two_texts a b i = if ltb i 200 then byte_at (codes a) (i - 100) else byte_at (codes b) (i - 200)

abbrev at_100 : ℕ → String8
at_100 n = record { address = 100; len = n; not_null_term = false }

abbrev at_200 : ℕ → String8
at_200 n = record { address = 200; len = n; not_null_term = false }

abbrev greeting : Memory
greeting = two_texts "hello world" "world"

found_at_6 : string8_find greeting (at_100 11) (at_200 5) ≡ 6
unfolding string8_find find_from memcmp
found_at_6 = refl

abbrev padded : Memory
padded = two_texts "   abc  " " "

trimmed_run :
    string8_trim padded (at_100 8) (at_200 1) true true
    ≡ record { address = 103; len = 3; not_null_term = true }
unfolding string8_trim trim_leading trim_trailing slice_between contains_char
trimmed_run = refl

Stays-3 : Stays padded (at_100 8) (at_200 1) 3
unfolding contains_char
Stays-3 = refl

string8_trim_correct_example :
    Trimmed padded
      (at_100 8)
      (at_200 1)
      true
      true
      (string8_trim padded (at_100 8) (at_200 1) true true)
string8_trim_correct_example =
    string8_trim_correct padded (at_100 8) (at_200 1) true true 3 (omega arith) (omega arith)
      Stays-3

abbrev blank : Memory
blank i = 32

blank-Trims : (j : ℕ) → j < 4 → Trims blank (at_100 4) (at_200 1) j
unfolding contains_char
blank-Trims j h = refl

trim_all_run :
    string8_trim_all (two_texts "abcabcXabcabc" "abc") (at_100 13) (at_200 3) true true
    ≡ record { address = 106; len = 1; not_null_term = true }
unfolding string8_trim_all trim_all_leading trim_all_trailing slice_between memcmp
trim_all_run = refl

contains_chars_run :
    string8_contains_chars (two_texts "hello world" "xyz") (at_100 11) (at_200 3) ≡ false
unfolding string8_contains_chars contains_chars_from contains_char
contains_chars_run = refl
