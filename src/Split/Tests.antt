-- ===== src/Split/Tests.antt =====
-- Runs of the splitting functions on texts of tests/test_string.cpp, and their theorems at those
-- texts.
use Prim.Native.Char.{code}
use Prim.Native.String.{String}
use cxb.Prelude.{
  ◌>>=◌, ℕ, zero, suc, ◌-◌, ◌≡◌, refl, false, Option, some, List, [], ◌∷◌, length, arith, ltb,
  if◌then◌else◌,
}
use cxb.Text.{Memory, String8, view, memcmp, contains_char, string8_contains}
use cxb.Split.{
  SplitIterator, null_string, string8_split, string8_split_any, string8_split_next, seek_end,
  seek_any, seek_delim, collect, begin, end, visit,
}
use cxb.Split.Delim.{join, views, Each, string8_split_correct}
use cxb.Split.Range.{visit-begin}
use cxb.Split.Chars.{kept, count, concat, string8_split_any_correct}

abbrev codes : String → List ℕ
codes String.[] = []
codes (String.◌∷◌ c s) = code c ∷ codes s

abbrev byte_at : List ℕ → ℕ → ℕ
byte_at [] i = 0
byte_at (x ∷ xs) zero = x
byte_at (x ∷ xs) (suc i) = byte_at xs i

-- One text at address 100 and another at address 200.
abbrev two_texts : String → String → Memory
two_texts a b i = if ltb i 200 then byte_at (codes a) (i - 100) else byte_at (codes b) (i - 200)

abbrev at_100 : ℕ → String8
at_100 n = record { address = 100; len = n; not_null_term = false }

abbrev at_200 : ℕ → String8
at_200 n = record { address = 200; len = n; not_null_term = false }

abbrev fields : Memory
fields = two_texts "a::b::" "::"

abbrev parts_run : Option (List (List ℕ))
parts_run = do
  iter ← string8_split (at_100 6) (at_200 2)
  parts ← collect 8 fields iter
  some (views fields parts)

parts_found : parts_run ≡ some (codes "a" ∷ codes "b" ∷ [] ∷ [])
unfolding string8_split string8_split_next seek_end seek_delim collect memcmp
parts_found = refl

abbrev any_run : Option (List (List ℕ))
any_run = do
  iter ← string8_split_any (at_100 5) (at_200 2)
  parts ← collect 7 (two_texts "a,b;c" ",;") iter
  some (views (two_texts "a,b;c" ",;") parts)

any_found : any_run ≡ some (codes "a" ∷ codes "b" ∷ codes "c" ∷ [])
unfolding string8_split_any string8_split_next seek_end seek_any collect contains_char
any_found = refl

string8_split_correct_example :
    (iter : SplitIterator) × (first : String8) × (rest : List String8) × (string8_split
        (at_100 6)
        (at_200 2)
      ≡ some iter)
    × (collect 8 fields iter ≡ some (first ∷ rest))
    × (join (view fields (at_200 2)) (views fields (first ∷ rest)) ≡ view fields (at_100 6))
    × Each (λ p. string8_contains fields p (at_200 2) ≡ false) (first ∷ rest)
string8_split_correct_example =
    string8_split_correct fields (at_100 6) (at_200 2) (omega arith) (omega arith)

abbrev fresh : SplitIterator
fresh = record { s = at_100 6; delim = at_200 2; pos = 0; curr = null_string; any = false }

visit-begin_example : visit 9 fields (end fresh) (begin fields fresh) ≡ collect 9 fields fresh
visit-begin_example = visit-begin fields 9 fresh (omega arith) refl

string8_split_any_correct_example :
    (iter : SplitIterator) × (parts : List String8) × (string8_split_any (at_100 6) (at_200 2)
      ≡ some iter)
    × (collect 8 fields iter ≡ some parts)
    × (concat (views fields parts) ≡ kept fields (at_200 2) (view fields (at_100 6)))
    × (length parts ≡ suc (count fields (at_200 2) (view fields (at_100 6))))
string8_split_any_correct_example =
    string8_split_any_correct fields (at_100 6) (at_200 2) (omega arith)
