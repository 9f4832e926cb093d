-- ===== src/Utf8/Tests.antt =====
-- Runs of the decoder on texts with sequences of every length, and its theorems at such a text.
use cxb.Prelude.{ℕ, zero, suc, ◌<◌, ◌≤◌, ◌≡◌, refl, true, false, none, some, List, [], ◌∷◌, arith}
use cxb.Text.{Memory, String8, view}
use cxb.Utf8.{utf8_iter_next, make_utf8_iter, decode_string8}
use cxb.Utf8.Encoding.{encode, encode_all}
use cxb.Utf8.RoundTrip.{AreCodePoints, utf8_iter_next_correct, decode_string8-encode_all}

abbrev memory_of : List ℕ → Memory
memory_of [] i = 0
memory_of (x ∷ xs) zero = x
memory_of (x ∷ xs) (suc i) = memory_of xs i

abbrev first : ℕ → String8
first n = record { address = 0; len = n; not_null_term = false }

-- `a`, `é`, `€` and an emoji.
abbrev code_points : List ℕ
code_points = 97 ∷ 233 ∷ 8364 ∷ 128512 ∷ []

abbrev encoded : Memory
encoded = memory_of (97 ∷ 195 ∷ 169 ∷ 226 ∷ 130 ∷ 172 ∷ 240 ∷ 159 ∷ 152 ∷ 128 ∷ [])

view-encoded : view encoded (first 10) ≡ encode_all code_points
unfolding encode_all encode
view-encoded = refl

decoded : decode_string8 encoded (first 10) ≡ some code_points
unfolding decode_string8
decoded = refl

-- A byte that starts no sequence is left out.
stray_byte : decode_string8 (memory_of (97 ∷ 130 ∷ 98 ∷ [])) (first 3) ≡ some (97 ∷ 98 ∷ [])
unfolding decode_string8
stray_byte = refl

-- A sequence that is cut off reads the byte behind the text, and the iterator ends behind it.
cut_off :
    utf8_iter_next (memory_of (97 ∷ 195 ∷ 10 ∷ [])) (make_utf8_iter (first 2))
    ≡ some (record { s = first 2; pos = 3 }, 97 ∷ 202 ∷ [], true)
unfolding utf8_iter_next make_utf8_iter
cut_off = refl

four_code_points : AreCodePoints code_points
four_code_points = (omega arith, (omega arith, (omega arith, (omega arith, _))))

utf8_iter_next_correct_example :
    (4 ≤ 512
      → utf8_iter_next encoded (make_utf8_iter (first 10))
        ≡ some (record { s = first 10; pos = 10 }, code_points, true))
    × (512 < 4 → utf8_iter_next encoded (make_utf8_iter (first 10)) ≡ none)
utf8_iter_next_correct_example =
    utf8_iter_next_correct encoded (first 10) code_points four_code_points view-encoded

decode_string8-encode_all_example : decode_string8 encoded (first 10) ≡ some code_points
decode_string8-encode_all_example =
    decode_string8-encode_all encoded (first 10) code_points four_code_points view-encoded
      (omega arith)
