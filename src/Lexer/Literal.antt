-- ===== src/Lexer/Literal.antt =====
-- `atoi128` of examples/parser.cpp, on the list of the characters. A value of `i128` is its residue
-- modulo 2 ^ 128.
use cxb.Prelude.{
  ℕ, suc, ◌+◌, ◌-◌, ◌*◌, ◌%◌, ◌^◌, ◌<◌, ◌≤◌, ◌≡◌, refl, ap, ◌∙◌, Bool, true, false, ◌||◌, List, [],
  ◌∷◌, ◌++◌, ◌==◌, ltb, if◌then◌else◌, arith, length, length-append, ==_ne, le→ltb_false,
}
use cxb.Bits.{pow-pos}
use cxb.Numbers.Digits.{AreDigits, backwards, number, AreDigits-backwards, times_ten}

-- The variables of the function.
pub record Atoi : Type 0 where
  pub result : ℕ
  pub negative : Bool
  pub valid : Bool

-- A round of the loop on the character at an index; it breaks where `valid` is false.
unfoldable pub atoi_char : ℕ → ℕ → Atoi → Atoi
atoi_char i ch st =
    if ch == b'-'
    then record st { negative = true; valid = i == 0 }
    else if ch == b'+'
    then record st { valid = i == 0 }
    else if ltb b'9' ch || ltb ch b'0'
    then record st { result = st.result * 10 % 2 ^ 128; valid = false }
    else record st { result = (st.result * 10 + (ch - 48)) % 2 ^ 128 }

-- The loop from an index on.
unfoldable pub atoi_from : ℕ → List ℕ → Atoi → Atoi
atoi_from i [] st = st
atoi_from i (ch ∷ rest) st =
    let st' = atoi_char i ch st in
    let end = atoi_from (suc i) rest st' in if st'.valid then end else st'

-- The value and whether it is valid.
unfoldable pub atoi128 : List ℕ → ℕ × Bool
unfolding atoi_from
atoi128 [] = (0, false)
atoi128 (ch ∷ rest) =
    let st = atoi_from 0 (ch ∷ rest) (record { result = 0; negative = false; valid = true }) in
    (if st.negative then (2 ^ 128 - st.result) % 2 ^ 128 else st.result, st.valid)

atoi_char-digit :
    (i ch : ℕ) (st : Atoi)
    → (48 ≤ ch) × (ch ≤ 57)
    → atoi_char i ch st ≡ record st { result = (st.result * 10 + (ch - 48)) % 2 ^ 128 }
unfolding atoi_char
atoi_char-digit i ch st (lo, hi) =
    rw
      (
        ==_ne ch 45 (omega arith),
        ==_ne ch 43 (omega arith),
        le→ltb_false 57 ch hi,
        le→ltb_false ch 48 lo,
      )
      refl

-- A digit behind digits.
atoi_from-append :
    (xs : List ℕ) (i ch : ℕ) (st : Atoi)
    → st.valid ≡ true
    → AreDigits xs
    → (48 ≤ ch) × (ch ≤ 57)
    → atoi_from i (xs ++ ch ∷ []) st ≡ atoi_char 0 ch (atoi_from i xs st)
unfolding atoi_from
atoi_from-append [] i ch st v ds d =
    rw (atoi_char-digit i ch st d, atoi_char-digit 0 ch st d, v) refl
atoi_from-append (x ∷ xs) i ch st v (dx, ds) d =
    rw (atoi_char-digit i x st dx, v)
      (atoi_from-append xs (suc i) ch
        (record {
          result = (st.result * 10 + (x - 48)) % 2 ^ 128;
          negative = st.negative;
          valid = true;
        })
        refl ds d)

-- The digits of a number are read as the number.
atoi_from_digits :
    (ds : List ℕ) (i : ℕ) (negative : Bool)
    → AreDigits ds
    → atoi_from i (backwards ds) (record { result = 0; negative = negative; valid = true })
      ≡ record { result = number ds % 2 ^ 128; negative = negative; valid = true }
unfolding atoi_from
atoi_from_digits [] i negative h = refl
atoi_from_digits (c ∷ cs) i negative (d, ds) =
    atoi_from-append (backwards cs) i c _ refl (AreDigits-backwards cs ds) d
    ∙ ap (atoi_char 0 c) (atoi_from_digits cs i negative ds)
    ∙ atoi_char-digit 0 c _ d
    ∙ ap (λ r. record { result = r; negative = negative; valid = true })
        (times_ten (number cs) (2 ^ 128) (c - 48) (pow-pos 128))

length-backwards : (ds : List ℕ) → length (backwards ds) ≡ length ds
length-backwards [] = refl
length-backwards (c ∷ cs) =
    omega (arith, length-append (backwards cs) (c ∷ []), length-backwards cs)

abbrev start : Bool → Atoi
start negative = record { result = 0; negative = negative; valid = true }

-- What the function makes of the variables at the end of the loop.
value_of : Atoi → ℕ × Bool
value_of st = (if st.negative then (2 ^ 128 - st.result) % 2 ^ 128 else st.result, st.valid)

atoi128_loop : (xs : List ℕ) → 0 < length xs → atoi128 xs ≡ value_of (atoi_from 0 xs (start false))
unfolding atoi128 value_of
atoi128_loop [] h = absurd (omega arith)
atoi128_loop (x ∷ xs) h = refl

-- A numeral of decimal digits, with or without a sign, is valid, and its value is the number that
-- the digits denote, negated behind a minus, modulo 2 ^ 128.
pub atoi128_correct :
    (ds : List ℕ)
    → AreDigits ds
    → 0 < length ds
    → (atoi128 (backwards ds) ≡ (number ds % 2 ^ 128, true))
      × (atoi128 (b'+' ∷ backwards ds) ≡ (number ds % 2 ^ 128, true))
      × (atoi128 (b'-' ∷ backwards ds) ≡ ((2 ^ 128 - number ds % 2 ^ 128) % 2 ^ 128, true))
unfolding value_of atoi_char atoi_from
atoi128_correct ds h some_digit = (
  atoi128_loop (backwards ds) (omega (arith, length-backwards ds))
      ∙ ap value_of (atoi_from_digits ds 0 false h),
  atoi128_loop (b'+' ∷ backwards ds) (omega arith) ∙ ap value_of (atoi_from_digits ds 1 false h),
  atoi128_loop (b'-' ∷ backwards ds) (omega arith) ∙ ap value_of (atoi_from_digits ds 1 true h),
)
