-- ===== src/Numbers/Digits.antt =====
-- The digits of a number and the parsing loop on lists of characters.
use native.Mathlib.Nat.{mod-lt, mod-eq_of_lt, pow-suc, div-add-mod}
use mathlib.Core.Path.{ap₂}
use cxb.Prelude.{
  ℕ, zero, suc, ◌+◌, ◌-◌, ◌*◌, ◌/◌, ◌%◌, ◌^◌, ◌<◌, ◌≤◌, ◌≡◌, refl, sym, ap, ◌∙◌, Option, none, some,
  List, [], ◌∷◌, ◌++◌, arith, length, ==_ne, ℕ_discrete, le→leb,
}
use cxb.Bits.{pow-pos}
use cxb.Text.{Memory, bytes}
use cxb.Numbers.{ParseState, parse_char, parse_from, digits_of}

-- A list of characters backwards.
abbrev pub backwards : List ℕ → List ℕ
backwards [] = []
backwards (c ∷ cs) = backwards cs ++ (c ∷ [])

-- Every character is a decimal digit.
abbrev pub AreDigits : List ℕ → Type 0
AreDigits [] = Unit
AreDigits (c ∷ cs) = ((48 ≤ c) × (c ≤ 57)) × AreDigits cs

-- The number that decimal digits denote, the last digit first.
abbrev pub number : List ℕ → ℕ
number [] = 0
number (c ∷ cs) = number cs * 10 + (c - 48)

AreDigits-append :
    (xs : List ℕ) (c : ℕ) → AreDigits xs → (48 ≤ c) × (c ≤ 57) → AreDigits (xs ++ (c ∷ []))
AreDigits-append [] c d h = (h, tt)
AreDigits-append (x ∷ xs) c (d, ds) h = (d, AreDigits-append xs c ds h)

pub AreDigits-backwards : (cs : List ℕ) → AreDigits cs → AreDigits (backwards cs)
AreDigits-backwards [] d = tt
AreDigits-backwards (c ∷ cs) (d, ds) =
    AreDigits-append (backwards cs) c (AreDigits-backwards cs ds) d

pub digits_of_lem :
    (f v : ℕ)
    → AreDigits (digits_of f v)
      × (length (digits_of f v) ≤ f)
      × (v < 10 ^ f → number (digits_of f v) ≡ v)
unfolding digits_of
digits_of_lem zero v = (tt, omega arith, λ h. omega (arith, h))
digits_of_lem (suc f) v =
    let (d, l, n) = digits_of_lem f (v / 10) in
    elim (ℕ_discrete (v / 10) 0) [
      | yes z ↦ rw z (((omega arith, omega arith), tt), omega arith, λ h. omega (arith, z))
      | no ne ↦ rw (==_ne (v / 10) 0 ne) (
        ((omega arith, omega arith), d),
        omega (arith, l),
        λ h.
            let e = n (let q : v / 10 < 10 ^ f = omega (arith, pow-suc 10 f, h) in q) in
            rw e (omega arith),
      )
    ]

-- A remainder times ten counts as the number times ten.
pub times_ten : (x p d : ℕ) → 0 < p → (x % p * 10 + d) % p ≡ (x * 10 + d) % p
times_ten x p d h = sym (
    remainder (x * 10 + d) p (10 * (x / p) + (x % p * 10 + d) / p) ((x % p * 10 + d) % p)
      (omega (arith, ap (λ (t : ℕ). 10 * t) (div-add-mod x p), div-add-mod (x % p * 10 + d) p))
      (mod-lt (x % p * 10 + d) h))
  where
    remainder : (y d q r : ℕ) → y ≡ q * d + r → r < d → y % d ≡ r
    remainder y d q r e h = grind arith

module _ (width base : ℕ) where
  -- The loop of `string8_parse` on the list of the characters.
  abbrev pub parse_list : List ℕ → ParseState → ParseState
  parse_list [] st = st
  parse_list (c ∷ cs) st = elim (parse_char width base c st) [
    | none ↦ st
    | some st' ↦ parse_list cs st'
  ]

  pub parse_from-list :
      (m : Memory) (n a : ℕ) (st : ParseState)
      → parse_from width base m n a st ≡ parse_list (bytes m a n) st
  unfolding parse_from
  parse_from-list m zero a st = refl
  parse_from-list m (suc n) a st =
      go (parse_char width base (m a) st) (λ st'. parse_from-list m n (suc a) st')
    where
      go :
          (o : Option ParseState)
          → ((st' : ParseState)
              → parse_from width base m n (suc a) st' ≡ parse_list (bytes m (suc a) n) st')
          → elim o [ none ↦ st | some st' ↦ parse_from width base m n (suc a) st' ]
            ≡ elim o [ none ↦ st | some st' ↦ parse_list (bytes m (suc a) n) st' ]
      go none ih = refl
      go (some st') ih = ih st'

  parse_char-digit :
      (c : ℕ) (st : ParseState)
      → (48 ≤ c) × (c ≤ 57)
      → parse_char width base c st
        ≡ some (record st {
          value = (st.value * base + (c - 48)) % 2 ^ width;
          n_consumed = st.n_consumed + 1;
        })
  unfolding parse_char
  parse_char-digit c st (lo, hi) =
      rw (==_ne c 45 (omega arith), le→leb 48 c lo, le→leb c 57 hi) refl

  -- The state after a digit.
  abbrev after_digit : ℕ → ParseState → ParseState
  after_digit c st = record st {
    value = (st.value * base + (c - 48)) % 2 ^ width;
    n_consumed = st.n_consumed + 1;
  }

  parse_list-digit :
      (c : ℕ) (cs : List ℕ) (st : ParseState)
      → (48 ≤ c) × (c ≤ 57)
      → parse_list (c ∷ cs) st ≡ parse_list cs (after_digit c st)
  parse_list-digit c cs st d =
      ap (λ (o : Option ParseState). elim o [ none ↦ st | some st' ↦ parse_list cs st' ])
        (parse_char-digit c st d)

  -- Digits do not break the loop.
  parse_list-append :
      (xs ys : List ℕ) (st : ParseState)
      → AreDigits xs
      → parse_list (xs ++ ys) st ≡ parse_list ys (parse_list xs st)
  parse_list-append [] ys st d = refl
  parse_list-append (x ∷ xs) ys st (d, ds) =
      parse_list-digit x (xs ++ ys) st d
      ∙ parse_list-append xs ys (after_digit x st) ds
      ∙ ap (parse_list ys) (sym (parse_list-digit x xs st d))

-- Decimal digits add their number to a value of 0.
pub parse_list-backwards :
    (width : ℕ) (cs : List ℕ) (st : ParseState)
    → AreDigits cs
    → st.value ≡ 0
    → parse_list width 10 (backwards cs) st
      ≡ record st { value = number cs % 2 ^ width; n_consumed = st.n_consumed + length cs }
parse_list-backwards width [] st d z =
    (let v : st.value ≡ 0 % 2 ^ width = z ∙ sym (mod-eq_of_lt (pow-pos width)) in
      let n : st.n_consumed ≡ st.n_consumed + 0 = omega arith in
      ap₂ (λ x y. record st { value = x; n_consumed = y }) v n)
parse_list-backwards width (c ∷ cs) st (d, ds) z =
    parse_list-append width 10 (backwards cs) (c ∷ []) st (AreDigits-backwards cs ds)
    ∙ ap (parse_list width 10 (c ∷ [])) (parse_list-backwards width cs st ds z)
    ∙ parse_list-digit width 10 c [] _ d
    ∙ ap₂ (λ x y. record st { value = x; n_consumed = y })
        (times_ten (number cs) (2 ^ width) (c - 48) (pow-pos width))
        (let n : st.n_consumed + length cs + 1 ≡ st.n_consumed + suc (length cs) = omega arith in n)
