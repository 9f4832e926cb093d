-- ===== src/Utf8/Encoding.antt =====
-- The encoding, independent of the decoder, and the masks of the decoder on its bytes.
use Prim.Native.Nat.{bit_and}
use cxb.Prelude.{
  ℕ, zero, suc, ◌+◌, ◌-◌, ◌/◌, ◌%◌, ◌^◌, ◌<◌, ◌≤◌, ◌≡◌, refl, Bool, true, false, ◌&&◌, List, [],
  ◌∷◌, ◌++◌, ◌==◌, ltb, if◌then◌else◌, arith, ℕ_discrete, ap, ◌∙◌, lt→ltb, le→ltb_false,
}
use cxb.Bits.{pow2mod, pow2mod-eq-mod}

-- The lowest six bits of a code point in a byte that continues a sequence.
unfoldable pub continuation : ℕ → ℕ
continuation x = 128 + x % 64

-- The bytes of a code point below 2 ^ 21.
unfoldable pub encode : ℕ → List ℕ
unfolding continuation
encode c =
    if ltb c 128
    then c ∷ []
    else if ltb c (2 ^ 11)
    then (192 + c / 64) ∷ continuation c ∷ []
    else if ltb c (2 ^ 16)
    then (224 + c / 2 ^ 12) ∷ continuation (c / 64) ∷ continuation c ∷ []
    else (240 + c / 2 ^ 18)
      ∷ continuation (c / 2 ^ 12)
      ∷ continuation (c / 64)
      ∷ continuation c
      ∷ []

pub encode_one : (c : ℕ) → c < 128 → encode c ≡ c ∷ []
unfolding encode
encode_one c h = rw (lt→ltb c 128 h) refl

pub encode_two : (c : ℕ) → 128 ≤ c → c < 2 ^ 11 → encode c ≡ (192 + c / 64) ∷ continuation c ∷ []
unfolding encode
encode_two c l h = rw (le→ltb_false c 128 l, lt→ltb c (2 ^ 11) h) refl

pub encode_three :
    (c : ℕ)
    → 2 ^ 11 ≤ c
    → c < 2 ^ 16
    → encode c ≡ (224 + c / 2 ^ 12) ∷ continuation (c / 64) ∷ continuation c ∷ []
unfolding encode
encode_three c l h =
    rw (le→ltb_false c 128 (omega arith), le→ltb_false c (2 ^ 11) l, lt→ltb c (2 ^ 16) h) refl

pub encode_four :
    (c : ℕ)
    → 2 ^ 16 ≤ c
    → encode c
      ≡ (240 + c / 2 ^ 18) ∷ continuation (c / 2 ^ 12) ∷ continuation (c / 64) ∷ continuation c ∷ []
unfolding encode
encode_four c l =
    rw
      (
        le→ltb_false c 128 (omega arith),
        le→ltb_false c (2 ^ 11) (omega arith),
        le→ltb_false c (2 ^ 16) l,
      )
      refl

unfoldable pub encode_all : List ℕ → List ℕ
encode_all [] = []
encode_all (c ∷ cs) = encode c ++ encode_all cs

pub encode_all-nil : encode_all [] ≡ []
unfolding encode_all
encode_all-nil = refl

pub encode_all-cons : (c : ℕ) (cs : List ℕ) → encode_all (c ∷ cs) ≡ encode c ++ encode_all cs
unfolding encode_all
encode_all-cons c cs = refl

-- A test of every number below a bound.
all_below : ℕ → (ℕ → Bool) → Bool
all_below zero p = true
all_below (suc n) p = all_below n p && p n

and_true : (a b : Bool) → (a && b) ≡ true → (a ≡ true) × (b ≡ true)
and_true true b h = (refl, h)
and_true false b h = cc

all_below_lem : (n : ℕ) (p : ℕ → Bool) → all_below n p ≡ true → (i : ℕ) → i < n → p i ≡ true
unfolding all_below
all_below_lem zero p h i l = absurd (omega arith)
all_below_lem (suc n) p h i l =
    let (before, last) = and_true (all_below n p) (p n) h in
    elim (ℕ_discrete i n) [
      | yes e ↦ ap p e ∙ last
      | no ne ↦ all_below_lem n p before i (omega arith)
    ]

bool_eq : Bool → Bool → Bool
bool_eq true b = b
bool_eq false true = false
bool_eq false false = true

bool_eq-eq : (a b : Bool) → bool_eq a b ≡ true → a ≡ b
unfolding bool_eq
bool_eq-eq true true e = refl
bool_eq-eq true false e = cc
bool_eq-eq false true e = cc
bool_eq-eq false false e = refl

-- The tests of the first byte of a sequence.
pub one_byte : (b : ℕ) → b < 256 → (bit_and b 128 == 0) ≡ ltb b 128
unfolding all_below bool_eq
one_byte b h =
    bool_eq-eq (bit_and b 128 == 0) (ltb b 128)
      (all_below_lem 256 (λ b. bool_eq (bit_and b 128 == 0) (ltb b 128)) refl b h)

pub four_bytes : (b : ℕ) → b < 256 → (bit_and b 248 == 240) ≡ (b / 8 == 30)
unfolding all_below bool_eq
four_bytes b h =
    bool_eq-eq (bit_and b 248 == 240) (b / 8 == 30)
      (all_below_lem 256 (λ b. bool_eq (bit_and b 248 == 240) (b / 8 == 30)) refl b h)

pub three_bytes : (b : ℕ) → b < 256 → (bit_and b 240 == 224) ≡ (b / 16 == 14)
unfolding all_below bool_eq
three_bytes b h =
    bool_eq-eq (bit_and b 240 == 224) (b / 16 == 14)
      (all_below_lem 256 (λ b. bool_eq (bit_and b 240 == 224) (b / 16 == 14)) refl b h)

pub two_bytes : (b : ℕ) → b < 256 → (bit_and b 224 == 192) ≡ (b / 32 == 6)
unfolding all_below bool_eq
two_bytes b h =
    bool_eq-eq (bit_and b 224 == 192) (b / 32 == 6)
      (all_below_lem 256 (λ b. bool_eq (bit_and b 224 == 192) (b / 32 == 6)) refl b h)

-- A mask of the lowest bits.
pub low_bits : (b k : ℕ) → bit_and b (2 ^ k - 1) ≡ b % 2 ^ k
low_bits b k = unfold pow2mod in pow2mod-eq-mod b k
