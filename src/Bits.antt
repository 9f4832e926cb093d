-- ===== src/Bits.antt =====
-- `pow2mod` of cxb/cxb.h: the remainder by a power of two as a bit mask.
mod Tests
use Prim.Native.Nat.{bit_and, bit_or, bit_and-bitwise, digits}
use native.Mathlib.Nat.{div-add-mod, mod-lt, mod_self, mod-eq_of_lt, pow-suc}
use cxb.Prelude.{
  ℕ, zero, suc, ◌+◌, ◌-◌, ◌*◌, ◌/◌, ◌%◌, ◌^◌, ◌≤◌, ◌<◌, min, ◌≡◌, refl, Bool, not, ◌&&◌, ◌==◌,
  arith, ap, sym, true, false, ℕ_discrete, ==_iff, ==_ne, ◌∙◌, leb, if◌then◌else◌, add64,
}

-- The condition that `pow2mod` asserts of its second argument.
unfoldable pub is_pow2 : ℕ → Bool
is_pow2 b = not (b == 0) && (bit_and b (b - 1) == 0)

-- `x & (b - 1)`
unfoldable pub pow2mod : ℕ → ℕ → ℕ
pow2mod x b = bit_and x (b - 1)

pub pow-pos : (k : ℕ) → 0 < 2 ^ k
pow-pos zero = omega arith
pow-pos (suc k) = omega (arith, pow-suc 2 k, pow-pos k)

-- Half of a mask, its lowest digit, and the remainder in terms of the half's.
mask_half : (k : ℕ) → ((2 ^ suc k - 1) / 2 ≡ 2 ^ k - 1) × ((2 ^ suc k - 1) % 2 ≡ 1)
mask_half k = (omega (arith, pow-suc 2 k, pow-pos k), omega (arith, pow-suc 2 k, pow-pos k))

mod_half : (x k : ℕ) → x / 2 % 2 ^ k * 2 + x % 2 ≡ x % 2 ^ suc k
mod_half x k =
    let p = 2 ^ k in
    let two : 2 ^ suc k ≡ 2 * p = omega (arith, pow-suc 2 k) in
    let quotient = div-add-mod (x / 2) p in
    let small = mod-lt (x / 2) (pow-pos k) in
    rw two (
      sym (
        remainder x (2 * p) (x / 2 / p) (x / 2 % p * 2 + x % 2)
          (omega (arith, ap (λ (t : ℕ). 2 * t) quotient)) (omega (arith, small))))
  where
    remainder : (y d q r : ℕ) → y ≡ q * d + r → r < d → y % d ≡ r
    remainder y d q r e h = grind arith

-- Masking digit by digit, for any count of digits that covers the number.
masked : (count x k : ℕ) → x ≤ count → digits (λ b. zero) min count x (2 ^ k - 1) ≡ x % 2 ^ k
masked zero x k h = rw (let z : x ≡ 0 = omega arith in z) (sym (mod-eq_of_lt (pow-pos k)))
masked (suc count) zero k h = sym (mod-eq_of_lt (pow-pos k))
masked (suc count) (suc x) zero h = omega (arith, masked count (suc x / 2) zero (omega arith))
masked (suc count) (suc x) (suc k) h =
    let (half, lowest) = mask_half k in
    rw (half, lowest, masked count (suc x / 2) k (omega arith)) (omega (arith, mod_half (suc x) k))

-- The mask of a power of two is the remainder.
pub pow2mod-eq-mod : (x k : ℕ) → pow2mod x (2 ^ k) ≡ x % 2 ^ k
unfolding pow2mod
pow2mod-eq-mod x k = bit_and-bitwise x (2 ^ k - 1) ∙ masked x x k (omega arith)

-- The assertion of `pow2mod` passes at every power of two.
pub is_pow2-pow : (k : ℕ) → is_pow2 (2 ^ k) ≡ true
unfolding is_pow2
is_pow2-pow k =
    let z : bit_and (2 ^ k) (2 ^ k - 1) ≡ 0 =
      unfold pow2mod in pow2mod-eq-mod (2 ^ k) k ∙ mod_self (2 ^ k) in
    rw (==_ne (2 ^ k) 0 (omega (arith, pow-pos k)), z)

-- `round_up_pow2` on a 64-bit word: the bits below the highest one are filled, then 1 is added.
fill : ℕ → ℕ → ℕ
fill s x = bit_or x (x / 2 ^ s)

unfoldable pub round_up_pow2 : ℕ → ℕ
unfolding fill
round_up_pow2 x =
    if leb x 1 then 1 else add64 (fill 32 (fill 16 (fill 8 (fill 4 (fill 2 (fill 1 (x - 1))))))) 1

-- A test that every number below a bound passes.
unfoldable pub passes_below : (ℕ → Bool) → ℕ → Bool
passes_below test zero = true
passes_below test (suc bound) = if test bound then passes_below test bound else false

pub passes_below_lem :
    (test : ℕ → Bool) (bound x : ℕ) → x < bound → passes_below test bound ≡ true → test x ≡ true
unfolding passes_below
passes_below_lem test (suc bound) x l h = elim (ℕ_discrete x bound) [
  | yes e ↦ ground (arith, e)
  | no n ↦ passes_below_lem test bound x (omega arith) (ground arith)
]
passes_below_lem test zero x l h = absurd (omega arith)

fixed_powers : passes_below (λ k. round_up_pow2 (2 ^ k) == 2 ^ k) 64 ≡ true
unfolding passes_below round_up_pow2
fixed_powers = refl

-- A power of two that fits the word is its own round-up.
pub round_up_pow2-pow : (k : ℕ) → k < 64 → round_up_pow2 (2 ^ k) ≡ 2 ^ k
round_up_pow2-pow k h = (==_iff _ (2 ^ k)).0 (passes_below_lem _ 64 k h fixed_powers)
