-- ===== src/Arena/Position.antt =====
-- Where the arena functions leave the position: alignment, bounds, and going back.
use native.Mathlib.Nat.{mod-lt, add-mod, add-mod-mod, mod-eq_of_lt, pow-le-pow_right}
use cxb.Bits.{passes_below, passes_below_lem, pow2mod, pow2mod-eq-mod, pow-pos}
use cxb.Prelude.{
  ℕ, ◌+◌, ◌-◌, ◌%◌, ◌^◌, ◌<◌, ◌≤◌, ◌≡◌, refl, sym, ap, ◌∙◌, true, none, some, ◌==◌, add64, sub64,
  add64_small, ==_iff, arith, lt→ltb, le→ltb_false, ℕ_discrete,
}
use cxb.Arena.{Arena, arena_push_bytes, arena_pop_to}

-- Padding brings a position to the next multiple: the rest of its negation.
pub pad : (p b : ℕ) → p ≤ 2 ^ 64 → 2 ^ 64 % b ≡ 0 → (p + (2 ^ 64 - p) % b) % b ≡ 0
pad p b l e =
    add-mod-mod p (2 ^ 64 - p) b
    ∙ ap (λ t. t % b) (let w : p + (2 ^ 64 - p) ≡ 2 ^ 64 = omega arith in w)
    ∙ e

word_table : passes_below (λ k. 2 ^ 64 % 2 ^ k == 0) 65 ≡ true
unfolding passes_below
word_table = refl

pub divides_word : (k : ℕ) → k ≤ 64 → 2 ^ 64 % 2 ^ k ≡ 0
divides_word k h = (==_iff _ 0).0 (passes_below_lem _ 65 k (omega arith) word_table)

-- The position that `arena_push_bytes` writes at: the next multiple of the alignment.
abbrev pub aligned_pos : ℕ → ℕ → ℕ
aligned_pos pos align = pos + (2 ^ 64 - pos) % align

-- At a multiple of the alignment there is no padding.
pub no_padding :
    (pos k : ℕ) → k ≤ 63 → pos ≤ 2 ^ 64 → pos % 2 ^ k ≡ 0 → aligned_pos pos (2 ^ k) ≡ pos
no_padding pos k small l e =
    let r = (2 ^ 64 - pos) % 2 ^ k in
    let lt : r < 2 ^ k = mod-lt (2 ^ 64 - pos) (pow-pos k) in
    let keep : r % 2 ^ k ≡ r = mod-eq_of_lt lt in
    let whole : (pos + r) % 2 ^ k ≡ r =
      add-mod pos r (2 ^ k)
      ∙ ap (λ t. t % 2 ^ k) (let w : pos % 2 ^ k + r % 2 ^ k ≡ r = omega (arith, e, keep) in w)
      ∙ keep in
    let q : r ≡ 0 = sym whole ∙ pad pos (2 ^ k) l (divides_word k (omega arith)) in omega (arith, q)

padding_lem :
    (k pos : ℕ) → k ≤ 64 → pos ≤ 2 ^ 64 → pow2mod (sub64 0 pos) (2 ^ k) ≡ (2 ^ 64 - pos) % 2 ^ k
padding_lem k pos h l = elim (ℕ_discrete pos 0) [
  | yes e ↦ rw (e, pow2mod-eq-mod, divides_word k h) (mod-eq_of_lt (pow-pos k))
  | no n ↦
      rw pow2mod-eq-mod
        (ap (λ t. t % 2 ^ k) (let w : sub64 0 pos ≡ 2 ^ 64 - pos = omega arith in w))
]

module _ (a : Arena) (size k : ℕ) (small : k ≤ 63) (start : a.start % 2 ^ k ≡ 0)
    (end : a.end ≤ 2 ^ 63) (pos : a.start + a.pos ≤ a.end) where
  -- The position that is written at lies on the next multiple of the alignment, less than one
  -- alignment away, and is a multiple of it as an address too.
  aligned_lem :
      (a.pos ≤ aligned_pos a.pos (2 ^ k))
      × (aligned_pos a.pos (2 ^ k) < a.pos + 2 ^ k)
      × ((a.start + aligned_pos a.pos (2 ^ k)) % 2 ^ k ≡ 0)
  aligned_lem = (
    omega arith,
    omega (arith, mod-lt (2 ^ 64 - a.pos) (pow-pos k)),
    add-mod a.start (aligned_pos a.pos (2 ^ k)) (2 ^ k)
        ∙ rw (start, pad a.pos (2 ^ k) (omega arith) (divides_word k (omega arith)))
            (mod-eq_of_lt (pow-pos k)),
  )

  pos_lem : add64 a.pos (pow2mod (sub64 0 a.pos) (2 ^ k)) ≡ aligned_pos a.pos (2 ^ k)
  pos_lem = rw (padding_lem k a.pos (omega arith) (omega arith)) (
      omega (
        arith,
        mod-lt (2 ^ 64 - a.pos) (pow-pos k),
        pow-le-pow_right {n = 2} (omega arith) {i = k} {j = 63} small,
      ))

  -- On an arena whose start is a multiple of the alignment `2 ^ k`, with `k` at most 63, and
  -- which ends at 2 ^ 63 or below and no earlier than its position: where the padded bytes end below the arena's
  -- end, `arena_push_bytes` gives the address of the next multiple of the alignment and moves the
  -- position behind the bytes. The address is aligned, and the padding is less than one alignment.
  pub arena_push_bytes_correct :
      a.start + aligned_pos a.pos (2 ^ k) + size < a.end
      → (arena_push_bytes a size (2 ^ k)
          ≡ some (
            record a { pos = aligned_pos a.pos (2 ^ k) + size },
            a.start + aligned_pos a.pos (2 ^ k),
          ))
        × (a.pos ≤ aligned_pos a.pos (2 ^ k))
        × (aligned_pos a.pos (2 ^ k) < a.pos + 2 ^ k)
        × ((a.start + aligned_pos a.pos (2 ^ k)) % 2 ^ k ≡ 0)
  unfolding arena_push_bytes
  arena_push_bytes_correct fits =
      let (x, y, z) = aligned_lem in
      let w : pow2mod (a.start + aligned_pos a.pos (2 ^ k)) (2 ^ k) ≡ 0 = pow2mod-eq-mod _ k ∙ z in
      (
        rw (
          pos_lem,
          lt→ltb _ _ fits,
          w,
          add64_small (aligned_pos a.pos (2 ^ k)) size (omega arith),
        ),
        x,
        y,
        z,
      )

  -- Where they would reach the arena's end, the assertion stops the program.
  pub arena_push_bytes_spill :
      a.end ≤ a.start + aligned_pos a.pos (2 ^ k) + size → arena_push_bytes a size (2 ^ k) ≡ none
  unfolding arena_push_bytes
  arena_push_bytes_spill over = rw (pos_lem, le→ltb_false _ _ over)

  -- Going back to the position before a push restores the arena.
  pub arena_pop_to-arena_push_bytes :
      (a' : Arena) (address : ℕ)
      → a.start + aligned_pos a.pos (2 ^ k) + size < a.end
      → arena_push_bytes a size (2 ^ k) ≡ some (a', address)
      → arena_pop_to a' a.pos ≡ some a
  unfolding arena_pop_to
  arena_pop_to-arena_push_bytes a' address fits e =
      let (t, x, y, z) = arena_push_bytes_correct fits in
      let same : record a { pos = aligned_pos a.pos (2 ^ k) + size } ≡ a' = cc in
      rw (← same) (ground (arith, x))
