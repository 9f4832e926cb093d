-- ===== src/Allocator/Writes.antt =====
-- Where `memset` and `memcpy` write, and `arena_pop_to` at a position in use.
use cxb.Prelude.{
  ℕ, ◌+◌, ◌-◌, ◌<◌, ◌≤◌, ◌≡◌, ◌⊎◌, inl, inr, refl, true, some, arith, leb, ◌||◌, lt→ltb,
  le→ltb_false, le→leb, lt→leb_false,
}
use cxb.Text.{Memory}
use cxb.Arena.{Arena, arena_pop_to, memset, memcpy, memmove}

pub memset_inside : (m : Memory) (a c n x : ℕ) → a ≤ x → x < a + n → memset m a c n x ≡ c
unfolding memset
memset_inside m a c n x lo hi = rw (le→leb a x lo, lt→ltb x (a + n) hi) refl

pub memset_outside : (m : Memory) (a c n x : ℕ) → (x < a) ⊎ (a + n ≤ x) → memset m a c n x ≡ m x
unfolding memset
memset_outside m a c n x (inl h) = rw (lt→leb_false a x h) refl
memset_outside m a c n x (inr h) = rw (le→ltb_false x (a + n) h) (ground arith)

apart_lem :
    (dst src n : ℕ)
    → (dst + n ≤ src) ⊎ (src + n ≤ dst)
    → (leb (dst + n) src || leb (src + n) dst) ≡ true
apart_lem dst src n apart = ground (arith, apart)

pub memcpy_inside :
    (m : Memory) (dst src n i : ℕ)
    → (dst + n ≤ src) ⊎ (src + n ≤ dst)
    → i < n
    → memcpy m dst src n (dst + i) ≡ m (src + i)
unfolding memcpy
memcpy_inside m dst src n i apart h =
    rw
      (
        apart_lem dst src n apart,
        le→leb dst (dst + i) (omega arith),
        lt→ltb (dst + i) (dst + n) (omega arith),
        let e : dst + i - dst ≡ i = omega arith in e,
      )
      refl

pub memmove_inside :
    (m : Memory) (dst src n i : ℕ) → i < n → memmove m dst src n (dst + i) ≡ m (src + i)
unfolding memmove
memmove_inside m dst src n i h =
    rw
      (
        le→leb dst (dst + i) (omega arith),
        lt→ltb (dst + i) (dst + n) (omega arith),
        let e : dst + i - dst ≡ i = omega arith in e,
      )
      refl

pub memcpy_outside :
    (m : Memory) (dst src n x : ℕ) → (x < dst) ⊎ (dst + n ≤ x) → memcpy m dst src n x ≡ m x
unfolding memcpy
memcpy_outside m dst src n x (inl h) = rw (lt→leb_false dst x h) refl
memcpy_outside m dst src n x (inr h) = rw (le→ltb_false x (dst + n) h) (ground arith)

pub pop_lem :
    (a : Arena) (pos' : ℕ)
    → pos' ≤ a.pos
    → a.start + a.pos ≤ a.end
    → arena_pop_to a pos' ≡ some (record a { pos = pos' })
unfolding arena_pop_to
pop_lem a pos' le used = ground arith
