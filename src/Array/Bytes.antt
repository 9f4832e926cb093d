-- ===== src/Array/Bytes.antt =====
-- What writes leave in a region of memory.
use mathlib.Core.Path.{ap₂}
use cxb.Prelude.{
  ℕ, zero, suc, ◌+◌, ◌<◌, ◌≤◌, ◌≡◌, ◌⊎◌, inl, refl, ap, ◌∙◌, List, [], ◌∷◌, arith, length, ==_refl,
  ==_ne,
}
use cxb.Text.{Memory, bytes}
use cxb.Text.Bytes.{bytes_agree}
use cxb.Arena.{memcpy}
use cxb.Allocator.Writes.{memcpy_inside, memcpy_outside}
use cxb.Array.{write_bytes}

write_bytes_outside :
    (m : Memory) (a : ℕ) (vs : List ℕ) (i : ℕ) → i < a → write_bytes m a vs i ≡ m i
unfolding write_bytes
write_bytes_outside m a [] i h = refl
write_bytes_outside m a (v ∷ vs) i h =
    rw (==_ne i a (omega arith)) (write_bytes_outside m (suc a) vs i (omega arith))

-- A write leaves the regions before it as they are.
pub bytes-write_bytes_before :
    (m : Memory) (a : ℕ) (vs : List ℕ) (b n : ℕ)
    → b + n ≤ a
    → bytes (write_bytes m a vs) b n ≡ bytes m b n
bytes-write_bytes_before m a vs b n h =
    bytes_agree (write_bytes m a vs) m b n (λ i l. write_bytes_outside m a vs (b + i) (omega arith))

-- The written region holds what was written.
pub bytes-write_bytes :
    (m : Memory) (a : ℕ) (vs : List ℕ) → bytes (write_bytes m a vs) a (length vs) ≡ vs
bytes-write_bytes m a [] = refl
bytes-write_bytes m a (v ∷ vs) = ap₂ ◌∷◌ (unfold write_bytes in rw (==_refl a)) (
    bytes_agree (write_bytes m a (v ∷ vs)) (write_bytes m (suc a) vs) (suc a) (length vs)
      (λ i l. unfold write_bytes in rw (==_ne (suc a + i) a (omega arith)))
    ∙ bytes-write_bytes m (suc a) vs)

pub bytes-memcpy_before :
    (m : Memory) (dst src k b n : ℕ) → b + n ≤ dst → bytes (memcpy m dst src k) b n ≡ bytes m b n
bytes-memcpy_before m dst src k b n h =
    bytes_agree (memcpy m dst src k) m b n
      (λ i l. memcpy_outside m dst src k (b + i) (inl (omega arith)))

pub shifted :
    (m m' : Memory) (a b n : ℕ)
    → ((i : ℕ) → i < n → m' (a + i) ≡ m (b + i))
    → bytes m' a n ≡ bytes m b n
shifted m m' a b zero h = refl
shifted m m' a b (suc n) h =
    ap₂ ◌∷◌
      (ap m' (let e : a ≡ a + 0 = omega arith in e)
        ∙ h 0 (omega arith)
        ∙ ap m (let e : b + 0 ≡ b = omega arith in e))
      (shifted m m' (suc a) (suc b) n (λ i l.
        ap m' (let e : suc a + i ≡ a + suc i = omega arith in e)
        ∙ h (suc i) (omega arith)
        ∙ ap m (let e : b + suc i ≡ suc b + i = omega arith in e)))

-- The copy holds the bytes of the source, if the two are apart.
pub bytes-memcpy :
    (m : Memory) (dst src n : ℕ)
    → (dst + n ≤ src) ⊎ (src + n ≤ dst)
    → bytes (memcpy m dst src n) dst n ≡ bytes m src n
bytes-memcpy m dst src n apart =
    shifted m (memcpy m dst src n) dst src n (λ i l. memcpy_inside m dst src n i apart l)
