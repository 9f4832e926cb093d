-- ===== src/Text/Bytes.antt =====
-- Regions of memory: how `memcmp` and the byte lists of views relate.
use mathlib.Core.Path.{ap₂}
use cxb.Prelude.{
  ℕ, zero, suc, ◌+◌, ◌<◌, ◌≡◌, ◌≢◌, ◌↔◌, refl, ap, ◌∙◌, true, false, List, ◌∷◌, ◌++◌, arith, length,
}
use cxb.Text.{Memory, bytes, memcmp, is_eq}

module _ (m : Memory) where
  -- A region is a shorter region and the one behind it.
  pub bytes_split : (a n k : ℕ) → bytes m a (n + k) ≡ bytes m a n ++ bytes m (a + n) k
  bytes_split a zero k = ap₂ (bytes m) (omega arith) (omega arith)
  bytes_split a (suc n) k =
      ap (bytes m a) (let e : suc n + k ≡ suc (n + k) = omega arith in e)
      ∙ ap (λ t. m a ∷ t)
          (bytes_split (suc a) n k
            ∙ ap (λ t. bytes m (suc a) n ++ bytes m t k)
                (let e : suc a + n ≡ a + suc n = omega arith in e))

  cons_eq : (x y : ℕ) (xs ys : List ℕ) → x ∷ xs ≡ y ∷ ys → (x ≡ y) × (xs ≡ ys)
  cons_eq x y xs ys h = (cc, cc)

  -- `memcmp` gives equality exactly if the regions hold the same bytes.
  pub memcmp_iff : (n a b : ℕ) → (is_eq (memcmp m a b n) ≡ true) ↔ (bytes m a n ≡ bytes m b n)
  unfolding memcmp
  memcmp_iff zero a b = ((λ h. refl), (λ h. refl))
  memcmp_iff (suc n) a b = ground (
    arith,
    memcmp_iff n (suc a) (suc b),
    cons_eq (m a) (m b) (bytes m (suc a) n) (bytes m (suc b) n),
  )

  pub memcmp-false : (n a b : ℕ) → is_eq (memcmp m a b n) ≡ false → bytes m a n ≢ bytes m b n
  memcmp-false n a b h e = let t = (memcmp_iff n a b).1 e in cc

pub length-bytes : (m : Memory) (a n : ℕ) → length (bytes m a n) ≡ n
length-bytes m a zero = refl
length-bytes m a (suc n) = ap suc (length-bytes m (suc a) n)

-- Two memories that agree on a region hold the same bytes there.
pub bytes_agree :
    (m m' : Memory) (a n : ℕ)
    → ((i : ℕ) → i < n → m (a + i) ≡ m' (a + i))
    → bytes m a n ≡ bytes m' a n
bytes_agree m m' a zero h = refl
bytes_agree m m' a (suc n) h =
    let here : m a ≡ m' a =
      ap m (let e : a ≡ a + 0 = omega arith in e)
      ∙ h 0 (omega arith)
      ∙ ap m' (let e : a + 0 ≡ a = omega arith in e) in
    ap₂ ◌∷◌ here (
      bytes_agree m m' (suc a) n (λ i l.
        ap m (let e : suc a + i ≡ a + suc i = omega arith in e)
        ∙ h (suc i) (omega arith)
        ∙ ap m' (let e : a + suc i ≡ suc a + i = omega arith in e)))
