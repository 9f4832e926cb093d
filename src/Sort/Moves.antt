-- ===== src/Sort/Moves.antt =====
-- Elements of an array as a list, and what the loops of moves do to them.
use mathlib.Core.Path.{ap₂}
use mathlib.Core.List.{append-nil, append_assoc}
use cxb.Prelude.{
  ℕ, zero, suc, ◌+◌, ◌-◌, ◌<◌, ◌≤◌, ◌≡◌, ◌≢◌, ◌⊎◌, inl, refl, sym, ap, ◌∙◌, List, [], ◌∷◌, ◌++◌,
  arith, ==_ne, ==_refl,
}
use cxb.Sort.{set, move_rest}

module _ {ℓ} {A : Type ℓ} where
  -- The elements `a[i]` to `a[i + n - 1]`.
  abbrev pub elements : (ℕ → A) → ℕ → ℕ → List A
  elements a i zero = []
  elements a i (suc n) = a i ∷ elements a (suc i) n

  pub set_other : (a : ℕ → A) (i : ℕ) (x : A) (j : ℕ) → j ≢ i → set a i x j ≡ a j
  unfolding set
  set_other a i x j ne = rw (==_ne j i ne) refl

  pub set_same : (a : ℕ → A) (i : ℕ) (x : A) → set a i x i ≡ x
  unfolding set
  set_same a i x = rw (==_refl i) refl

  pub elements_agree :
      (a b : ℕ → A) (i n : ℕ)
      → ((j : ℕ) → i ≤ j → j < i + n → a j ≡ b j)
      → elements a i n ≡ elements b i n
  elements_agree a b i zero h = refl
  elements_agree a b i (suc n) h =
      ap₂ ◌∷◌ (h i (omega arith) (omega arith))
        (elements_agree a b (suc i) n (λ j l u. h j (omega arith) (omega arith)))

  pub elements-append :
      (a : ℕ → A) (i n k : ℕ) → elements a i (n + k) ≡ elements a i n ++ elements a (i + n) k
  elements-append a i zero k = ap₂ (elements a) (omega arith) (omega arith)
  elements-append a i (suc n) k =
      ap (elements a i) (let e : suc n + k ≡ suc (n + k) = omega arith in e)
      ∙ ap (λ l. a i ∷ l) (elements-append a (suc i) n k)
      ∙ ap (λ t. a i ∷ (elements a (suc i) n ++ elements a t k))
          (let e : suc i + n ≡ i + suc n = omega arith in e)

  -- `dst[k] = x` behind the first `k` elements.
  pub elements-set :
      (a : ℕ → A) (k : ℕ) (x : A) → elements (set a k x) 0 (k + 1) ≡ elements a 0 k ++ x ∷ []
  elements-set a k x =
      elements-append (set a k x) 0 k 1
      ∙ ap (λ t. elements (set a k x) 0 k ++ set a k x t ∷ [])
          (let e : 0 + k ≡ k = omega arith in e)
      ∙ ap₂ (λ l y. l ++ y ∷ [])
          (elements_agree (set a k x) a 0 k (λ j l u. set_other a k x j (omega arith)))
          (set_same a k x)

  pub move_rest_outside :
      (n : ℕ) (src dst : ℕ → A) (i k x : ℕ)
      → (x < k) ⊎ (k + n ≤ x)
      → move_rest n src dst i k x ≡ dst x
  unfolding move_rest
  move_rest_outside zero src dst i k x h = refl
  move_rest_outside (suc n) src dst i k x h =
      move_rest_outside n src (set dst k (src i)) (suc i) (suc k) x (omega arith)
      ∙ set_other dst k (src i) x (omega arith)

  -- What a loop of moves leaves behind the first `k` elements.
  pub elements-move_rest :
      (n : ℕ) (src dst : ℕ → A) (i k : ℕ)
      → elements (move_rest n src dst i k) 0 (k + n) ≡ elements dst 0 k ++ elements src i n
  unfolding move_rest
  elements-move_rest zero src dst i k =
      ap (elements dst 0) (let e : k + 0 ≡ k = omega arith in e)
      ∙ sym (append-nil (elements dst 0 k))
  elements-move_rest (suc n) src dst i k =
      ap (elements (move_rest n src (set dst k (src i)) (suc i) (suc k)) 0)
        (let e : k + suc n ≡ suc k + n = omega arith in e)
      ∙ elements-move_rest n src (set dst k (src i)) (suc i) (suc k)
      ∙ ap (λ l. l ++ elements src (suc i) n)
          (ap (elements (set dst k (src i)) 0) (let e : suc k ≡ k + 1 = omega arith in e)
            ∙ elements-set dst k (src i))
      ∙ append_assoc (elements dst 0 k) (src i ∷ []) (elements src (suc i) n)

  -- What the loop that copies back leaves from `k` on.
  pub move_rest_moved :
      (n : ℕ) (src dst : ℕ → A) (i k : ℕ)
      → elements (move_rest n src dst i k) k n ≡ elements src i n
  unfolding move_rest
  move_rest_moved zero src dst i k = refl
  move_rest_moved (suc n) src dst i k =
      ap₂ ◌∷◌
        (move_rest_outside n src (set dst k (src i)) (suc i) (suc k) k (inl (omega arith))
          ∙ set_same dst k (src i))
        (move_rest_moved n src (set dst k (src i)) (suc i) (suc k))

  -- A run that is not empty.
  pub run-cons :
      (a : ℕ → A) (i n : ℕ) → i < n → elements a i (n - i) ≡ a i ∷ elements a (i + 1) (n - (i + 1))
  run-cons a i n h =
      ap (elements a i) (let e : n - i ≡ suc (n - (i + 1)) = omega arith in e)
      ∙ ap (λ t. a i ∷ elements a t (n - (i + 1))) (let e : suc i ≡ i + 1 = omega arith in e)
