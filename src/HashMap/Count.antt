-- ===== src/HashMap/Count.antt =====
-- Counting the entries of a hash table: the occupied ones, and those that are not empty.
use cxb.Prelude.{ℕ, zero, suc, ◌+◌, ◌<◌, ◌≤◌, ◌≡◌, ◌≢◌, refl, sym, ap, ◌∙◌, arith, ℕ_discrete}
use cxb.HashMap.{Entry, empty, occupied, tombstone, update, fresh_slots}
use cxb.HashMap.Valid.{update_self, update_ne}
use cxb.HashMap.Insert.{IsFull}

abbrev pub filled_entry : {K V : Type 0} → Entry K V → ℕ
filled_entry empty = 0
filled_entry (occupied k v) = 1
filled_entry tombstone = 1

abbrev pub occupied_entry : {K V : Type 0} → Entry K V → ℕ
occupied_entry empty = 0
occupied_entry (occupied k v) = 1
occupied_entry tombstone = 0

-- The entries below `n` that are not empty.
pub filled : {K V : Type 0} → ℕ → (ℕ → Entry K V) → ℕ
filled zero slots = 0
filled (suc n) slots = filled n slots + filled_entry (slots n)

-- The occupied entries below `n`.
unfoldable pub occupied_count : {K V : Type 0} → ℕ → (ℕ → Entry K V) → ℕ
occupied_count zero slots = 0
occupied_count (suc n) slots = occupied_count n slots + occupied_entry (slots n)

module _ {K V : Type 0} where
  filled-update_above :
      (n i : ℕ) (slots : ℕ → Entry K V) (x : Entry K V)
      → n ≤ i
      → filled n (update slots i x) ≡ filled n slots
  unfolding filled
  filled-update_above zero i slots x h = refl
  filled-update_above (suc n) i slots x h =
      rw (filled-update_above n i slots x (omega arith), update_ne slots i n x (omega arith))

  pub filled-update :
      (n i : ℕ) (slots : ℕ → Entry K V) (k : K) (v : V)
      → i < n
      → slots i ≡ empty
      → filled n (update slots i (occupied k v)) ≡ suc (filled n slots)
  unfolding filled
  filled-update zero i slots k v h q = absurd (omega arith)
  filled-update (suc n) i slots k v h q = elim (ℕ_discrete i n) [
    | yes e ↦
        let a = filled-update_above n i slots (occupied k v) (omega arith) in
        let b =
          ap filled_entry
            (sym (ap (update slots i (occupied k v)) e) ∙ update_self slots i (occupied k v)) in
        let c = ap filled_entry (sym (ap slots e) ∙ q) in omega (arith, a, b, c)
    | no ne ↦
        let a = filled-update n i slots k v (omega arith) q in
        let b = ap filled_entry (update_ne slots i n (occupied k v) ne) in omega (arith, a, b)
  ]

  filled_entry_one : (x : Entry K V) → x ≢ empty → filled_entry x ≡ 1
  filled_entry_one empty h = absurd (h refl)
  filled_entry_one (occupied k v) h = refl
  filled_entry_one tombstone h = refl

  pub filled-full : (n : ℕ) (slots : ℕ → Entry K V) → IsFull n slots → filled n slots ≡ n
  unfolding filled
  filled-full zero slots full = refl
  filled-full (suc n) slots full = omega (
    arith,
    filled-full n slots (λ i h. full i (omega arith)),
    filled_entry_one (slots n) (full n (omega arith)),
  )

pub filled-fresh : (K V : Type 0) (n : ℕ) → filled n (fresh_slots {K = K} {V = V}) ≡ 0
unfolding filled fresh_slots
filled-fresh K V zero = refl
filled-fresh K V (suc n) = omega (arith, filled-fresh K V n)
