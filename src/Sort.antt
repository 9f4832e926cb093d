-- ===== src/Sort.antt =====
-- The sorting functions of cxb/cxb.h. An array is a function from indices to elements, and an
-- element that has been moved from keeps its value: the code writes it before it reads it again.
pub mod Merge
pub mod Moves
pub mod Loops
pub mod Correct
mod Tests
use cxb.Prelude.{
  ℕ, zero, suc, ◌+◌, ◌-◌, ◌/◌, ◌%◌, ◌^◌, Bool, true, false, ◌&&◌, ◌==◌, ltb, leb, if◌then◌else◌,
  add64, sub64,
}

-- `LessThan` at the machine's unsigned integers.
unfoldable pub less_than : ℕ → ℕ → Bool
less_than a b = ltb a b

module _ {ℓ} {A : Type ℓ} where
  -- `data[i] = x`
  unfoldable pub set : (ℕ → A) → ℕ → A → ℕ → A
  set items i x j = if j == i then x else items j

  -- `while(i < i + n) dst[k++] = ::move(src[i++])`: the two loops that copy what is left of a run,
  -- and the loop that copies `tmp` back.
  unfoldable pub move_rest : ℕ → (ℕ → A) → (ℕ → A) → ℕ → ℕ → ℕ → A
  move_rest zero src dst i k = dst
  move_rest (suc n) src dst i k = move_rest n src (set dst k (src i)) (suc i) (suc k)

-- The variables of `merge_sort_impl` that its loops change.
pub record Cursor {ℓ} (A : Type ℓ) : Type ℓ where
  pub tmp : ℕ → A
  pub i : ℕ
  pub j : ℕ
  pub k : ℕ

-- The two arrays that a call changes.
pub record Arrays {ℓ} (A : Type ℓ) : Type ℓ where
  pub items : ℕ → A
  pub tmp : ℕ → A

module _ {ℓ} {A : Type ℓ} where
  -- The second and the third `while`.
  unfoldable pub move_runs : (ℕ → A) → ℕ → ℕ → Cursor A → Cursor A
  unfolding move_rest
  move_runs items mid right s =
      let tmp' = move_rest (mid - s.i) items s.tmp s.i s.k in
      let k' = s.k + (mid - s.i) in
      record {
        tmp = move_rest (right - s.j) items tmp' s.j k';
        i = s.i + (mid - s.i);
        j = s.j + (right - s.j);
        k = k' + (right - s.j);
      }

module _ {ℓ} {A : Type ℓ} (cmp : A → A → Bool) where
  -- The body of the first `while`.
  unfoldable pub move_smaller : (ℕ → A) → Cursor A → Cursor A
  unfolding set
  move_smaller items s =
      if cmp (items s.j) (items s.i)
      then record s { tmp = set s.tmp s.k (items s.j); j = s.j + 1; k = s.k + 1 }
      else record s { tmp = set s.tmp s.k (items s.i); i = s.i + 1; k = s.k + 1 }

  -- The first `while`, for at most `n` rounds.
  unfoldable pub merge_while : ℕ → (ℕ → A) → ℕ → ℕ → Cursor A → Cursor A
  merge_while zero items mid right s = s
  merge_while (suc n) items mid right s = elim (ltb s.i mid && ltb s.j right) [
    | true ↦ merge_while n items mid right (move_smaller items s)
    | false ↦ s
  ]

  -- What `merge_sort_impl` does behind its calls of itself.
  unfoldable pub merge_runs : ℕ → ℕ → ℕ → Arrays A → Arrays A
  unfolding merge_while move_runs move_rest
  merge_runs left mid right a =
      let start : Cursor A = record { tmp = a.tmp; i = left; j = mid; k = 0 } in
      let s = move_runs a.items mid right (merge_while (right - left) a.items mid right start) in
      record { items = move_rest s.k s.tmp a.items 0 left; tmp = s.tmp }

  -- On fuel; `right - left` is enough.
  unfoldable pub merge_sort_impl : ℕ → ℕ → ℕ → Arrays A → Arrays A
  unfolding merge_runs
  merge_sort_impl zero left right a = a
  merge_sort_impl (suc fuel) left right a =
      let mid = add64 left (sub64 right left / 2) in
      elim (leb (sub64 right left) 1) [
        | true ↦ a
        | false ↦
            merge_runs left mid right
              (merge_sort_impl fuel mid right (merge_sort_impl fuel left mid a))
      ]

  -- `merge_sort`; the scratch array that it pushes holds anything.
  unfoldable pub merge_sort : (scratch : ℕ → A) (items : ℕ → A) (len : ℕ) → ℕ → A
  unfolding merge_sort_impl
  merge_sort scratch items len = elim (leb len 1) [
    | true ↦ items
    | false ↦ (merge_sort_impl len 0 len (record { items = items; tmp = scratch })).items
  ]
