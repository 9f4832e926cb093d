-- ===== src/Sort/Tests.antt =====
-- Runs of `merge_sort` on short arrays, and its theorem at one of them.
use cxb.Prelude.{ℕ, zero, suc, ◌/◌, ◌≤◌, ◌≡◌, refl, Bool, List, [], ◌∷◌, arith, ltb}
use cxb.Sort.{merge_sort, less_than}
use cxb.Sort.Merge.{IsStableSort}
use cxb.Sort.Moves.{elements}
use cxb.Sort.Correct.{less_than-IsWeakOrder, merge_sort_correct}

abbrev item_at : List ℕ → ℕ → ℕ
item_at [] i = 0
item_at (x ∷ xs) zero = x
item_at (x ∷ xs) (suc i) = item_at xs i

abbrev numbers : ℕ → ℕ
numbers = item_at (5 ∷ 2 ∷ 9 ∷ 2 ∷ 7 ∷ 1 ∷ [])

abbrev zeros : ℕ → ℕ
zeros i = 0

-- Tens are compared, units show the order of tied elements.
abbrev by_tens : ℕ → ℕ → Bool
by_tens a b = ltb (a / 10) (b / 10)

all_sorted : elements (merge_sort less_than zeros numbers 6) 0 6 ≡ 1 ∷ 2 ∷ 2 ∷ 5 ∷ 7 ∷ 9 ∷ []
unfolding merge_sort cxb.Sort.move_smaller less_than
all_sorted = refl

two_sorted : elements (merge_sort less_than zeros numbers 2) 0 6 ≡ 2 ∷ 5 ∷ 9 ∷ 2 ∷ 7 ∷ 1 ∷ []
unfolding merge_sort cxb.Sort.move_smaller less_than
two_sorted = refl

ties_kept :
    elements (merge_sort by_tens zeros (item_at (21 ∷ 13 ∷ 22 ∷ 11 ∷ 23 ∷ [])) 5) 0 5
    ≡ 13 ∷ 11 ∷ 21 ∷ 22 ∷ 23 ∷ []
unfolding merge_sort cxb.Sort.move_smaller
ties_kept = refl

merge_sort_correct_example :
    IsStableSort less_than
      (elements numbers 0 6)
      (elements (merge_sort less_than zeros numbers 6) 0 6)
    × ((x : ℕ) → 6 ≤ x → merge_sort less_than zeros numbers 6 x ≡ numbers x)
merge_sort_correct_example =
    merge_sort_correct less_than less_than-IsWeakOrder zeros numbers 6 (omega arith)
