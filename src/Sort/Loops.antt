-- ===== src/Sort/Loops.antt =====
-- The loops of `merge_sort_impl` against the lists of the elements that they read and write.
use mathlib.Core.Path.{ap₂}
use mathlib.Core.List.{append-nil, append_assoc}
use cxb.Prelude.{
  ℕ, zero, suc, ◌+◌, ◌-◌, ◌<◌, ◌≤◌, ◌≡◌, ◌⊎◌, inl, inr, refl, sym, ap, ◌∙◌, Bool, true, false,
  Bool-cases, List, [], ◌∷◌, ◌++◌, ltb, arith, lt→ltb, le→ltb_false, dec_lt,
}
use cxb.Sort.{Cursor, Arrays, set, move_rest, move_smaller, merge_while, move_runs, merge_runs}
use cxb.Sort.Merge.{
  interleave, interleave-nil, interleave_nil_left, interleave_left, interleave_right,
}
use cxb.Sort.Moves.{
  elements, elements-set, move_rest_outside, elements-move_rest, move_rest_moved, run-cons,
}

module _ {ℓ} {A : Type ℓ} (cmp : A → A → Bool) (items : ℕ → A) (mid right : ℕ) where
  -- The elements that the loops have written and those that they have to write.
  abbrev pub pending : Cursor A → List A
  pending s =
      elements s.tmp 0 s.k
      ++ interleave cmp (elements items s.i (mid - s.i)) (elements items s.j (right - s.j))

  abbrev left_run : ℕ → List A
  left_run i = elements items i (mid - i)

  abbrev right_run : ℕ → List A
  right_run j = elements items j (right - j)

  written :
      (a : ℕ → A) (k : ℕ) (x : A) (l : List A)
      → elements (set a k x) 0 (k + 1) ++ l ≡ elements a 0 k ++ x ∷ l
  written a k x l = ap (λ t. t ++ l) (elements-set a k x) ∙ append_assoc (elements a 0 k) (x ∷ []) l

  takes_right :
      (i j : ℕ)
      → i < mid
      → j < right
      → cmp (items j) (items i) ≡ true
      → items j ∷ interleave cmp (left_run i) (right_run (j + 1))
        ≡ interleave cmp (left_run i) (right_run j)
  takes_right i j li lj e =
      ap (λ l. items j ∷ interleave cmp l (right_run (j + 1))) (run-cons items i mid li)
      ∙ sym (interleave_right cmp (items i) (items j) (left_run (i + 1)) (right_run (j + 1)) e)
      ∙ sym (ap₂ (interleave cmp) (run-cons items i mid li) (run-cons items j right lj))

  takes_left :
      (i j : ℕ)
      → i < mid
      → j < right
      → cmp (items j) (items i) ≡ false
      → items i ∷ interleave cmp (left_run (i + 1)) (right_run j)
        ≡ interleave cmp (left_run i) (right_run j)
  takes_left i j li lj e =
      ap (λ l. items i ∷ interleave cmp (left_run (i + 1)) l) (run-cons items j right lj)
      ∙ sym (interleave_left cmp (items i) (items j) (left_run (i + 1)) (right_run (j + 1)) e)
      ∙ sym (ap₂ (interleave cmp) (run-cons items i mid li) (run-cons items j right lj))

  move_smaller-pending :
      (s : Cursor A) → s.i < mid → s.j < right → pending (move_smaller cmp items s) ≡ pending s
  unfolding move_smaller
  move_smaller-pending s li lj = elim (Bool-cases (cmp (items s.j) (items s.i))) [
    | inl t ↦ rw t (
        written s.tmp s.k (items s.j) (interleave cmp (left_run s.i) (right_run (s.j + 1)))
        ∙ ap (λ l. elements s.tmp 0 s.k ++ l) (takes_right s.i s.j li lj t))
    | inr t ↦ rw t (
        written s.tmp s.k (items s.i) (interleave cmp (left_run (s.i + 1)) (right_run s.j))
        ∙ ap (λ l. elements s.tmp 0 s.k ++ l) (takes_left s.i s.j li lj t))
  ]

  -- Where the loops stand: no further than the ends of the runs, and `k` counts what is written.
  pub record IsPlaced (left : ℕ) (s : Cursor A) : Type 0 where
    pub left_le : s.i ≤ mid
    pub right_le : s.j ≤ right
    pub count : s.k + left + mid ≡ s.i + s.j

  move_smaller-IsPlaced :
      (left : ℕ) (s : Cursor A)
      → s.i < mid
      → s.j < right
      → IsPlaced left s
      → IsPlaced left (move_smaller cmp items s)
  unfolding move_smaller
  move_smaller-IsPlaced left s li lj v = elim (Bool-cases (cmp (items s.j) (items s.i))) [
    | inl t ↦
        rw t
          (record { left_le = v.left_le; right_le = omega arith; count = omega (arith, v.count) })
    | inr t ↦
        rw t
          (record { left_le = omega arith; right_le = v.right_le; count = omega (arith, v.count) })
  ]

  merge_while_end :
      (n : ℕ) (s : Cursor A) → (mid ≤ s.i) ⊎ (right ≤ s.j) → merge_while cmp n items mid right s ≡ s
  unfolding merge_while
  merge_while_end zero s h = refl
  merge_while_end (suc n) s (inl h) = rw (merge_while, le→ltb_false s.i mid h) refl
  merge_while_end (suc n) s (inr h) = elim (Bool-cases (ltb s.i mid)) [
    | inl t ↦ rw (merge_while, t, le→ltb_false s.j right h) refl
    | inr t ↦ rw (merge_while, t) refl
  ]

  merge_while_round :
      (n : ℕ) (s : Cursor A)
      → s.i < mid
      → s.j < right
      → merge_while cmp (suc n) items mid right s
        ≡ merge_while cmp n items mid right (move_smaller cmp items s)
  unfolding merge_while
  merge_while_round n s li lj = rw (merge_while, lt→ltb s.i mid li, lt→ltb s.j right lj) refl

  -- The state in which the first loop ends: one of the runs is used up.
  record Ended (left : ℕ) (s s' : Cursor A) : Type ℓ where
    placed : IsPlaced left s'
    used_up : (mid ≤ s'.i) ⊎ (right ≤ s'.j)
    same : pending s' ≡ pending s

  loop_done :
      (left n : ℕ) (s : Cursor A)
      → IsPlaced left s
      → (mid ≤ s.i) ⊎ (right ≤ s.j)
      → Ended left s (merge_while cmp n items mid right s)
  loop_done left n s v u =
      rw (merge_while_end n s u) (record { placed = v; used_up = u; same = refl })

  move_smaller_less :
      (n : ℕ) (s : Cursor A)
      → s.i < mid
      → s.j < right
      → mid - s.i + (right - s.j) ≤ suc n
      → let s' = move_smaller cmp items s in mid - s'.i + (right - s'.j) ≤ n
  unfolding move_smaller
  move_smaller_less n s li lj h = elim (Bool-cases (cmp (items s.j) (items s.i))) [
    | inl t ↦ rw t (omega arith)
    | inr t ↦ rw t (omega arith)
  ]

  merge_while_lem :
      (left n : ℕ) (s : Cursor A)
      → IsPlaced left s
      → mid - s.i + (right - s.j) ≤ n
      → Ended left s (merge_while cmp n items mid right s)
  merge_while_lem left zero s v h = loop_done left 0 s v (omega arith)
  merge_while_lem left (suc n) s v h = elim (dec_lt s.i mid) [
    | no ge ↦ loop_done left (suc n) s v (inl (omega arith))
    | yes li ↦ elim (dec_lt s.j right) [
      | no ge ↦ loop_done left (suc n) s v (inr (omega arith))
      | yes lj ↦
          let rest =
            merge_while_lem left n (move_smaller cmp items s) (move_smaller-IsPlaced left s li lj v)
              (move_smaller_less n s li lj h) in
          rw (merge_while_round n s li lj) (record {
            placed = rest.placed;
            used_up = rest.used_up;
            same = rest.same ∙ move_smaller-pending s li lj;
          })
    ]
  ]

  -- With one of the runs used up, the other two loops write what is left.
  move_runs-pending :
      (s : Cursor A)
      → (mid ≤ s.i) ⊎ (right ≤ s.j)
      → let s' = move_runs items mid right s in elements s'.tmp 0 s'.k ≡ pending s
  unfolding move_runs
  move_runs-pending s u =
      elements-move_rest (right - s.j) items (move_rest (mid - s.i) items s.tmp s.i s.k) s.j
        (s.k + (mid - s.i))
      ∙ ap (λ l. l ++ right_run s.j) (elements-move_rest (mid - s.i) items s.tmp s.i s.k)
      ∙ append_assoc (elements s.tmp 0 s.k) (left_run s.i) (right_run s.j)
      ∙ ap (λ l. elements s.tmp 0 s.k ++ l) (used_up u)
    where
      used_up :
          (mid ≤ s.i) ⊎ (right ≤ s.j)
          → left_run s.i ++ right_run s.j ≡ interleave cmp (left_run s.i) (right_run s.j)
      used_up (inl h) =
          let e : mid - s.i ≡ 0 = omega arith in
          ap (λ n. elements items s.i n ++ right_run s.j) e
          ∙ sym (
              ap (λ n. interleave cmp (elements items s.i n) (right_run s.j)) e
              ∙ interleave_nil_left cmp (right_run s.j))
      used_up (inr h) =
          let e : right - s.j ≡ 0 = omega arith in
          ap (λ n. left_run s.i ++ elements items s.j n) e
          ∙ append-nil (left_run s.i)
          ∙ sym (
              ap (λ n. interleave cmp (left_run s.i) (elements items s.j n)) e
              ∙ interleave-nil cmp (left_run s.i))

  move_runs_count :
      (left : ℕ) (s : Cursor A)
      → left ≤ mid
      → mid ≤ right
      → IsPlaced left s
      → (move_runs items mid right s).k ≡ right - left
  unfolding move_runs
  move_runs_count left s l l' v = omega (arith, v.left_le, v.right_le, v.count)

module _ {ℓ} {A : Type ℓ} (cmp : A → A → Bool) (left mid right : ℕ) (a : Arrays A) (l : left ≤ mid)
    (l' : mid ≤ right) where
  start : Cursor A
  start = record { tmp = a.tmp; i = left; j = mid; k = 0 }

  -- The merge of two runs that stand one behind the other takes their place.
  pub merge_runs-elements :
      elements (merge_runs cmp left mid right a).items left (right - left)
      ≡ interleave cmp (elements a.items left (mid - left)) (elements a.items mid (right - mid))
  unfolding merge_runs start
  merge_runs-elements =
      let ended =
        merge_while_lem cmp a.items mid right left (right - left) start
          (record { left_le = l; right_le = l'; count = omega arith }) (omega arith) in
      let s = merge_while cmp (right - left) a.items mid right start in
      let s' = move_runs a.items mid right s in
      let n = move_runs_count cmp a.items mid right left s l l' ended.placed in
      ap (elements (move_rest s'.k s'.tmp a.items 0 left) left) (sym n)
      ∙ move_rest_moved s'.k s'.tmp a.items 0 left
      ∙ move_runs-pending cmp a.items mid right s ended.used_up
      ∙ ended.same

  pub merge_runs_outside :
      (x : ℕ) → (x < left) ⊎ (right ≤ x) → (merge_runs cmp left mid right a).items x ≡ a.items x
  unfolding merge_runs start
  merge_runs_outside x h =
      let ended =
        merge_while_lem cmp a.items mid right left (right - left) start
          (record { left_le = l; right_le = l'; count = omega arith }) (omega arith) in
      let s = merge_while cmp (right - left) a.items mid right start in
      let s' = move_runs a.items mid right s in
      let n = move_runs_count cmp a.items mid right left s l l' ended.placed in
      move_rest_outside s'.k s'.tmp a.items 0 left x (omega (arith, n))
