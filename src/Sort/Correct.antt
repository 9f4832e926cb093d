-- ===== src/Sort/Correct.antt =====
-- `merge_sort` as a whole.
use cxb.Prelude.{
  ℕ, zero, suc, ◌+◌, ◌-◌, ◌/◌, ◌^◌, ◌<◌, ◌≤◌, ◌≡◌, ◌⊎◌, inl, inr, refl, sym, ap, ◌∙◌, Bool, false,
  ◌++◌, leb, arith, add64, sub64, dec_le, le→leb, lt→leb_false,
}
use cxb.Sort.{Arrays, merge_runs, merge_sort_impl, merge_sort, less_than}
use cxb.Sort.Merge.{
  IsWeakOrder, IsStableSort, interleave-IsStableSort, short-IsStableSort, nil-IsStableSort,
}
use cxb.Sort.Moves.{elements, elements_agree, elements-append}
use cxb.Sort.Loops.{merge_runs-elements, merge_runs_outside}

-- `<` on numbers is a strict weak order.
pub less_than-IsWeakOrder : IsWeakOrder less_than
unfolding less_than
less_than-IsWeakOrder = record {
  asymmetric = λ x y e. ground arith;
  transitive = λ x y z e f. ground arith;
}

module _ {ℓ} {A : Type ℓ} (cmp : A → A → Bool) (order : IsWeakOrder cmp) where
  -- A part of an array sorted, and the rest as it was.
  record Sorts (left right : ℕ) (a b : ℕ → A) : Type ℓ where
    sorts : IsStableSort cmp (elements a left (right - left)) (elements b left (right - left))
    outside : (x : ℕ) → (x < left) ⊎ (right ≤ x) → b x ≡ a x

  Sorts-short : (left right : ℕ) (a : ℕ → A) → right - left ≤ 1 → Sorts left right a a
  Sorts-short left right a h = record { sorts = go (right - left) h; outside = λ x o. refl }
    where
      go : (n : ℕ) → n ≤ 1 → IsStableSort cmp (elements a left n) (elements a left n)
      go zero l = nil-IsStableSort cmp order
      go (suc zero) l = short-IsStableSort cmp order (a left)
      go (suc (suc n)) l = absurd (omega arith)

  -- Sorting two neighbouring parts, one behind the other.
  Sorts-parts :
      (left mid right : ℕ) (a b : ℕ → A) (c : Arrays A)
      → left ≤ mid
      → mid ≤ right
      → Sorts left mid a b
      → Sorts mid right b c.items
      → Sorts left right a (merge_runs cmp left mid right c).items
  Sorts-parts left mid right a b c l l' u v = record {
    sorts =
        rw (merge_runs-elements cmp left mid right c l l', whole)
          (interleave-IsStableSort cmp order (elements a left (mid - left))
            (elements a mid (right - mid)) (elements c.items left (mid - left))
            (elements c.items mid (right - mid)) (rw same_left u.sorts)
            (rw (sym same_right) at v.sorts));
    outside = λ x o.
        merge_runs_outside cmp left mid right c l l' x o
        ∙ v.outside x (omega arith)
        ∙ u.outside x (omega arith);
  }
    where
      same_left : elements c.items left (mid - left) ≡ elements b left (mid - left)
      same_left =
          elements_agree c.items b left (mid - left) (λ j lo hi. v.outside j (inl (omega arith)))

      same_right : elements a mid (right - mid) ≡ elements b mid (right - mid)
      same_right =
          elements_agree a b mid (right - mid) (λ j lo hi. sym (u.outside j (inr (omega arith))))

      whole :
          elements a left (right - left)
          ≡ elements a left (mid - left) ++ elements a mid (right - mid)
      whole =
          ap (elements a left)
            (let e : right - left ≡ (mid - left) + (right - mid) = omega arith in e)
          ∙ elements-append a left (mid - left) (right - mid)
          ∙ ap (λ t. elements a left (mid - left) ++ elements a t (right - mid))
              (let e : left + (mid - left) ≡ mid = omega arith in e)

  merge_sort_impl-Sorts :
      (fuel left right : ℕ) (a : Arrays A)
      → left ≤ right
      → right < 2 ^ 64
      → right - left ≤ fuel
      → Sorts left right a.items (merge_sort_impl cmp fuel left right a).items
  unfolding merge_sort_impl
  merge_sort_impl-Sorts zero left right a l h enough = Sorts-short left right a.items (omega arith)
  merge_sort_impl-Sorts (suc fuel) left right a l h enough =
      let size : sub64 right left ≡ right - left = omega arith in
      let mid = add64 left (sub64 right left / 2) in
      let middle : mid ≡ left + (right - left) / 2 = omega (arith, size) in
      elim (dec_le (right - left) 1) [
        | yes short ↦
            rw (merge_sort_impl, size, le→leb (right - left) 1 short)
              (Sorts-short left right a.items short)
        | no long ↦
            let long_test : leb (sub64 right left) 1 ≡ false =
              lt→leb_false (sub64 right left) 1 (omega (arith, size)) in
            let b = merge_sort_impl cmp fuel left mid a in
            let first =
              merge_sort_impl-Sorts fuel left mid a (omega (arith, middle)) (omega (arith, middle))
                (omega (arith, middle)) in
            let second =
              merge_sort_impl-Sorts fuel mid right b (omega (arith, middle)) h
                (omega (arith, middle)) in
            rw (merge_sort_impl, long_test)
              (Sorts-parts left mid right a.items b.items (merge_sort_impl cmp fuel mid right b)
                (omega (arith, middle)) (omega (arith, middle)) first second)
      ]

  merge_sort_short :
      (scratch items : ℕ → A) (len : ℕ) → len ≤ 1 → merge_sort cmp scratch items len ≡ items
  unfolding merge_sort
  merge_sort_short scratch items len h = rw (merge_sort, le→leb len 1 h) refl

  merge_sort_long :
      (scratch items : ℕ → A) (len : ℕ)
      → 1 < len
      → merge_sort cmp scratch items len
        ≡ (merge_sort_impl cmp len 0 len (record { items = items; tmp = scratch })).items
  unfolding merge_sort
  merge_sort_long scratch items len h = rw (merge_sort, lt→leb_false len 1 h) refl

  -- For a strict weak order, `merge_sort` leaves the first `len` elements in ascending order, tied
  -- elements in the order in which they were, and the rest of the array as it was.
  pub merge_sort_correct :
      (scratch items : ℕ → A) (len : ℕ)
      → len < 2 ^ 64
      → IsStableSort cmp (elements items 0 len) (elements (merge_sort cmp scratch items len) 0 len)
        × ((x : ℕ) → len ≤ x → merge_sort cmp scratch items len x ≡ items x)
  merge_sort_correct scratch items len h =
      let s : Sorts 0 len items (merge_sort cmp scratch items len) = elim (dec_le len 1) [
        | yes short ↦
            rw (merge_sort_short scratch items len short) (Sorts-short 0 len items (omega arith))
        | no long ↦ rw (merge_sort_long scratch items len (omega arith)) (
            merge_sort_impl-Sorts len 0 len (record { items = items; tmp = scratch }) (omega arith)
              h (omega arith))
      ] in
      let n : len - 0 ≡ len = omega arith in (rw n at s.sorts, λ x l. s.outside x (inr l))
