-- ===== src/Text/Find.antt =====
-- `string8_find`, `string8_contains`, `string8_starts_with` and `string8_ends_with`.
use cxb.Prelude.{
  ℕ, zero, suc, ◌+◌, ◌-◌, ◌<◌, ◌≤◌, ◌≡◌, ◌≢◌, ◌↔◌, ◌⊎◌, inl, inr, refl, sym, ap, ◌∙◌, true, false,
  List, [], ◌∷◌, ◌++◌, arith, ◌==◌, Bool-cases, size_max, ==_ne, lt→ltb, le→ltb_false, dec_lt,
  ℕ_discrete, length, length-append,
}
use cxb.Text.{
  Memory, String8, bytes, view, memcmp, is_eq, find_from, string8_find, string8_contains,
  string8_starts_with, string8_ends_with,
}
use cxb.Text.Bytes.{memcmp_iff, memcmp-false, bytes_split, length-bytes}

module _ (m : Memory) (s needle : String8) where
  -- The needle stands at an index of the string.
  abbrev pub Occurs : ℕ → Type 0
  Occurs i = (i + needle.len ≤ s.len) × (bytes m (s.address + i) needle.len ≡ view m needle)

  -- What `string8_find` answers: the first index where the needle stands, or `SIZE_MAX` if it stands
  -- nowhere.
  abbrev pub Found : ℕ → Type 0
  Found r = (Occurs r × ((j : ℕ) → j < r → ¬ Occurs j)) ⊎ ((r ≡ size_max) × ((j : ℕ) → ¬ Occurs j))

  find_from_lem :
      (n i : ℕ)
      → n + i + needle.len ≡ suc s.len
      → ((j : ℕ) → j < i → ¬ Occurs j)
      → Found (find_from m s needle n i)
  unfolding find_from
  find_from_lem zero i e before = inr (refl, λ j o. before j (omega (arith, o.0)) o)
  find_from_lem (suc n) i e before =
      elim (Bool-cases (is_eq (memcmp m (s.address + i) needle.address needle.len))) [
        | inl t ↦ rw t (inl (((omega arith), (memcmp_iff m needle.len _ _).0 t), before))
        | inr t ↦ rw t (
            find_from_lem n (suc i) (omega arith) (λ j h. elim (ℕ_discrete j i) [
              | yes q ↦ rw q (λ o. memcmp-false m needle.len _ _ t o.1)
              | no ne ↦ before j (omega arith)
            ]))
      ]

  -- For a needle that is not empty, `string8_find` answers the first index at which the needle stands
  -- in the string, or `SIZE_MAX` if it stands nowhere in it.
  pub string8_find_first : needle.len ≢ 0 → Found (string8_find m s needle)
  unfolding string8_find
  string8_find_first ne = elim (dec_lt s.len needle.len) [
    | yes l ↦ rw (==_ne _ 0 ne, lt→ltb _ _ l) (inr (refl, λ j o. omega (arith, o.0)))
    | no ge ↦
        rw (==_ne _ 0 ne, le→ltb_false s.len needle.len (omega arith))
          (find_from_lem (suc (s.len - needle.len)) 0 (omega arith) (λ j h. absurd (omega arith)))
  ]

  -- For a string shorter than `SIZE_MAX` and a needle that is not empty, `string8_contains` holds
  -- exactly if the needle stands at some index of the string.
  pub string8_contains_iff :
      needle.len ≢ 0
      → s.len < size_max
      → (string8_contains m s needle ≡ true) ↔ ((i : ℕ) × Occurs i)
  unfolding string8_contains
  string8_contains_iff ne fits = go (string8_find_first ne)
    where
      go :
          Found (string8_find m s needle)
          → (string8_contains m s needle ≡ true) ↔ ((i : ℕ) × Occurs i)
      go (inl (o, first)) = (
        (λ h. (string8_find m s needle, o)),
        (λ h. rw (==_ne (string8_find m s needle) size_max (omega (arith, o.0))) refl),
      )
      go (inr (e, nowhere)) = (
        (λ h. absurd (
            let q : (string8_find m s needle == size_max) ≡ true = rw e refl in
            ground (arith, q, h))),
        (λ (i, o). absurd (nowhere i o)),
      )

append_cancel :
    (xs xs' ys ys' : List ℕ)
    → length xs ≡ length xs'
    → xs ++ ys ≡ xs' ++ ys'
    → (xs ≡ xs') × (ys ≡ ys')
append_cancel [] [] ys ys' l e = (refl, e)
append_cancel [] (x ∷ xs') ys ys' l e = absurd (omega arith)
append_cancel (x ∷ xs) [] ys ys' l e = absurd (omega arith)
append_cancel (x ∷ xs) (x' ∷ xs') ys ys' l e = ground (arith, append_cancel xs xs' ys ys')

module _ (m : Memory) (s t : String8) where
  -- A string that is long enough is its first bytes and its last.
  cut_at :
      (k : ℕ) → k ≤ s.len → view m s ≡ bytes m s.address k ++ bytes m (s.address + k) (s.len - k)
  cut_at k h =
      ap (bytes m s.address) (let e : s.len ≡ k + (s.len - k) = omega arith in e)
      ∙ bytes_split m s.address k (s.len - k)

  starts_with-memcmp :
      t.len ≤ s.len → string8_starts_with m s t ≡ is_eq (memcmp m s.address t.address t.len)
  unfolding string8_starts_with memcmp
  starts_with-memcmp h = elim (ℕ_discrete t.len 0) [
    | yes e ↦ rw (le→ltb_false s.len t.len h, e) refl
    | no ne ↦ rw (le→ltb_false s.len t.len h, ==_ne t.len 0 ne) refl
  ]

  ends_with-memcmp :
      t.len ≤ s.len
      → string8_ends_with m s t ≡ is_eq (memcmp m (s.address + (s.len - t.len)) t.address t.len)
  unfolding string8_ends_with memcmp
  ends_with-memcmp h = elim (ℕ_discrete t.len 0) [
    | yes e ↦ rw (le→ltb_false s.len t.len h, e) refl
    | no ne ↦ rw (le→ltb_false s.len t.len h, ==_ne t.len 0 ne) refl
  ]

  -- `string8_starts_with` holds exactly if the string is the prefix followed by some bytes.
  pub string8_starts_with_iff :
      (string8_starts_with m s t ≡ true) ↔ ((rest : List ℕ) × (view m s ≡ view m t ++ rest))
  string8_starts_with_iff = elim (dec_lt s.len t.len) [
    | yes l ↦ (
      (λ h.
          let f : string8_starts_with m s t ≡ false =
            unfold string8_starts_with in rw (lt→ltb _ _ l) in
          cc),
      (λ (rest, e). absurd (
          omega (
            arith,
            ap length e,
            length-append (view m t) rest,
            length-bytes m s.address s.len,
            length-bytes m t.address t.len,
            l,
          ))),
    )
    | no n ↦
        let h : t.len ≤ s.len = omega arith in
        (
          (λ q.
              let same =
                (memcmp_iff m t.len s.address t.address).0 (sym (starts_with-memcmp h) ∙ q) in
              (
                bytes m (s.address + t.len) (s.len - t.len),
                cut_at t.len h ∙ ap (λ x. x ++ bytes m (s.address + t.len) (s.len - t.len)) same,
              )),
          (λ (rest, e).
              let same =
                append_cancel (bytes m s.address t.len) (view m t) _ rest
                  (length-bytes m s.address t.len ∙ sym (length-bytes m t.address t.len))
                  (sym (cut_at t.len h) ∙ e) in
              starts_with-memcmp h ∙ (memcmp_iff m t.len s.address t.address).1 same.0),
        )
  ]

  -- `string8_ends_with` holds exactly if the string is some bytes followed by the suffix.
  pub string8_ends_with_iff :
      (string8_ends_with m s t ≡ true) ↔ ((front : List ℕ) × (view m s ≡ front ++ view m t))
  string8_ends_with_iff = elim (dec_lt s.len t.len) [
    | yes l ↦ (
      (λ h.
          let f : string8_ends_with m s t ≡ false = unfold string8_ends_with in rw (lt→ltb _ _ l) in
          cc),
      (λ (front, e). absurd (
          omega (
            arith,
            ap length e,
            length-append front (view m t),
            length-bytes m s.address s.len,
            length-bytes m t.address t.len,
            l,
          ))),
    )
    | no n ↦
        let h : t.len ≤ s.len = omega arith in
        let d : ℕ = s.len - t.len in
        let back : s.len - d ≡ t.len = omega arith in
        let cut =
          cut_at d (omega arith)
          ∙ ap (λ k. bytes m s.address d ++ bytes m (s.address + d) k) back in
        (
          (λ q.
              let same =
                (memcmp_iff m t.len (s.address + d) t.address).0 (sym (ends_with-memcmp h) ∙ q) in
              (bytes m s.address d, cut ∙ ap (λ x. bytes m s.address d ++ x) same)),
          (λ (front, e).
              let sizes : length front ≡ d = omega (
                arith,
                ap length e,
                length-append front (view m t),
                length-bytes m s.address s.len,
                length-bytes m t.address t.len,
              ) in
              let same =
                append_cancel (bytes m s.address d) front _ (view m t)
                  (length-bytes m s.address d ∙ sym sizes) (sym cut ∙ e) in
              ends_with-memcmp h ∙ (memcmp_iff m t.len (s.address + d) t.address).1 same.1),
        )
  ]
