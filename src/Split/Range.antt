-- ===== src/Split/Range.antt =====
-- A range loop over a split: `begin`, `end`, `operator!=` and `operator++`.
use cxb.Prelude.{
  ◌>>=◌, ℕ, zero, suc, ◌+◌, ◌-◌, ◌≡◌, ◌≢◌, refl, sym, ap, ◌∙◌, true, none, some, ◌⊎◌, inl, inr, [],
  ◌∷◌, arith, ◌==◌, ==_ne, if◌then◌else◌, ltb, dec_lt, lt→ltb, le→ltb_false,
}
use cxb.Text.{Memory, String8}
use cxb.Split.{
  SplitIterator, seek_end, string8_split_next, collect, begin, end, differs, increment, visit,
}

module _ (m : Memory) where
  -- What one call does: it is at the end, or it gives a part inside the string.
  record Step (iter : SplitIterator) : Type 0 where
    after : ℕ
    part : String8
    next :
        (curr : String8)
        → string8_split_next m (record iter { curr = curr })
          ≡ some (record iter { pos = after; curr = curr }, part)
    inside : part.address ≡ iter.s.address + iter.pos

  step_lem :
      (iter : SplitIterator)
      → ((curr : String8) → string8_split_next m (record iter { curr = curr }) ≡ none) ⊎ Step iter
  unfolding string8_split_next seek_end
  step_lem iter = elim (dec_lt iter.s.len iter.pos) [
    | yes l ↦ inl (λ curr. rw (lt→ltb _ _ l) refl)
    | no ge ↦ inr (record {
      after =
          if ltb (seek_end m iter) iter.s.len
          then seek_end m iter + (if iter.any then 1 else iter.delim.len)
          else iter.s.len + 1;
      part = record {
        address = iter.s.address + iter.pos;
        len = seek_end m iter - iter.pos;
        not_null_term = if seek_end m iter == iter.s.len then iter.s.not_null_term else true;
      };
      next = λ curr. rw (le→ltb_false iter.s.len iter.pos (omega arith)) refl;
      inside = refl;
    })
  ]

  -- The collecting loop does not read the part that the iterator holds.
  collect_curr :
      (n : ℕ) (iter : SplitIterator) (curr : String8)
      → collect n m (record iter { curr = curr }) ≡ collect n m iter
  unfolding collect
  collect_curr zero iter curr = refl
  collect_curr (suc n) iter curr = elim (step_lem iter) [
    | inl e ↦ rw (collect, e curr, e iter.curr) refl
    | inr r ↦
        rw (collect, r.next curr, r.next iter.curr)
          (ap (λ o. o >>= (λ rest. some (r.part ∷ rest)))
            (collect_curr n (record iter { pos = r.after }) curr))
  ]

  module _ (last : SplitIterator) (null : last.curr.address ≡ 0) where
    visit_done :
        (n : ℕ) (iter : SplitIterator) → iter.curr.address ≡ 0 → visit (suc n) m last iter ≡ some []
    unfolding visit differs
    visit_done n iter e = rw (e, null) refl

    visit_next :
        (n : ℕ) (iter : SplitIterator)
        → iter.curr.address ≢ 0
        → visit (suc n) m last iter
          ≡ (visit n m last (increment m iter) >>= (λ rest. some (iter.curr ∷ rest)))
    unfolding visit differs
    visit_next n iter ne = rw (null, ==_ne iter.curr.address 0 ne) refl

    collect_next :
        (n : ℕ) (iter iter' : SplitIterator) (p : String8)
        → string8_split_next m iter ≡ some (iter', p)
        → collect (suc n) m iter ≡ (collect n m iter' >>= (λ rest. some (p ∷ rest)))
    unfolding collect
    collect_next n iter iter' p e = rw (collect, e) refl

    collect_end :
        (n : ℕ) (iter : SplitIterator)
        → string8_split_next m iter ≡ none
        → collect (suc n) m iter ≡ some []
    unfolding collect
    collect_end n iter e = rw (collect, e) refl

    -- The iterator that holds the part, and the rounds from it on.
    abbrev at_part : (iter : SplitIterator) → Step iter → SplitIterator
    at_part iter r = record iter { pos = r.after; curr = r.part }

    visit_more :
        (n : ℕ) (iter : SplitIterator) (r : Step iter)
        → iter.s.address ≢ 0
        → visit n m last (increment m (at_part iter r)) ≡ collect n m (at_part iter r)
        → visit (suc n) m last (at_part iter r) ≡ collect (suc n) m iter
    visit_more n iter r ne same =
        visit_next n (at_part iter r) (omega (arith, r.inside))
        ∙ ap (λ o. o >>= (λ rest. some (r.part ∷ rest)))
            (same ∙ collect_curr n (record iter { pos = r.after }) r.part)
        ∙ sym (collect_next n iter (record iter { pos = r.after }) r.part (r.next iter.curr))

    increment_next : (iter : SplitIterator) (r : Step iter) → increment m iter ≡ at_part iter r
    unfolding increment
    increment_next iter r = rw (increment, r.next iter.curr) refl

    increment_end :
        (iter : SplitIterator)
        → string8_split_next m iter ≡ none
        → (increment m iter).curr.address ≡ 0
    unfolding increment
    increment_end iter e = rw (increment, e) refl

    visit-increment :
        (n : ℕ) (iter : SplitIterator)
        → iter.s.address ≢ 0
        → visit n m last (increment m iter) ≡ collect n m iter
    visit-increment zero iter ne = unfold visit in unfold collect in refl
    visit-increment (suc n) iter ne = elim (step_lem iter) [
      | inl e ↦
          visit_done n (increment m iter) (increment_end iter (e iter.curr))
          ∙ sym (collect_end n iter (e iter.curr))
      | inr r ↦
          ap (visit (suc n) m last) (increment_next iter r)
          ∙ visit_more n iter r ne (visit-increment n (at_part iter r) ne)
    ]

    begin_next : (iter : SplitIterator) (r : Step iter) → begin m iter ≡ at_part iter r
    unfolding begin
    begin_next iter r = rw (begin, r.next iter.curr) refl

    begin_end : (iter : SplitIterator) → string8_split_next m iter ≡ none → begin m iter ≡ iter
    unfolding begin
    begin_end iter e = rw (begin, e) refl

  -- Over a string that is not null, a range loop over a new iterator visits the parts that
  -- `string8_split_collect` collects, in the same order, and ends in the same number of rounds.
  pub visit-begin :
      (n : ℕ) (iter : SplitIterator)
      → iter.s.address ≢ 0
      → iter.curr.address ≡ 0
      → visit n m (end iter) (begin m iter) ≡ collect n m iter
  unfolding end
  visit-begin zero iter ne fresh = unfold visit in unfold collect in refl
  visit-begin (suc n) iter ne fresh = elim (step_lem iter) [
    | inl e ↦
        ap (visit (suc n) m (end iter)) (begin_end (end iter) refl iter (e iter.curr))
        ∙ visit_done (end iter) refl n iter fresh
        ∙ sym (collect_end (end iter) refl n iter (e iter.curr))
    | inr r ↦
        ap (visit (suc n) m (end iter)) (begin_next (end iter) refl iter r)
        ∙ visit_more (end iter) refl n iter r ne
            (visit-increment (end iter) refl n (at_part (end iter) refl iter r) ne)
  ]
