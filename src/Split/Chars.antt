-- ===== src/Split/Chars.antt =====
-- Splitting at any of some characters: the parts are the text between them.
use mathlib.Core.Path.{ap₂, transport}
use cxb.Prelude.{
  ℕ, zero, suc, ◌+◌, ◌-◌, ◌<◌, ◌≤◌, ◌≡◌, ◌≢◌, inl, inr, refl, sym, ap, ◌∙◌, true, none, some, List,
  [], ◌∷◌, ◌++◌, arith, ◌==◌, Bool-cases, ==_ne, lt→ltb, le→ltb_false, dec_lt, if◌then◌else◌,
  length,
}
use cxb.Text.{Memory, String8, bytes, view, contains_char}
use cxb.Split.{
  SplitIterator, seek_any, seek_end, string8_split_next, string8_split_any, null_string, collect,
}
use cxb.Split.Delim.{views, collect_done, collect_more}

abbrev pub concat : List (List ℕ) → List ℕ
concat [] = []
concat (xs ∷ xss) = xs ++ concat xss

-- The bytes that are no delimiter, in order.
abbrev pub kept : Memory → String8 → List ℕ → List ℕ
kept m chars [] = []
kept m chars (c ∷ cs) = if contains_char m chars c then kept m chars cs else c ∷ kept m chars cs

-- How many bytes are delimiters.
abbrev pub count : Memory → String8 → List ℕ → ℕ
count m chars [] = 0
count m chars (c ∷ cs) =
    if contains_char m chars c then suc (count m chars cs) else count m chars cs

module _ (m : Memory) (s chars : String8) where
  abbrev iter_at : ℕ → String8 → SplitIterator
  iter_at pos curr = record { s = s; delim = chars; pos = pos; curr = curr; any = true }

  -- The text from a position on.
  abbrev tail : ℕ → List ℕ
  tail pos = bytes m (s.address + pos) (s.len - pos)

  -- The loop stops at the end or at a delimiter, and what it passes is kept whole.
  record IsEnd (pos e : ℕ) : Type 0 where
    from : pos ≤ e
    within : e ≤ s.len
    passed : kept m chars (tail pos) ≡ bytes m (s.address + pos) (e - pos) ++ kept m chars (tail e)
    uncounted : count m chars (tail pos) ≡ count m chars (tail e)
    here : e < s.len → contains_char m chars (m (s.address + e)) ≡ true

  tail_cons : (pos : ℕ) → pos < s.len → tail pos ≡ m (s.address + pos) ∷ tail (suc pos)
  tail_cons pos h =
      ap (bytes m (s.address + pos))
        (let e : s.len - pos ≡ suc (s.len - suc pos) = omega arith in e)
      ∙ ap (λ a. m (s.address + pos) ∷ bytes m a (s.len - suc pos))
          (let e : suc (s.address + pos) ≡ s.address + suc pos = omega arith in e)

  seek_any-IsEnd : (n pos : ℕ) → n + pos ≡ s.len → IsEnd pos (seek_any m s chars n pos)
  unfolding seek_any
  seek_any-IsEnd zero pos e = record {
    from = omega arith;
    within = omega arith;
    passed = rw (let z : pos - pos ≡ 0 = omega arith in z) refl;
    uncounted = refl;
    here = λ h. absurd (omega arith);
  }
  seek_any-IsEnd (suc n) pos e = elim (Bool-cases (contains_char m chars (m (s.address + pos)))) [
    | inl t ↦ rw t (record {
      from = omega arith;
      within = omega arith;
      passed = rw (let z : pos - pos ≡ 0 = omega arith in z) refl;
      uncounted = refl;
      here = λ h. t;
    })
    | inr t ↦
        let r = seek_any-IsEnd n (suc pos) (omega arith) in
        let end = seek_any m s chars n (suc pos) in
        let open' : end - pos ≡ suc (end - suc pos) = omega (arith, r.from) in
        let i : suc (s.address + pos) ≡ s.address + suc pos = omega arith in
        rw t (record {
          from = omega (arith, r.from);
          within = r.within;
          passed =
              ap (kept m chars) (tail_cons pos (omega arith))
              ∙ rw (t, open', i) (ap (λ x. m (s.address + pos) ∷ x) r.passed);
          uncounted = ap (count m chars) (tail_cons pos (omega arith)) ∙ rw t r.uncounted;
          here = r.here;
        })
  ]

  abbrev part : ℕ → ℕ → String8
  part pos e = record {
    address = s.address + pos;
    len = e - pos;
    not_null_term = if e == s.len then s.not_null_term else true;
  }

  next_char :
      (pos e : ℕ) (curr : String8)
      → pos ≤ s.len
      → e < s.len
      → seek_any m s chars (s.len - pos) pos ≡ e
      → string8_split_next m (iter_at pos curr) ≡ some (iter_at (e + 1) curr, part pos e)
  unfolding string8_split_next seek_end
  next_char pos e curr h l at' = rw (at', le→ltb_false s.len pos h, lt→ltb e s.len l) refl

  next_last :
      (pos : ℕ) (curr : String8)
      → pos ≤ s.len
      → seek_any m s chars (s.len - pos) pos ≡ s.len
      → string8_split_next m (iter_at pos curr) ≡ some (iter_at (s.len + 1) curr, part pos s.len)
  unfolding string8_split_next seek_end
  next_last pos curr h at' =
      rw (at', le→ltb_false s.len pos h, le→ltb_false s.len s.len (omega arith)) refl

  done_lem : (curr : String8) → string8_split_next m (iter_at (s.len + 1) curr) ≡ none
  unfolding string8_split_next seek_end
  done_lem curr = rw (lt→ltb s.len (s.len + 1) (omega arith)) refl

  -- A run of the collecting loop from a position on.
  record Run (n pos : ℕ) (curr : String8) : Type 0 where
    parts : List String8
    run : collect n m (iter_at pos curr) ≡ some parts
    text : concat (views m parts) ≡ kept m chars (tail pos)
    number : length parts ≡ suc (count m chars (tail pos))

  last-Run :
      (n pos : ℕ) (curr : String8)
      → pos ≤ s.len
      → IsEnd pos s.len
      → seek_any m s chars (s.len - pos) pos ≡ s.len
      → Run (suc (suc n)) pos curr
  last-Run n pos curr h end at' =
      let empty' : tail s.len ≡ [] = rw (let z : s.len - s.len ≡ 0 = omega arith in z) refl in
      record {
        parts = part pos s.len ∷ [];
        run =
            collect_more (suc n) m _ _ _ _ (next_last pos curr h at')
              (collect_done n m _ (done_lem curr));
        text = sym (
            end.passed
            ∙ ap (λ t. bytes m (s.address + pos) (s.len - pos) ++ kept m chars t) empty');
        number = ap suc (sym (end.uncounted ∙ ap (count m chars) empty'));
      }

  more-Run :
      (n pos e : ℕ) (curr : String8)
      → pos ≤ s.len
      → IsEnd pos e
      → e < s.len
      → seek_any m s chars (s.len - pos) pos ≡ e
      → Run n (e + 1) curr
      → Run (suc n) pos curr
  more-Run n pos e curr h end l at' r =
      let t = end.here l in
      let cut : tail e ≡ m (s.address + e) ∷ tail (e + 1) =
        tail_cons e l
        ∙ ap (λ j. m (s.address + e) ∷ tail j) (let q : suc e ≡ e + 1 = omega arith in q) in
      let skips : kept m chars (tail e) ≡ kept m chars (tail (e + 1)) =
        ap (kept m chars) cut ∙ rw t refl in
      let counts : count m chars (tail e) ≡ suc (count m chars (tail (e + 1))) =
        ap (count m chars) cut ∙ rw t refl in
      record {
        parts = part pos e ∷ r.parts;
        run = collect_more n m _ _ _ _ (next_char pos e curr h l at') r.run;
        text =
            sym (
              end.passed ∙ ap (λ t. bytes m (s.address + pos) (e - pos) ++ t) (skips ∙ sym r.text));
        number = ap suc (r.number ∙ sym (end.uncounted ∙ counts));
      }

  runs : (n pos : ℕ) (curr : String8) → pos ≤ s.len → suc (suc s.len) ≤ n + pos → Run n pos curr
  runs zero pos curr h enough = absurd (omega arith)
  runs (suc zero) pos curr h enough = absurd (omega arith)
  runs (suc (suc n)) pos curr h enough =
      let end = seek_any-IsEnd (s.len - pos) pos (omega arith) in
      let e = seek_any m s chars (s.len - pos) pos in
      elim (dec_lt e s.len) [
        | yes l ↦
            more-Run (suc n) pos e curr h end l refl
              (runs (suc n) (e + 1) curr (omega arith) (omega (arith, end.from)))
        | no ge ↦
            let q : e ≡ s.len = omega (arith, end.within) in
            last-Run n pos curr h (transport (λ i. IsEnd pos (q i)) end) q
      ]

  -- For a set of delimiters that is not empty, the loop of `string8_split_collect` over
  -- `string8_split_any` ends. Its parts, one behind the other, are the bytes of the string that are
  -- no delimiter, and there is one part more than there are delimiters in the string.
  pub string8_split_any_correct :
      chars.len ≢ 0
      → (iter : SplitIterator) × (parts : List String8) × (string8_split_any s chars ≡ some iter)
        × (collect (suc (suc s.len)) m iter ≡ some parts)
        × (concat (views m parts) ≡ kept m chars (view m s))
        × (length parts ≡ suc (count m chars (view m s)))
  unfolding string8_split_any
  string8_split_any_correct ne =
      let r = runs (suc (suc s.len)) 0 null_string (omega arith) (omega arith) in
      let whole : tail 0 ≡ view m s = ap₂ (bytes m) (omega arith) (omega arith) in
      (
        iter_at 0 null_string,
        r.parts,
        rw (==_ne chars.len 0 ne) refl,
        r.run,
        r.text ∙ ap (kept m chars) whole,
        r.number ∙ ap (λ t. suc (count m chars t)) whole,
      )
