-- ===== src/Split/Delim.antt =====
-- Splitting at a delimiter string: the parts, and what they join to.
use mathlib.Core.Path.{ap₂, transport}
use cxb.Prelude.{
  ℕ, zero, suc, ◌+◌, ◌-◌, ◌<◌, ◌≤◌, ◌≡◌, ◌≢◌, ◌↔◌, inl, inr, refl, ap, ◌∙◌, true, false, none, some,
  List, [], ◌∷◌, ◌++◌, ◌&&◌, arith, ◌==◌, Bool-cases, leb, size_max, ==_ne, lt→ltb, le→ltb_false,
  dec_lt, if◌then◌else◌, ℕ_discrete,
}
use cxb.Text.{Memory, String8, bytes, view, memcmp, is_eq, string8_contains}
use cxb.Text.Bytes.{memcmp_iff, bytes_split}
use cxb.Text.Find.{Occurs, string8_contains_iff}
use cxb.Split.{
  SplitIterator, seek_delim, seek_end, string8_split_next, string8_split, null_string, collect,
}

-- Byte lists with a separator between them.
abbrev pub join : List ℕ → List (List ℕ) → List ℕ
join sep [] = []
join sep (x ∷ []) = x
join sep (x ∷ y ∷ rest) = x ++ (sep ++ join sep (y ∷ rest))

abbrev pub views : Memory → List String8 → List (List ℕ)
views m [] = []
views m (p ∷ parts) = view m p ∷ views m parts

-- A predicate on every part.
abbrev pub Each : (String8 → Type 0) → List String8 → Type 0
Each P [] = Unit
Each P (p ∷ parts) = P p × Each P parts

pub collect_done :
    (n : ℕ) (m : Memory) (iter : SplitIterator)
    → string8_split_next m iter ≡ none
    → collect (suc n) m iter ≡ some []
unfolding collect
collect_done n m iter e = rw (collect, e) refl

pub collect_more :
    (n : ℕ) (m : Memory) (iter iter' : SplitIterator) (p : String8) (parts : List String8)
    → string8_split_next m iter ≡ some (iter', p)
    → collect n m iter' ≡ some parts
    → collect (suc n) m iter ≡ some (p ∷ parts)
unfolding collect
collect_more n m iter iter' p parts e r = rw (collect, e, r) refl

module _ (m : Memory) (s delim : String8) where
  -- What the loop gives from `pos` on: the first position where the delimiter stands, else the end.
  record IsEnd (pos e : ℕ) : Type 0 where
    from : pos ≤ e
    within : e ≤ s.len
    before : (j : ℕ) → pos ≤ j → j < e → ¬ Occurs m s delim j
    here : e < s.len → Occurs m s delim e

  stands_iff :
      (i : ℕ)
      → ((leb (i + delim.len) s.len && is_eq (memcmp m (s.address + i) delim.address delim.len))
          ≡ true)
        ↔ Occurs m s delim i
  stands_iff i = ground (arith, memcmp_iff m delim.len (s.address + i) delim.address)

  seek_delim-IsEnd : (n pos : ℕ) → n + pos ≡ s.len → IsEnd pos (seek_delim m s delim n pos)
  unfolding seek_delim
  seek_delim-IsEnd zero pos e = record {
    from = omega arith;
    within = omega arith;
    before = λ j p q. absurd (omega arith);
    here = λ h. absurd (omega arith);
  }
  seek_delim-IsEnd (suc n) pos e =
      elim (Bool-cases (
        leb (pos + delim.len) s.len
        && is_eq (memcmp m (s.address + pos) delim.address delim.len))) [
          | inl t ↦ rw t (record {
            from = omega arith;
            within = omega arith;
            before = λ j p q. absurd (omega arith);
            here = λ h. (stands_iff pos).0 t;
          })
          | inr t ↦
              let r = seek_delim-IsEnd n (suc pos) (omega arith) in
              rw t (record {
                from = omega (arith, r.from);
                within = r.within;
                before = λ j p q. elim (ℕ_discrete j pos) [
                  | yes same ↦ rw same (λ o. let b = (stands_iff pos).1 o in cc)
                  | no ne ↦ r.before j (omega arith) q
                ];
                here = r.here;
              })
        ]

  -- The iterator at a position.
  abbrev pub iter_at : ℕ → String8 → SplitIterator
  iter_at pos curr = record { s = s; delim = delim; pos = pos; curr = curr; any = false }

  -- A run of the collecting loop from a position on.
  record Run (n pos : ℕ) (curr : String8) : Type 0 where
    first : String8
    rest : List String8
    run : collect n m (iter_at pos curr) ≡ some (first ∷ rest)
    joined : join (view m delim) (views m (first ∷ rest)) ≡ bytes m (s.address + pos) (s.len - pos)
    clean : Each (λ p. string8_contains m p delim ≡ false) (first ∷ rest)

  abbrev part : ℕ → ℕ → String8
  part pos e = record {
    address = s.address + pos;
    len = e - pos;
    not_null_term = if e == s.len then s.not_null_term else true;
  }

  next_delim :
      (pos e : ℕ) (curr : String8)
      → pos ≤ s.len
      → e < s.len
      → seek_delim m s delim (s.len - pos) pos ≡ e
      → string8_split_next m (iter_at pos curr) ≡ some (iter_at (e + delim.len) curr, part pos e)
  unfolding string8_split_next seek_end
  next_delim pos e curr h l at' = rw (at', le→ltb_false s.len pos h, lt→ltb e s.len l) refl

  next_last :
      (pos : ℕ) (curr : String8)
      → pos ≤ s.len
      → seek_delim m s delim (s.len - pos) pos ≡ s.len
      → string8_split_next m (iter_at pos curr) ≡ some (iter_at (s.len + 1) curr, part pos s.len)
  unfolding string8_split_next seek_end
  next_last pos curr h at' =
      rw (at', le→ltb_false s.len pos h, le→ltb_false s.len s.len (omega arith)) refl

  done_lem : (curr : String8) → string8_split_next m (iter_at (s.len + 1) curr) ≡ none
  unfolding string8_split_next seek_end
  done_lem curr = rw (lt→ltb s.len (s.len + 1) (omega arith)) refl

  three :
      (a i d k : ℕ)
      → bytes m a (i + (d + k)) ≡ bytes m a i ++ (bytes m (a + i) d ++ bytes m (a + i + d) k)
  three a i d k = bytes_split m a i (d + k) ∙ ap (λ t. bytes m a i ++ t) (bytes_split m (a + i) d k)

  joined_lem :
      (pos e : ℕ)
      → IsEnd pos e
      → e < s.len
      → bytes m (s.address + pos) (e - pos)
          ++ (view m delim ++ bytes m (s.address + (e + delim.len)) (s.len - (e + delim.len)))
        ≡ bytes m (s.address + pos) (s.len - pos)
  joined_lem pos e end l =
      let k = s.len - (e + delim.len) in
      let (inside, same) = end.here l in
      let total : s.len - pos ≡ e - pos + (delim.len + k) = omega (arith, end.from) in
      let i : s.address + pos + (e - pos) ≡ s.address + e = omega (arith, end.from) in
      let j : s.address + (e + delim.len) ≡ s.address + e + delim.len = omega arith in
      rw (total, three, i, same, j) refl

  module _ (some_delim : delim.len ≢ 0) (fits : s.len < size_max) where
    part_clean : (pos e : ℕ) → IsEnd pos e → string8_contains m (part pos e) delim ≡ false
    part_clean pos e end = elim (Bool-cases (string8_contains m (part pos e) delim)) [
      | inr f ↦ f
      | inl t ↦
          let (i, (inside, same)) =
            (string8_contains_iff m (part pos e) delim some_delim (omega (arith, end.within))).0
              t in
          absurd (
            end.before (pos + i) (omega arith) (omega (arith, end.within)) (
              omega (arith, end.within),
              ap (λ a. bytes m a delim.len)
                    (let q : s.address + (pos + i) ≡ s.address + pos + i = omega arith in q)
                  ∙ same,
            ))
    ]

    -- The last part, where the delimiter stands nowhere behind the position.
    last-Run :
        (n pos : ℕ) (curr : String8)
        → pos ≤ s.len
        → IsEnd pos s.len
        → seek_delim m s delim (s.len - pos) pos ≡ s.len
        → Run (suc (suc n)) pos curr
    last-Run n pos curr h end at' = record {
      first = part pos s.len;
      rest = [];
      run =
          collect_more (suc n) m _ _ _ _ (next_last pos curr h at')
            (collect_done n m _ (done_lem curr));
      joined = refl;
      clean = (part_clean pos s.len end, tt);
    }

    more-Run :
        (n pos e : ℕ) (curr : String8)
        → pos ≤ s.len
        → IsEnd pos e
        → e < s.len
        → seek_delim m s delim (s.len - pos) pos ≡ e
        → Run n (e + delim.len) curr
        → Run (suc n) pos curr
    more-Run n pos e curr h end l at' r = record {
      first = part pos e;
      rest = r.first ∷ r.rest;
      run = collect_more n m _ _ _ _ (next_delim pos e curr h l at') r.run;
      joined =
          ap (λ t. view m (part pos e) ++ (view m delim ++ t)) r.joined ∙ joined_lem pos e end l;
      clean = (part_clean pos e end, r.clean);
    }

    runs : (n pos : ℕ) (curr : String8) → pos ≤ s.len → suc (suc s.len) ≤ n + pos → Run n pos curr
    runs zero pos curr h enough = absurd (omega arith)
    runs (suc zero) pos curr h enough = absurd (omega arith)
    runs (suc (suc n)) pos curr h enough =
        let end = seek_delim-IsEnd (s.len - pos) pos (omega arith) in
        let e = seek_delim m s delim (s.len - pos) pos in
        elim (dec_lt e s.len) [
          | yes l ↦
              more-Run (suc n) pos e curr h end l refl
                (runs (suc n) (e + delim.len) curr (end.here l).0 (omega (arith, end.from)))
          | no ge ↦
              let q : e ≡ s.len = omega (arith, end.within) in
              last-Run n pos curr h (transport (λ i. IsEnd pos (q i)) end) q
        ]

    -- For a delimiter that is not empty and a string shorter than `SIZE_MAX`, the loop of
    -- `string8_split_collect` ends and gives at least one part. The parts with the delimiter between
    -- them are the string, and no part contains the delimiter.
    pub string8_split_correct :
        (iter : SplitIterator) × (first : String8) × (rest : List String8) × (string8_split s delim
          ≡ some iter)
        × (collect (suc (suc s.len)) m iter ≡ some (first ∷ rest))
        × (join (view m delim) (views m (first ∷ rest)) ≡ view m s)
        × Each (λ p. string8_contains m p delim ≡ false) (first ∷ rest)
    unfolding string8_split
    string8_split_correct =
        let r = runs (suc (suc s.len)) 0 null_string (omega arith) (omega arith) in
        (
          iter_at 0 null_string,
          r.first,
          r.rest,
          rw (==_ne delim.len 0 some_delim) refl,
          r.run,
          r.joined
              ∙ ap₂ (bytes m) (let q : s.address + 0 ≡ s.address = omega arith in q)
                  (let q : s.len - 0 ≡ s.len = omega arith in q),
          r.clean,
        )
