-- ===== src/Lexer/Progress.antt =====
-- `lex_next` as a whole: that it returns, and what it returns.
use cxb.Prelude.{
  ℕ, zero, suc, ◌+◌, ◌<◌, ◌≤◌, ◌≡◌, ◌≢◌, refl, sym, ap, ◌∙◌, true, none, some, ◌==◌, arith, ==_iff,
  ==_ne, ℕ_discrete,
}
use cxb.Text.{Memory, String8}
use cxb.Lexer.{Lexer, Round, again, stop, fail, at_eof, char_at, lex_char, lex_loop, lex_next}
use cxb.Lexer.Labels.{CharCase, eof, other, char_case}
use cxb.Lexer.Span.{IsSpan}
use cxb.Lexer.Character.{
  IsSource, AfterChar, lex_char_lem, at_eof-IsSpan, char_case-zero, dot-ne-digit, letter-in_name,
}

module _ (m : Memory) (buffer : String8) where
  -- Every character of the text from a position on has a label in the `switch`.
  abbrev pub IsKnown : ℕ → Type 0
  IsKnown from = (i : ℕ) → from ≤ i → i < buffer.len → char_case (char_at m buffer i) ≢ other

  module _ (src : IsSource m buffer) where
    end_of_text : char_at m buffer buffer.len ≡ 0
    unfolding char_at
    end_of_text = src.terminated

    eof_at_end : (i : ℕ) → i ≡ buffer.len → char_case (char_at m buffer i) ≡ eof
    eof_at_end i e =
        ap (λ j. char_case (char_at m buffer j)) e ∙ ap char_case end_of_text ∙ char_case-zero

    char_lem :
        (lx : Lexer)
        → lx.idx ≤ buffer.len
        → IsKnown lx.idx
        → AfterChar m buffer lx (lex_char m buffer (char_case (char_at m buffer lx.idx)) lx)
    char_lem lx h known =
        let c = char_at m buffer lx.idx in
        lex_char_lem m buffer src lx (char_case c)
          (λ e. elim (ℕ_discrete lx.idx buffer.len) [
            | yes q ↦ let z = eof_at_end lx.idx q in cc
            | no ne ↦ known lx.idx (omega arith) (omega arith) e
          ])
          h
          (λ ne. elim (ℕ_discrete lx.idx buffer.len) [
            | yes q ↦ absurd (ne (eof_at_end lx.idx q))
            | no l ↦ omega arith
          ])
          (λ e d. dot-ne-digit (ap char_case (sym d) ∙ e)) (letter-in_name c)
          (λ e z. let q = ap char_case (z ∙ end_of_text) ∙ char_case-zero in cc)

    lex_loop_lem :
        (fuel : ℕ) (lx : Lexer)
        → lx.idx ≤ buffer.len
        → IsKnown lx.idx
        → buffer.len < fuel + lx.idx
        → (lx' : Lexer) × (lex_loop m buffer fuel lx ≡ some lx') × IsSpan m buffer lx.idx lx'
    unfolding lex_loop
    lex_loop_lem zero lx h known enough = absurd (omega arith)
    lex_loop_lem (suc fuel) lx h known enough =
        go (lex_char m buffer (char_case (char_at m buffer lx.idx)) lx) (char_lem lx h known)
          (λ lx' l.
            lex_loop_lem fuel lx' l.1 (λ i a b. known i (omega (arith, l.0)) b)
              (omega (arith, l.0)))
      where
        go :
            (r : Round)
            → AfterChar m buffer lx r
            → ((lx' : Lexer)
                → (lx.idx < lx'.idx) × (lx'.idx ≤ buffer.len)
                → (end : Lexer) × (lex_loop m buffer fuel lx' ≡ some end)
                  × IsSpan m buffer lx'.idx end)
            → (end : Lexer) × (elim r [
              | again lx' ↦ lex_loop m buffer fuel lx'
              | stop lx' ↦ some lx'
              | fail ↦ none
            ]
                ≡ some end)
              × IsSpan m buffer lx.idx end
        go fail v ih = absurd v
        go (stop lx') v ih = (lx', refl, v)
        go (again lx') l ih =
            let (end, run, v) = ih lx' l in
            (
              end,
              run,
              record {
                starts = omega (arith, l.0, v.starts);
                ends = v.ends;
                within = v.within;
                some_text = v.some_text;
              },
            )

    -- On a text with a zero byte behind it that is shorter than the widest token and is not all one
    -- name, and whose characters from the position on all have a label, `lex_next` returns. Its token lies inside the text, begins at the
    -- old position or behind it and ends at the new one; it is empty only at the end of the file.
    pub lex_next_correct :
        (lx : Lexer)
        → lx.idx ≤ buffer.len
        → IsKnown lx.idx
        → (lx' : Lexer) × (lex_next m buffer (suc buffer.len) lx ≡ some lx')
          × IsSpan m buffer lx.idx lx'
    unfolding lex_next
    lex_next_correct lx h known = elim (ℕ_discrete lx.idx buffer.len) [
      | yes q ↦ (
        at_eof lx,
        rw (let t : (lx.idx == buffer.len) ≡ true = (==_iff _ _).1 q in t) refl,
        at_eof-IsSpan m buffer src lx h,
      )
      | no ne ↦
          rw (==_ne lx.idx buffer.len ne) (lex_loop_lem (suc buffer.len) lx h known (omega arith))
    ]

  lex_char-other : (lx : Lexer) (k : CharCase) → k ≡ other → lex_char m buffer k lx ≡ again lx
  unfolding lex_char
  lex_char-other lx k e = rw e refl

  lex_loop_stuck :
      (lx : Lexer)
      → char_case (char_at m buffer lx.idx) ≡ other
      → (fuel : ℕ) → lex_loop m buffer fuel lx ≡ none
  unfolding lex_loop
  lex_loop_stuck lx e zero = refl
  lex_loop_stuck lx e (suc fuel) =
      rw (lex_loop, lex_char-other lx (char_case (char_at m buffer lx.idx)) e)
        (lex_loop_stuck lx e fuel)

  -- At a character without a label, `lex_next` does not return, whatever fuel its loop is given.
  pub lex_next_stuck :
      (lx : Lexer)
      → lx.idx ≢ buffer.len
      → char_case (char_at m buffer lx.idx) ≡ other
      → (fuel : ℕ) → lex_next m buffer fuel lx ≡ none
  unfolding lex_next
  lex_next_stuck lx ne e fuel = rw (==_ne lx.idx buffer.len ne) (lex_loop_stuck lx e fuel)
