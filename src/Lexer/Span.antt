-- ===== src/Lexer/Span.antt =====
-- The inner loops of the lexer: where they stop, and the part of the text that a token covers.
use cxb.Prelude.{
  ℕ, zero, suc, ◌+◌, ◌-◌, ◌%◌, ◌^◌, ◌<◌, ◌≤◌, ◌≡◌, ◌≢◌, ◌⊎◌, inl, inr, refl, sym, ap, ◌∙◌, true,
  false, ◌&&◌, Option, none, some, ◌==◌, ltb, arith, sub64, Bool-cases, ==_iff, ℕ_discrete, dec_lt,
  le→ltb_false, lt→ltb,
}
use cxb.Text.{Memory, String8, bytes}
use cxb.Lexer.Tokens.{TokenKind, kind_eq}
use cxb.Lexer.{
  Lexer, Round, again, stop, fail, consume, change_tok, set_err, set_len, token_end, name_end,
  char_at, peek, skip_comment, number_round, skip_number, skip_name, skip_literal,
}
use cxb.Lexer.Labels.{is_digit, is_letter, in_name}
use cxb.Lexer.Words.{get_reserved_word}

module _ (m : Memory) (buffer : String8) where
  -- The token that a call leaves: it lies between the old position and the new one, ends at the new
  -- one, and is not empty unless it is the end of the file.
  pub record IsSpan (from : ℕ) (lx : Lexer) : Type 0 where
    pub starts : from ≤ lx.tok.idx
    pub ends : lx.tok.idx + lx.tok.n ≡ lx.idx
    pub within : lx.idx ≤ buffer.len
    pub some_text : ((lx.tok.kind ≡ TokenKind.eof) × (lx.tok.n ≡ 0)) ⊎ (0 < lx.tok.n)

  -- A lexer inside a token that starts at `start`.
  pub record Inside (start : ℕ) (lx : Lexer) : Type 0 where
    pub past : start < lx.idx
    pub within : lx.idx ≤ buffer.len
    pub tok : lx.tok.idx ≡ start

  pub token_end-IsSpan :
      (from start : ℕ) (lx : Lexer)
      → buffer.len < 2 ^ 26
      → from ≤ start
      → Inside start lx
      → IsSpan from (token_end lx)
  unfolding token_end set_len
  token_end-IsSpan from start lx small le v =
      let n : sub64 lx.idx lx.tok.idx % 2 ^ 26 ≡ lx.idx - lx.tok.idx =
        omega (arith, v.past, v.within, v.tok) in
      record {
        starts = omega (arith, v.tok);
        ends = omega (arith, n, v.past, v.tok);
        within = v.within;
        some_text = inr (omega (arith, n, v.past, v.tok));
      }

  pub name_end-IsSpan :
      (from start : ℕ) (lx : Lexer)
      → buffer.len < 2 ^ 26
      → from ≤ start
      → Inside start lx
      → lx.idx < start + buffer.len
      → (lx' : Lexer) × (name_end m buffer lx ≡ stop lx') × IsSpan from lx'
  unfolding name_end change_tok token_end set_len
  name_end-IsSpan from start lx small le v shorter =
      let n : sub64 lx.idx lx.tok.idx % 2 ^ 26 ≡ lx.idx - lx.tok.idx =
        omega (arith, v.past, v.within, v.tok) in
      let size = sub64 lx.idx lx.tok.idx % 2 ^ 26 in
      let part : ltb size buffer.len ≡ true = lt→ltb size buffer.len (omega (arith, n, v.tok)) in
      rw part (
        go (get_reserved_word (bytes m (buffer.address + lx.tok.idx) size))
          (unfold token_end in unfold set_len in token_end-IsSpan from start lx small le v)
          (omega (arith, n, v.past, v.tok)))
    where
      go :
          (o : Option TokenKind)
          → IsSpan from (token_end lx)
          → 0 < sub64 lx.idx lx.tok.idx % 2 ^ 26
          → (lx' : Lexer) × (elim o as (λ t. Round) [
            | none ↦ stop (token_end lx)
            | some k ↦ stop (change_tok k (token_end lx))
          ]
              ≡ stop lx')
            × IsSpan from lx'
      go none v' more = (token_end lx, refl, v')
      go (some k) v' more = (
        change_tok k (token_end lx),
        refl,
        record { starts = v'.starts; ends = v'.ends; within = v'.within; some_text = inr more },
      )

  -- What a round of the loop over a number does.
  abbrev AfterRound : Lexer → Round → Type 0
  AfterRound lx (again lx') = (lx'.idx ≡ lx.idx + 1) × (lx'.tok.idx ≡ lx.tok.idx)
  AfterRound lx (stop lx') =
      ((lx'.idx ≡ lx.idx) ⊎ ((lx'.idx ≡ lx.idx - 1) × (char_at m buffer (lx.idx - 1) ≡ b'.')))
      × (lx'.tok.idx ≡ lx.tok.idx)
  AfterRound lx fail = ⊥

  number_round_lem : (lx : Lexer) → AfterRound lx (number_round m buffer lx)
  unfolding number_round consume set_err change_tok
  number_round_lem lx =
      let c = char_at m buffer lx.idx in
      elim (Bool-cases (is_digit c)) [
        | inl t ↦ rw t (refl, refl)
        | inr t ↦ elim (Bool-cases (is_letter c)) [
          | inl u ↦ rw (t, u) (inl refl, refl)
          | inr u ↦ elim (Bool-cases (c == b'.')) [
            | inr w ↦ rw (t, u, w) (inl refl, refl)
            | inl w ↦ elim (Bool-cases (char_at m buffer (lx.idx - 1) == b'.')) [
              | inl z ↦ rw (t, u, w, z) (inr (refl, (==_iff _ b'.').0 z), refl)
              | inr z ↦ elim (Bool-cases (kind_eq lx.tok.kind TokenKind.float_literal)) [
                | inl y ↦ rw (t, u, w, z, y) (refl, refl)
                | inr y ↦ rw (t, u, w, z, y) (refl, refl)
              ]
            ]
          ]
        ]
      ]

  pub skip_number-Inside :
      (start n : ℕ) (lx : Lexer)
      → n + lx.idx ≡ buffer.len
      → char_at m buffer start ≢ b'.'
      → Inside start lx
      → Inside start (skip_number m buffer n lx)
  unfolding skip_number
  skip_number-Inside start zero lx e first v = v
  skip_number-Inside start (suc n) lx e first v =
      go (number_round m buffer lx) (number_round_lem lx)
        (λ lx' e' v'. skip_number-Inside start n lx' e' first v')
    where
      go :
          (r : Round)
          → AfterRound lx r
          → ((lx' : Lexer)
              → n + lx'.idx ≡ buffer.len
              → Inside start lx'
              → Inside start (skip_number m buffer n lx'))
          → Inside start
              (elim r [ again lx' ↦ skip_number m buffer n lx' | stop lx' ↦ lx' | fail ↦ lx ])
      go fail w ih = absurd w
      go (again lx') (i, t) ih =
          ih lx' (omega (arith, i))
            (record { past = omega (arith, i, v.past); within = omega (arith, i); tok = t ∙ v.tok })
      go (stop lx') (inl i, t) ih = record {
        past = omega (arith, i, v.past);
        within = omega (arith, i, v.within);
        tok = t ∙ v.tok;
      }
      go (stop lx') (inr (i, dot), t) ih = elim (ℕ_discrete start (lx.idx - 1)) [
        | yes q ↦ absurd (first (ap (char_at m buffer) q ∙ dot))
        | no ne ↦ record {
          past = omega (arith, i, v.past);
          within = omega (arith, i, v.within);
          tok = t ∙ v.tok;
        }
      ]

  pub skip_name-Inside :
      (start n : ℕ) (lx : Lexer)
      → n + lx.idx ≡ buffer.len
      → Inside start lx
      → Inside start (skip_name m buffer n lx)
  unfolding skip_name consume
  skip_name-Inside start zero lx e v = v
  skip_name-Inside start (suc n) lx e v = elim (Bool-cases (in_name (char_at m buffer lx.idx))) [
    | inl t ↦ rw t (
        skip_name-Inside start n (consume 1 lx) (omega (arith, e))
          (record { past = omega (arith, v.past); within = omega (arith, e); tok = v.tok }))
    | inr t ↦ rw t v
  ]

  -- The loop over a name stops at a character that is in no name.
  pub skip_name_stops :
      (n i : ℕ) (lx : Lexer)
      → lx.idx ≤ i
      → in_name (char_at m buffer i) ≡ false
      → (skip_name m buffer n lx).idx ≤ i
  unfolding skip_name consume
  skip_name_stops zero i lx h e = h
  skip_name_stops (suc n) i lx h e = elim (Bool-cases (in_name (char_at m buffer lx.idx))) [
    | inl t ↦ rw t (elim (ℕ_discrete lx.idx i) [
      | yes q ↦ let same = ap (λ j. in_name (char_at m buffer j)) q in cc
      | no ne ↦ skip_name_stops n i (consume 1 lx) (omega arith) e
    ])
    | inr t ↦ rw t h
  ]

  -- The loop stops the literal at the end of the text at the latest, where no quote stands.
  pub skip_literal-Inside :
      (start ch n : ℕ) (lx : Lexer)
      → n + lx.idx ≡ buffer.len
      → ch ≢ char_at m buffer buffer.len
      → Inside start lx
      → Inside start (skip_literal m buffer ch n lx)
  unfolding skip_literal consume set_err
  skip_literal-Inside start ch zero lx e quote v = record {
    past = v.past;
    within = v.within;
    tok = v.tok;
  }
  skip_literal-Inside start ch (suc n) lx e quote v =
      elim (Bool-cases (char_at m buffer (lx.idx + 1) == ch)) [
        | inl t ↦ rw t (elim (ℕ_discrete (lx.idx + 1) buffer.len) [
          | yes q ↦ absurd (quote (sym (sym (ap (char_at m buffer) q) ∙ (==_iff _ ch).0 t)))
          | no ne ↦ record { past = omega (arith, v.past); within = omega (arith, e); tok = v.tok }
        ])
        | inr t ↦ rw t (
            skip_literal-Inside start ch n (consume 1 lx) (omega (arith, e)) quote
              (record { past = omega (arith, v.past); within = omega (arith, e); tok = v.tok }))
      ]

  -- The loop over a comment passes at least the `#`, and stays inside the text.
  pub skip_comment_bounds :
      (n : ℕ) (lx : Lexer)
      → n + lx.idx ≡ buffer.len
      → lx.idx < buffer.len
      → (lx.idx < (skip_comment m buffer (suc n) lx).idx)
        × ((skip_comment m buffer (suc n) lx).idx ≤ buffer.len)
  unfolding skip_comment consume peek
  skip_comment_bounds zero lx e l = absurd (omega arith)
  skip_comment_bounds (suc n) lx e l = elim (dec_lt (lx.idx + 1 + 1) buffer.len) [
    | no ge ↦ rw (le→ltb_false (lx.idx + 1 + 1) buffer.len (omega arith)) (omega arith, omega arith)
    | yes more ↦
        let p = char_at m buffer (lx.idx + 1 + 1) in
        elim (Bool-cases (p == 10)) [
          | inl t ↦ rw (lt→ltb _ _ more, t) (omega arith, omega arith)
          | inr t ↦ elim (Bool-cases (ltb 0 p && ltb p 128)) [
            | inr u ↦ rw (lt→ltb _ _ more, t, u) (omega arith, omega arith)
            | inl u ↦
                rw (lt→ltb _ _ more, t, u)
                  (let (a, b) =
                      skip_comment_bounds n (consume 1 lx) (omega (arith, e))
                        (omega (arith, more)) in
                    (omega (arith, a), b))
          ]
        ]
  ]
