-- ===== src/Lexer/Character.antt =====
-- A round of the loop of `lex_next`: what it leaves at each kind of character.
use cxb.Prelude.{
  ℕ, ◌+◌, ◌-◌, ◌%◌, ◌^◌, ◌<◌, ◌≤◌, ◌≡◌, ◌≢◌, inl, inr, refl, sym, ap, ◌∙◌, true, false, ◌==◌,
  if◌then◌else◌, arith, Bool-cases, ==_iff, ℕ_discrete, dec_lt, le→ltb_false,
}
use cxb.Text.{Memory, String8}
use cxb.Lexer.Tokens.{TokenKind}
use cxb.Lexer.{
  Lexer, Round, again, stop, fail, consume, consume_next_line, add_tok, set_len, token_end, at_eof,
  char_at, peek, skip_number, skip_name, skip_literal, lex_char,
}
use cxb.Lexer.Labels.{
  CharCase, eof, blank, comment, newline, single, pair, dot, equals, digit, letter, quote, other,
  char_case, is_digit, is_letter, in_name,
}
use cxb.Lexer.Span.{
  IsSpan, Inside, token_end-IsSpan, name_end-IsSpan, skip_number-Inside, skip_name-Inside,
  skip_literal-Inside, skip_comment_bounds, skip_name_stops,
}

pub char_case-zero : char_case 0 ≡ eof
unfolding char_case
char_case-zero = refl

pub letter-in_name : (c : ℕ) → char_case c ≡ letter → in_name c ≡ true
unfolding char_case in_name is_letter is_digit
letter-in_name c e = ground arith

pub dot-ne-digit : char_case b'.' ≢ digit
unfolding char_case
dot-ne-digit e = cc

module _ (m : Memory) (buffer : String8) where
  -- What a round of the `for` loop leaves: a lexer further on in the text, or a token.
  abbrev pub AfterChar : Lexer → Round → Type 0
  AfterChar lx (again lx') = (lx.idx < lx'.idx) × (lx'.idx ≤ buffer.len)
  AfterChar lx (stop lx') = IsSpan m buffer lx.idx lx'
  AfterChar lx fail = ⊥

  -- The text that the theorems are about: shorter than the widest token, with a zero byte behind it,
  -- and not itself a name.
  pub record IsSource : Type 0 where
    pub small : buffer.len < 2 ^ 26
    pub terminated : m (buffer.address + buffer.len) ≡ 0
    pub no_name : (i : ℕ) × (i < buffer.len) × (in_name (char_at m buffer i) ≡ false)

  module _ (src : IsSource) (lx : Lexer) where
    pub at_eof-IsSpan : lx.idx ≤ buffer.len → IsSpan m buffer lx.idx (at_eof lx)
    unfolding at_eof add_tok set_len
    at_eof-IsSpan h =
        let same : lx.idx % 2 ^ 32 ≡ lx.idx = omega (arith, src.small) in
        record {
          starts = omega (arith, same);
          ends = omega (arith, same);
          within = h;
          some_text = inl (refl, refl);
        }

    -- One or two characters after the start of a token.
    added :
        (k : TokenKind) (x : ℕ)
        → 0 < x
        → lx.idx + x ≤ buffer.len
        → Inside m buffer lx.idx (consume x (add_tok k lx))
    unfolding consume add_tok
    added k x some' h = record { past = omega arith; within = h; tok = omega (arith, src.small) }

    ends_here :
        (k : TokenKind) (x : ℕ)
        → 0 < x
        → lx.idx + x ≤ buffer.len
        → IsSpan m buffer lx.idx (token_end (consume x (add_tok k lx)))
    ends_here k x some' h =
        token_end-IsSpan m buffer lx.idx lx.idx (consume x (add_tok k lx)) src.small (omega arith)
          (added k x some' h)

    -- A character that `PEEK` sees stands inside the text.
    peek_inside : (c : ℕ) → c ≢ 0 → peek m buffer lx ≡ c → lx.idx + 2 ≤ buffer.len
    unfolding peek
    peek_inside c ne e = elim (dec_lt (lx.idx + 1) buffer.len) [
      | yes l ↦ omega arith
      | no ge ↦ absurd (ne (sym (rw (le→ltb_false (lx.idx + 1) buffer.len (omega arith)) at e)))
    ]

    one_or_two :
        (c : ℕ) (k k' : TokenKind)
        → c ≢ 0
        → lx.idx < buffer.len
        → AfterChar lx (
            if peek m buffer lx == c
            then stop (token_end (consume 2 (add_tok k' lx)))
            else stop (token_end (consume 1 (add_tok k lx))))
    one_or_two c k k' ne l = elim (Bool-cases (peek m buffer lx == c)) [
      | inl t ↦ rw t (ends_here k' 2 (omega arith) (peek_inside c ne ((==_iff _ c).0 t)))
      | inr t ↦ rw t (ends_here k 1 (omega arith) (omega arith))
    ]

    newline_ends :
        lx.idx < buffer.len
        → IsSpan m buffer lx.idx
            (token_end (consume_next_line (add_tok TokenKind.statement_end lx)))
    newline_ends l =
        token_end-IsSpan m buffer lx.idx lx.idx
          (consume_next_line (add_tok TokenKind.statement_end lx)) src.small (omega arith)
          (unfold consume_next_line in
            unfold add_tok in
            record { past = omega arith; within = omega arith; tok = omega (arith, src.small) })

    -- A name is shorter than the text.
    name_shorter :
        (n : ℕ) (first : Lexer)
        → first.idx ≡ lx.idx + 1
        → in_name (char_at m buffer lx.idx) ≡ true
        → (skip_name m buffer n first).idx ≤ buffer.len
        → (skip_name m buffer n first).idx < lx.idx + buffer.len
    name_shorter n first e is_name within =
        let (i, inside, outside) = src.no_name in
        elim (dec_lt i lx.idx) [
          | yes before ↦ omega arith
          | no at ↦ elim (ℕ_discrete i lx.idx) [
            | yes q ↦
                let same = ap (λ j. in_name (char_at m buffer j)) q in
                absurd (let e : true ≡ false = sym is_name ∙ sym same ∙ outside in cc)
            | no ne ↦
                let stops = skip_name_stops m buffer n i first (omega arith) outside in omega arith
          ]
        ]

    past_letter : (consume 1 (add_tok TokenKind.identifier lx)).idx ≡ lx.idx + 1
    unfolding consume add_tok
    past_letter = refl

    pub lex_char_lem :
        (k : CharCase)
        → k ≢ other
        → lx.idx ≤ buffer.len
        → (k ≢ eof → lx.idx < buffer.len)
        → (k ≡ digit → char_at m buffer lx.idx ≢ b'.')
        → (k ≡ letter → in_name (char_at m buffer lx.idx) ≡ true)
        → (k ≡ quote → char_at m buffer lx.idx ≢ char_at m buffer buffer.len)
        → AfterChar lx (lex_char m buffer k lx)
    unfolding lex_char
    lex_char_lem eof known h more num name str = at_eof-IsSpan h
    lex_char_lem blank known h more num name str =
        unfold consume in (omega arith, omega (arith, more (λ e. cc)))
    lex_char_lem comment known h more num name str =
        let l = more (λ e. cc) in
        skip_comment_bounds m buffer (buffer.len - lx.idx) lx (omega arith) l
    lex_char_lem newline known h more num name str = newline_ends (more (λ e. cc))
    lex_char_lem (single k) known h more num name str =
        ends_here k 1 (omega arith) (omega (arith, more (λ e. cc)))
    lex_char_lem (pair k k') known h more num name str =
        one_or_two b'=' k k' (omega arith) (more (λ e. cc))
    lex_char_lem dot known h more num name str =
        one_or_two b'.' TokenKind.dot_op TokenKind.double_dot_op (omega arith) (more (λ e. cc))
    lex_char_lem equals known h more num name str = elim (Bool-cases (peek m buffer lx == b'>')) [
      | inl t ↦ rw t (
          ends_here TokenKind.map_op 2 (omega arith)
            (peek_inside b'>' (omega arith) ((==_iff _ b'>').0 t)))
      | inr t ↦
          rw t (
            one_or_two b'=' TokenKind.equals_op TokenKind.equality_op (omega arith)
              (more (λ e. cc)))
    ]
    lex_char_lem digit known h more num name str =
        let first = consume 1 (add_tok TokenKind.int_literal lx) in
        let v = added TokenKind.int_literal 1 (omega arith) (omega (arith, more (λ e. cc))) in
        let n = buffer.len - first.idx in
        let l : n + first.idx ≡ buffer.len = omega (arith, v.within) in
        token_end-IsSpan m buffer lx.idx lx.idx (skip_number m buffer n first) src.small
          (omega arith) (skip_number-Inside m buffer lx.idx n first l (num refl) v)
    lex_char_lem letter known h more num name str =
        let first = consume 1 (add_tok TokenKind.identifier lx) in
        let v = added TokenKind.identifier 1 (omega arith) (omega (arith, more (λ e. cc))) in
        let n = buffer.len - first.idx in
        let l : n + first.idx ≡ buffer.len = omega (arith, v.within) in
        let inside = skip_name-Inside m buffer lx.idx n first l v in
        let (lx', run, span) =
          name_end-IsSpan m buffer lx.idx lx.idx (skip_name m buffer n first) src.small
            (omega arith) inside (name_shorter n first past_letter (name refl) inside.within) in
        rw run span
    lex_char_lem quote known h more num name str =
        let first = consume 1 (add_tok TokenKind.string_literal lx) in
        let v = added TokenKind.string_literal 1 (omega arith) (omega (arith, more (λ e. cc))) in
        let n = buffer.len - first.idx in
        let l : n + first.idx ≡ buffer.len = omega (arith, v.within) in
        token_end-IsSpan m buffer lx.idx lx.idx
          (skip_literal m buffer (char_at m buffer lx.idx) n first) src.small (omega arith)
          (skip_literal-Inside m buffer lx.idx (char_at m buffer lx.idx) n first l (str refl) v)
    lex_char_lem other known h more num name str = absurd (known refl)
