-- ===== src/Lexer/Stream.antt =====
-- `next_tok` and `peek_tok` of examples/parser.cpp: the tokens that the parser reads, one ahead.
use cxb.Prelude.{
  ℕ, ◌≡◌, refl, sym, ap, ◌∙◌, Bool, true, false, Bool-cases, inl, inr, Option, none, some,
  Option-cases, ◌>>=◌, if◌then◌else◌,
}
use cxb.Text.{Memory, String8}
use cxb.Lexer.{Lexer, lex_next}
use cxb.Lexer.Tokens.{Token, TokenKind, kind_eq}

-- The fields of `Parser` that the two functions change: `curr_tok`, `next_tok`, and the lexer's.
pub record Stream : Type 0 where
  pub lexer : Lexer
  pub curr_tok : Token
  pub next_tok : Token

-- `tok.kind == TOK_UNINTIALIZED`
unfoldable pub is_used : Token → Bool
is_used t = kind_eq t.kind TokenKind.uninitialized

-- `tok.kind = TOK_UNINTIALIZED`
unfoldable pub use_up : Token → Token
use_up t = record t { kind = TokenKind.uninitialized }

-- The streams that differ at most in a token that is used up.
pub record Agrees (s t : Stream) : Type 0 where
  pub lexer : s.lexer ≡ t.lexer
  pub curr_tok : s.curr_tok ≡ t.curr_tok
  pub used : (is_used s.next_tok ≡ true) × (is_used t.next_tok ≡ true)

module _ (m : Memory) (buffer : String8) (fuel : ℕ) where
  -- The token that a call of `next_tok` makes current, and the lexer behind it.
  unfoldable pub take_token : Stream → Option (Lexer × Token)
  unfolding is_used
  take_token s =
      if is_used s.next_tok
      then (lex_next m buffer fuel s.lexer >>= λ lx. some (lx, lx.tok))
      else some (s.lexer, s.next_tok)

  unfoldable pub next_tok : Stream → Option Stream
  unfolding take_token use_up
  next_tok s = do
    (lx, t) ← take_token s
    some (record { lexer = lx; curr_tok = t; next_tok = use_up s.next_tok })

  unfoldable pub peek_tok : Stream → Option Stream
  unfolding is_used
  peek_tok s =
      if is_used s.next_tok
      then (lex_next m buffer fuel s.lexer >>= λ lx.
          some (record s { lexer = lx; next_tok = lx.tok }))
      else some s

  pub is_used-use_up : (t : Token) → is_used (use_up t) ≡ true
  unfolding is_used use_up kind_eq
  is_used-use_up t = refl

  pub take_waiting :
      (s : Stream) → is_used s.next_tok ≡ false → take_token s ≡ some (s.lexer, s.next_tok)
  unfolding take_token
  take_waiting s e = rw (take_token, e) refl

  take_lexed :
      (s : Stream) (lx : Lexer)
      → is_used s.next_tok ≡ true
      → lex_next m buffer fuel s.lexer ≡ some lx
      → take_token s ≡ some (lx, lx.tok)
  unfolding take_token
  take_lexed s lx e lexed = rw (take_token, e, lexed) refl

  take_fails :
      (s : Stream)
      → is_used s.next_tok ≡ true
      → lex_next m buffer fuel s.lexer ≡ none
      → next_tok s ≡ none
  unfolding next_tok take_token
  take_fails s e fails = rw (next_tok, take_token, e, fails) refl

  unfoldable pub after_take : Stream → Lexer → Token → Stream
  after_take s lx t = record { lexer = lx; curr_tok = t; next_tok = use_up s.next_tok }

  pub next_tok_lem :
      (s : Stream) (lx : Lexer) (t : Token)
      → take_token s ≡ some (lx, t)
      → next_tok s ≡ some (after_take s lx t)
  unfolding next_tok after_take
  next_tok_lem s lx t e = rw (next_tok, e) refl

  pub peek_waiting : (s : Stream) → is_used s.next_tok ≡ false → peek_tok s ≡ some s
  unfolding peek_tok
  peek_waiting s e = rw (peek_tok, e) refl

  pub peek_lexed :
      (s : Stream) (lx : Lexer)
      → is_used s.next_tok ≡ true
      → lex_next m buffer fuel s.lexer ≡ some lx
      → peek_tok s ≡ some (record s { lexer = lx; next_tok = lx.tok })
  unfolding peek_tok
  peek_lexed s lx e lexed = rw (peek_tok, e, lexed) refl

  agrees :
      (a s t : Stream) (lx : Lexer) (k : Token)
      → after_take s lx k ≡ t
      → Agrees (after_take a lx k) t
  unfolding after_take
  agrees a s t lx k same = record {
    lexer = ap (λ u. u.lexer) same;
    curr_tok = ap (λ u. u.curr_tok) same;
    used = (
      is_used-use_up a.next_tok,
      sym (ap (λ u. is_used u.next_tok) same) ∙ is_used-use_up s.next_tok,
    );
  }

  -- A peek gives the token that the next call of `next_tok` gives: that call reads the same token,
  -- with the same lexer behind it, with and without the peek. It is asked that the token is not of
  -- the kind that marks a token as used up.
  pub next_tok-peek_tok :
      (s t : Stream)
      → next_tok s ≡ some t
      → is_used t.curr_tok ≡ false
      → (s' : Stream) × (t' : Stream) × (peek_tok s ≡ some s')
        × (s'.next_tok ≡ t.curr_tok)
        × (next_tok s' ≡ some t')
        × Agrees t' t
  unfolding after_take
  next_tok-peek_tok s t e live = elim (Bool-cases (is_used s.next_tok)) [
    | inr waits ↦
        let same : after_take s s.lexer s.next_tok ≡ t =
          let q = sym (next_tok_lem s s.lexer s.next_tok (take_waiting s waits)) ∙ e in cc in
        (
          s,
          after_take s s.lexer s.next_tok,
          peek_waiting s waits,
          ap (λ u. u.curr_tok) same,
          next_tok_lem s s.lexer s.next_tok (take_waiting s waits),
          agrees s s t s.lexer s.next_tok same,
        )
    | inl empty ↦ elim (Option-cases (lex_next m buffer fuel s.lexer)) [
      | inl fails ↦ let q = sym (take_fails s empty fails) ∙ e in cc
      | inr (lx, lexed) ↦
          let same : after_take s lx lx.tok ≡ t =
            let q = sym (next_tok_lem s lx lx.tok (take_lexed s lx empty lexed)) ∙ e in cc in
          let s' = record s { lexer = lx; next_tok = lx.tok } in
          let fresh : is_used lx.tok ≡ false = ap (λ u. is_used u.curr_tok) same ∙ live in
          (
            s',
            after_take s' lx lx.tok,
            peek_lexed s lx empty lexed,
            ap (λ u. u.curr_tok) same,
            next_tok_lem s' lx lx.tok (take_waiting s' fresh),
            agrees s' s t lx lx.tok same,
          )
    ]
  ]
