-- ===== src/Lexer.antt =====
-- The lexer of the example language, examples/parser.h and examples/parser.cpp. A `char` is signed:
-- a byte from 128 on is negative, and 255 is -1.
pub mod Tokens
pub mod Words
pub mod Labels
pub mod Span
pub mod Character
pub mod Progress
pub mod Stream
pub mod Literal
mod Tests
use cxb.Lexer.Tokens.{TokenKind, Token, kind_eq}
use cxb.Lexer.Labels.{
  CharCase, eof, blank, comment, newline, single, pair, dot, equals, digit, letter, quote, other,
  is_digit, is_letter, in_name, char_case,
}
use cxb.Lexer.Words.{get_reserved_word}
use cxb.Prelude.{
  ℕ, zero, suc, ◌+◌, ◌-◌, ◌%◌, ◌^◌, Bool, true, false, ◌&&◌, ◌||◌, Option, none, some, ◌==◌, ltb,
  leb, if◌then◌else◌, sub64,
}
use cxb.Text.{Memory, String8, bytes}

-- The fields of `Parser` that the lexer changes: `idx`, `loc` and `tok`.
pub record Lexer : Type 0 where
  pub idx : ℕ
  pub line : ℕ
  pub col : ℕ
  pub tok : Token

-- `CONSUME` and `CONSUME_X`
unfoldable pub consume : ℕ → Lexer → Lexer
consume x lx = record lx { idx = lx.idx + x; col = (lx.col + x) % 2 ^ 32 }

-- `CONSUME_NEXT_LINE`
unfoldable pub consume_next_line : Lexer → Lexer
consume_next_line lx = record lx { idx = lx.idx + 1; line = (lx.line + 1) % 2 ^ 32; col = 0 }

-- `ADD_TOK`, with the widths of the fields of a token.
unfoldable pub add_tok : TokenKind → Lexer → Lexer
add_tok k lx = record lx {
  tok = record lx.tok {
    kind = k;
    idx = lx.idx % 2 ^ 32;
    line = lx.line;
    col = lx.col % 2 ^ 31;
    err = false;
  };
}

-- `CHANGE_TOK`
unfoldable pub change_tok : TokenKind → Lexer → Lexer
change_tok k lx = record lx { tok = record lx.tok { kind = k } }

-- `ctx->tok.err = 1`
unfoldable pub set_err : Lexer → Lexer
set_err lx = record lx { tok = record lx.tok { err = true } }

unfoldable pub set_len : ℕ → Lexer → Lexer
set_len n lx = record lx { tok = record lx.tok { n = n } }

-- At the label `eof`.
unfoldable pub at_eof : Lexer → Lexer
unfolding set_len add_tok
at_eof lx = set_len 0 (add_tok TokenKind.eof lx)

-- At the label `token_end`.
unfoldable pub token_end : Lexer → Lexer
unfolding set_len
token_end lx = set_len (sub64 lx.idx lx.tok.idx % 2 ^ 26) lx

-- Where a round of a loop leaves it: another round, the end of the loop, or a failed assertion.
pub data Round : Type 0 where
  again : Lexer → Round
  stop : Lexer → Round
  fail : Round

module _ (m : Memory) (buffer : String8) where
  -- `ctx->buffer[i]`
  unfoldable pub char_at : ℕ → ℕ
  char_at i = m (buffer.address + i)

  -- `PEEK`
  unfoldable pub peek : Lexer → ℕ
  peek lx = if ltb (lx.idx + 1) buffer.len then char_at (lx.idx + 1) else 0

  -- The loop over a comment, for at most `n` rounds, with the test behind it. Without braces, only
  -- the first statement of `CONSUME` stands under that test.
  unfoldable pub skip_comment : ℕ → Lexer → Lexer
  skip_comment zero lx = lx
  skip_comment (suc n) lx =
      let lx' = consume 1 lx in
      let rest = skip_comment n lx' in
      if peek lx' == 10
      then consume 1 lx'
      else if ltb 0 (peek lx') && ltb (peek lx') 128
      then rest
      else record lx' { col = (lx'.col + 1) % 2 ^ 32 }

  -- A round of the loop over a number.
  unfoldable pub number_round : Lexer → Round
  number_round lx =
      let ch = char_at lx.idx in
      let lx' = if kind_eq lx.tok.kind TokenKind.float_literal then set_err lx else lx in
      if is_digit ch
      then again (consume 1 lx)
      else if is_letter ch
      then stop (set_err lx)
      else if ch == b'.'
      then (if char_at (lx.idx - 1) == b'.'
          then stop (record lx { idx = lx.idx - 1 })
          else again (consume 1 (change_tok TokenKind.float_literal lx')))
      else stop lx

  -- `n` characters are left.
  unfoldable pub skip_number : ℕ → Lexer → Lexer
  skip_number zero lx = lx
  skip_number (suc n) lx = elim (number_round lx) [
    | again lx' ↦ skip_number n lx'
    | stop lx' ↦ lx'
    | fail ↦ lx
  ]

  -- The loop over a name.
  unfoldable pub skip_name : ℕ → Lexer → Lexer
  skip_name zero lx = lx
  skip_name (suc n) lx =
      let rest = skip_name n (consume 1 lx) in if in_name (char_at lx.idx) then rest else lx

  -- The loop over a string literal, with what is done behind it.
  unfoldable pub skip_literal : ℕ → ℕ → Lexer → Lexer
  skip_literal ch zero lx = set_err lx
  skip_literal ch (suc n) lx =
      let lx' = consume 1 lx in
      let rest = skip_literal ch n lx' in if char_at lx'.idx == ch then consume 1 lx' else rest

  -- The end of a name, which may be a reserved word. `Token::ss` asserts that the name is not the
  -- whole text.
  unfoldable pub name_end : Lexer → Round
  unfolding token_end change_tok
  name_end lx =
      let lx' = token_end lx in
      let word = get_reserved_word (bytes m (buffer.address + lx'.tok.idx) lx'.tok.n) in
      if ltb lx'.tok.n buffer.len
      then elim word [ none ↦ stop lx' | some k ↦ stop (change_tok k lx') ]
      else fail

  -- A round of the `for` loop: the `switch` at a character.
  unfoldable pub lex_char : CharCase → Lexer → Round
  lex_char eof lx = stop (at_eof lx)
  lex_char blank lx = again (consume 1 lx)
  lex_char comment lx = again (skip_comment (suc (buffer.len - lx.idx)) lx)
  lex_char newline lx = stop (token_end (consume_next_line (add_tok TokenKind.statement_end lx)))
  lex_char (single k) lx = stop (token_end (consume 1 (add_tok k lx)))
  lex_char (pair k k') lx =
      if peek lx == b'='
      then stop (token_end (consume 2 (add_tok k' lx)))
      else stop (token_end (consume 1 (add_tok k lx)))
  lex_char dot lx =
      if peek lx == b'.'
      then stop (token_end (consume 2 (add_tok TokenKind.double_dot_op lx)))
      else stop (token_end (consume 1 (add_tok TokenKind.dot_op lx)))
  lex_char equals lx =
      if peek lx == b'>'
      then stop (token_end (consume 2 (add_tok TokenKind.map_op lx)))
      else if peek lx == b'='
      then stop (token_end (consume 2 (add_tok TokenKind.equality_op lx)))
      else stop (token_end (consume 1 (add_tok TokenKind.equals_op lx)))
  lex_char digit lx =
      let first = consume 1 (add_tok TokenKind.int_literal lx) in
      stop (token_end (skip_number (buffer.len - first.idx) first))
  lex_char letter lx =
      let first = consume 1 (add_tok TokenKind.identifier lx) in
      name_end (skip_name (buffer.len - first.idx) first)
  lex_char quote lx =
      let first = consume 1 (add_tok TokenKind.string_literal lx) in
      stop (token_end (skip_literal (char_at lx.idx) (buffer.len - first.idx) first))
  lex_char other lx = again lx

  -- The `for` loop, on fuel. `none` stands for a failed assertion or more rounds than the fuel.
  unfoldable pub lex_loop : ℕ → Lexer → Option Lexer
  lex_loop zero lx = none
  lex_loop (suc fuel) lx = elim (lex_char (char_case (char_at lx.idx)) lx) [
    | again lx' ↦ lex_loop fuel lx'
    | stop lx' ↦ some lx'
    | fail ↦ none
  ]

  unfoldable pub lex_next : ℕ → Lexer → Option Lexer
  lex_next fuel lx = if lx.idx == buffer.len then some (at_eof lx) else lex_loop fuel lx
