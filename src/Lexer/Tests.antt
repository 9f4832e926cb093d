-- ===== src/Lexer/Tests.antt =====
-- Runs of the lexer on short texts, and its theorems at those texts.
use Prim.Native.String.{String}
use cxb.Prelude.{
  ◌^◌, ◌-◌, ℕ, zero, suc, ◌≡◌, refl, Bool, true, false, Option, none, some, List, [], ◌∷◌, arith,
  codes,
}
use cxb.Text.{Memory, String8}
use cxb.Lexer.Tokens.{Token, TokenKind}
use cxb.Lexer.{Lexer, char_at, lex_next}
use cxb.Lexer.Labels.{other, char_case, in_name}
use cxb.Lexer.Span.{IsSpan}
use cxb.Lexer.Stream.{Stream, is_used, next_tok}
use cxb.Lexer.Literal.{atoi128, atoi128_correct}
use cxb.Lexer.Progress.{IsKnown, lex_next_correct, lex_next_stuck}

abbrev byte_at : List ℕ → ℕ → ℕ
byte_at [] i = 0
byte_at (x ∷ xs) zero = x
byte_at (x ∷ xs) (suc i) = byte_at xs i

-- A text at address 0, with a zero behind it.
abbrev text : String → Memory
text s i = byte_at (codes s) i

abbrev first : ℕ → String8
first n = record { address = 0; len = n; not_null_term = false }

abbrev no_token : Token
no_token = record { kind = TokenKind.uninitialized; idx = 0; n = 0; line = 0; col = 0; err = false }

abbrev name_x : Token
name_x = record { kind = TokenKind.identifier; idx = 0; n = 1; line = 0; col = 0; err = false }

abbrev at : ℕ → Lexer
at i = record { idx = i; line = 0; col = i; tok = no_token }

abbrev token_of : Option Lexer → TokenKind × ℕ × ℕ × Bool
token_of none = (TokenKind.error, 0, 0, true)
token_of (some lx) = (lx.tok.kind, lx.tok.idx, lx.tok.n, lx.tok.err)

name_first :
    token_of (lex_next (text "if1 += 2.5") (first 10) 20 (at 0))
    ≡ (TokenKind.identifier, 0, 3, false)
unfolding lex_next cxb.Lexer.lex_loop cxb.Lexer.lex_char char_case char_at cxb.Lexer.name_end
    cxb.Lexer.Words.get_reserved_word cxb.Lexer.Words.find_word cxb.Lexer.Words.reserved_words
    cxb.Lexer.Words.name_eq cxb.Lexer.skip_name cxb.Lexer.consume cxb.Lexer.add_tok in_name
name_first = refl

sum_next :
    token_of (lex_next (text "if1 += 2.5") (first 10) 20 (at 3))
    ≡ (TokenKind.plus_equals_op, 4, 2, false)
unfolding lex_next cxb.Lexer.lex_loop cxb.Lexer.lex_char char_case char_at cxb.Lexer.consume
    cxb.Lexer.peek cxb.Lexer.token_end cxb.Lexer.add_tok
sum_next = refl

float_next :
    token_of (lex_next (text "if1 += 2.5") (first 10) 20 (at 6))
    ≡ (TokenKind.float_literal, 7, 3, false)
unfolding lex_next cxb.Lexer.lex_loop cxb.Lexer.lex_char char_case char_at cxb.Lexer.consume
    cxb.Lexer.token_end cxb.Lexer.skip_number cxb.Lexer.add_tok cxb.Lexer.number_round
    cxb.Lexer.change_tok cxb.Lexer.Tokens.kind_eq
float_next = refl

keyword :
    token_of (lex_next (text "if 1") (first 4) 20 (at 0)) ≡ (TokenKind.if_keyword, 0, 2, false)
unfolding lex_next cxb.Lexer.lex_loop cxb.Lexer.lex_char char_case char_at cxb.Lexer.name_end
    cxb.Lexer.Words.get_reserved_word cxb.Lexer.Words.find_word cxb.Lexer.Words.reserved_words
    cxb.Lexer.Words.name_eq cxb.Lexer.skip_name cxb.Lexer.consume cxb.Lexer.add_tok in_name
keyword = refl

-- The first `.` has made the number a float when the second one takes it back.
range :
    token_of (lex_next (text "1..2") (first 4) 20 (at 0)) ≡ (TokenKind.float_literal, 0, 1, false)
unfolding lex_next cxb.Lexer.lex_loop cxb.Lexer.lex_char char_case char_at cxb.Lexer.token_end
    cxb.Lexer.skip_number cxb.Lexer.consume cxb.Lexer.add_tok cxb.Lexer.number_round
    cxb.Lexer.change_tok cxb.Lexer.Tokens.kind_eq
range = refl

literal :
    token_of (lex_next (text "'ab' ") (first 5) 20 (at 0)) ≡ (TokenKind.string_literal, 0, 4, false)
unfolding lex_next cxb.Lexer.lex_loop cxb.Lexer.lex_char char_case char_at cxb.Lexer.token_end
    cxb.Lexer.skip_literal cxb.Lexer.consume cxb.Lexer.add_tok
literal = refl

-- An empty literal runs on to the end of the text.
empty_literal :
    token_of (lex_next (text "'' 1") (first 4) 20 (at 0)) ≡ (TokenKind.string_literal, 0, 4, true)
unfolding lex_next cxb.Lexer.lex_loop cxb.Lexer.lex_char char_case char_at cxb.Lexer.token_end
    cxb.Lexer.skip_literal cxb.Lexer.consume cxb.Lexer.add_tok cxb.Lexer.set_err
empty_literal = refl

-- A text that is one name fails the assertion of `Token::ss`.
one_name : lex_next (text "ab") (first 2) 20 (at 0) ≡ none
unfolding lex_next cxb.Lexer.lex_loop cxb.Lexer.lex_char char_case char_at cxb.Lexer.name_end
    cxb.Lexer.skip_name cxb.Lexer.consume cxb.Lexer.add_tok in_name
one_name = refl

-- A comment at the end of the text leaves its last character.
last_comment :
    token_of (lex_next (text "# 7") (first 3) 20 (at 0)) ≡ (TokenKind.int_literal, 2, 1, false)
unfolding lex_next cxb.Lexer.lex_loop cxb.Lexer.lex_char char_case char_at cxb.Lexer.skip_comment
    cxb.Lexer.peek cxb.Lexer.consume cxb.Lexer.token_end cxb.Lexer.skip_number cxb.Lexer.add_tok
last_comment = refl

assignment : IsKnown (text "x =") (first 3) 1
unfolding char_case char_at
assignment zero a b = absurd (omega arith)
assignment (suc zero) a b = λ e. cc
assignment (suc (suc zero)) a b = λ e. cc
assignment (suc (suc (suc i))) a b = absurd (omega arith)

assign_no_name : in_name (char_at (text "x =") (first 3) 2) ≡ false
unfolding in_name char_at
assign_no_name = refl

lex_next_correct_example :
    (lx : Lexer) × (lex_next (text "x =") (first 3) 4 (at 1) ≡ some lx)
    × IsSpan (text "x =") (first 3) 1 lx
lex_next_correct_example =
    lex_next_correct (text "x =") (first 3)
      (record {
        small = omega arith;
        terminated = refl;
        no_name = (2, omega arith, assign_no_name);
      })
      (at 1) (omega arith) assignment

exclamation : char_case (char_at (text "a!") (first 2) 1) ≡ other
unfolding char_case char_at
exclamation = refl

lex_next_stuck_example : lex_next (text "a!") (first 2) 50 (at 1) ≡ none
lex_next_stuck_example = lex_next_stuck (text "a!") (first 2) (at 1) (omega arith) exclamation 50

-- The stream at the start of a text, before its first token.
abbrev at_start : Stream
at_start = record { lexer = at 0; curr_tok = no_token; next_tok = no_token }

abbrev after_first : Stream
after_first = record {
  lexer = record { idx = 1; line = 0; col = 1; tok = name_x };
  curr_tok = name_x;
  next_tok = no_token;
}

first_taken : next_tok (text "x =") (first 3) 4 at_start ≡ some after_first
unfolding next_tok cxb.Lexer.Tokens.kind_eq lex_next cxb.Lexer.lex_loop cxb.Lexer.lex_char char_case
    char_at cxb.Lexer.name_end cxb.Lexer.skip_name cxb.Lexer.consume cxb.Lexer.add_tok in_name
    cxb.Lexer.Words.get_reserved_word cxb.Lexer.Words.find_word cxb.Lexer.Words.reserved_words
    cxb.Lexer.Words.name_eq
first_taken = refl

live : is_used name_x ≡ false
unfolding is_used cxb.Lexer.Tokens.kind_eq
live = refl

-- A sign alone is a valid literal.
lone_sign : atoi128 (b'-' ∷ []) ≡ (0, true)
unfolding atoi128 cxb.Lexer.Literal.atoi_char
lone_sign = refl

late_sign : atoi128 (b'4' ∷ b'-' ∷ b'2' ∷ []) ≡ (2 ^ 128 - 4, false)
unfolding atoi128 cxb.Lexer.Literal.atoi_char
late_sign = refl
