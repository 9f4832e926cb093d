-- ===== src/Lexer/Labels.antt =====
-- The labels of the `switch` of `lex_next` in examples/parser.cpp.
use cxb.Prelude.{ℕ, Bool, ◌&&◌, ◌||◌, ◌==◌, leb, if◌then◌else◌}
use cxb.Lexer.Tokens.{TokenKind}

-- How the `switch` of `lex_next` treats a character. `single` is a token of one character, and
-- `pair` one of two where `=` follows.
pub data CharCase : Type 0 where
  eof : CharCase
  blank : CharCase
  comment : CharCase
  newline : CharCase
  single : TokenKind → CharCase
  pair : TokenKind → TokenKind → CharCase
  dot : CharCase
  equals : CharCase
  digit : CharCase
  letter : CharCase
  quote : CharCase
  other : CharCase

unfoldable pub is_digit : ℕ → Bool
is_digit c = leb b'0' c && leb c b'9'

unfoldable pub is_letter : ℕ → Bool
is_letter c = (leb b'a' c && leb c b'z') || (leb b'A' c && leb c b'Z')

-- The characters of a name.
unfoldable pub in_name : ℕ → Bool
unfolding is_digit is_letter
in_name ch = is_digit ch || is_letter ch

-- The labels of the `switch`; no label fits `other`.
unfoldable pub char_case : ℕ → CharCase
unfolding is_digit is_letter
char_case c =
    if c == 255 || c == 0
    then eof
    else if c == b' ' || c == 9
    then blank
    else if c == b'#'
    then comment
    else if c == 10
    then newline
    else if c == b';'
    then single TokenKind.statement_end
    else if c == b'+'
    then pair TokenKind.plus_op TokenKind.plus_equals_op
    else if c == b'-'
    then pair TokenKind.minus_op TokenKind.minus_equals_op
    else if c == b'*'
    then pair TokenKind.mul_op TokenKind.mul_equals_op
    else if c == b'/'
    then pair TokenKind.div_op TokenKind.div_equals_op
    else if c == b'&'
    then pair TokenKind.and_op TokenKind.and_equals_op
    else if c == b'|'
    then pair TokenKind.or_op TokenKind.or_equals_op
    else if c == b','
    then single TokenKind.comma
    else if c == b'('
    then single TokenKind.bracket_left
    else if c == b')'
    then single TokenKind.bracket_right
    else if c == b'['
    then single TokenKind.index_bracket_left
    else if c == b']'
    then single TokenKind.index_bracket_right
    else if c == b'{'
    then single TokenKind.scope_bracket_left
    else if c == b'}'
    then single TokenKind.scope_bracket_right
    else if c == b':'
    then pair TokenKind.colon_op TokenKind.colon_equals_op
    else if c == b'.'
    then dot
    else if c == b'>'
    then pair TokenKind.greater_than_op TokenKind.greater_than_equal_to_op
    else if c == b'<'
    then pair TokenKind.less_than_op TokenKind.less_than_equal_to_op
    else if c == b'='
    then equals
    else if is_digit c
    then digit
    else if is_letter c
    then letter
    else if c == 39 || c == 34
    then quote
    else other
