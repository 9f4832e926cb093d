-- ===== src/Lexer/Tokens.antt =====
-- The tokens of the example language, `TokenKind` and `Token` of examples/parser.h.
use cxb.Prelude.{ℕ, Bool, ◌&&◌, ◌==◌, leb}

-- The kinds, less the names that mark the first and the last operator.
pub data TokenKind : Type 0 where
  uninitialized : TokenKind
  eof : TokenKind
  error : TokenKind
  statement_end : TokenKind
  return_keyword : TokenKind
  const_keyword : TokenKind
  var_keyword : TokenKind
  type_keyword : TokenKind
  struct_keyword : TokenKind
  union_keyword : TokenKind
  enum_keyword : TokenKind
  function_keyword : TokenKind
  defer_keyword : TokenKind
  import_keyword : TokenKind
  while_keyword : TokenKind
  for_keyword : TokenKind
  continue_keyword : TokenKind
  break_keyword : TokenKind
  static_keyword : TokenKind
  if_keyword : TokenKind
  elif_keyword : TokenKind
  else_keyword : TokenKind
  switch_keyword : TokenKind
  case_keyword : TokenKind
  identifier : TokenKind
  string_literal : TokenKind
  int_literal : TokenKind
  float_literal : TokenKind
  bool_literal : TokenKind
  nil_literal : TokenKind
  map_op : TokenKind
  not_op : TokenKind
  mul_op : TokenKind
  div_op : TokenKind
  minus_op : TokenKind
  plus_op : TokenKind
  less_than_op : TokenKind
  less_than_equal_to_op : TokenKind
  greater_than_op : TokenKind
  greater_than_equal_to_op : TokenKind
  equality_op : TokenKind
  not_equal_op : TokenKind
  and_op : TokenKind
  or_op : TokenKind
  equals_op : TokenKind
  colon_equals_op : TokenKind
  plus_equals_op : TokenKind
  minus_equals_op : TokenKind
  mul_equals_op : TokenKind
  div_equals_op : TokenKind
  and_equals_op : TokenKind
  or_equals_op : TokenKind
  dot_op : TokenKind
  double_dot_op : TokenKind
  colon_op : TokenKind
  comma : TokenKind
  bracket_left : TokenKind
  bracket_right : TokenKind
  index_bracket_left : TokenKind
  index_bracket_right : TokenKind
  scope_bracket_left : TokenKind
  scope_bracket_right : TokenKind

-- The number of a kind.
unfoldable pub code : TokenKind → ℕ
code uninitialized = 0
code eof = 1
code error = 2
code statement_end = 3
code return_keyword = 4
code const_keyword = 5
code var_keyword = 6
code type_keyword = 7
code struct_keyword = 8
code union_keyword = 9
code enum_keyword = 10
code function_keyword = 11
code defer_keyword = 12
code import_keyword = 13
code while_keyword = 14
code for_keyword = 15
code continue_keyword = 16
code break_keyword = 17
code static_keyword = 18
code if_keyword = 19
code elif_keyword = 20
code else_keyword = 21
code switch_keyword = 22
code case_keyword = 23
code identifier = 24
code string_literal = 25
code int_literal = 26
code float_literal = 27
code bool_literal = 28
code nil_literal = 29
code map_op = 30
code not_op = 31
code mul_op = 33
code div_op = 34
code minus_op = 35
code plus_op = 36
code less_than_op = 37
code less_than_equal_to_op = 38
code greater_than_op = 39
code greater_than_equal_to_op = 40
code equality_op = 41
code not_equal_op = 42
code and_op = 43
code or_op = 44
code equals_op = 45
code colon_equals_op = 46
code plus_equals_op = 47
code minus_equals_op = 48
code mul_equals_op = 49
code div_equals_op = 50
code and_equals_op = 51
code or_equals_op = 52
code dot_op = 53
code double_dot_op = 54
code colon_op = 55
code comma = 56
code bracket_left = 57
code bracket_right = 58
code index_bracket_left = 59
code index_bracket_right = 60
code scope_bracket_left = 61
code scope_bracket_right = 62

unfoldable pub kind_eq : TokenKind → TokenKind → Bool
unfolding code
kind_eq a b = code a == code b

-- From `TOK_IMPL_BIN_OP_BEGIN` to `TOK_IMPL_BIN_OP_END`.
unfoldable pub is_binary_op : TokenKind → Bool
is_binary_op k = leb 33 (code k) && leb (code k) 51

-- From `TOK_IMPL_UNARY_OP_BEGIN` to `TOK_IMPL_UNARY_OP_END`.
unfoldable pub is_unary_op : TokenKind → Bool
is_unary_op k = leb 32 (code k) && leb (code k) 36

pub record Token : Type 0 where
  pub kind : TokenKind
  pub idx : ℕ
  pub n : ℕ
  pub line : ℕ
  pub col : ℕ
  pub err : Bool
