-- ===== src/Parser/Literals.antt =====
-- The branches of `parse_expression_base` in examples/parser.cpp that call no other parser.
use cxb.Prelude.{ℕ, ◌+◌, ◌%◌, ◌^◌, Bool, true, ◌||◌, ◌==◌, ltb, if◌then◌else◌}
use cxb.Text.{bytes}
use cxb.Lexer.Tokens.{Token, TokenKind, kind_eq}
use cxb.Lexer.Literal.{atoi128}
use cxb.Ast.{AstNode, Pointer, NodeKind, null, to, numeral_literal, set_err, set_content}
use cxb.Parser.State.{
  Source, Outcome, done, Parse, ◌>>=◌, ◌>>◌, pure, Message, add_err_no_node, add_err, add_node,
  add_bare_node, add_tok_node, expect_wn, next, consume, consume_expect,
}

module _ (src : Source) where
  -- The assertion of `Token::ss` on the text.
  unfoldable pub check_token : Token → Parse (Unit {0})
  check_token lit p = if ltb lit.n src.buffer.len then done (tt, p) else Outcome.stopped

  unfoldable pub parse_number_value : Token → AstNode → ℕ × Bool → Parse Pointer
  parse_number_value lit node literal =
      if literal.1
      then pure (to (set_content (numeral_literal (literal.0 % 2 ^ 64)) node))
      else (add_err (set_err true node) Message.literal_not_valid >>= λ n. pure (to n))

  -- A literal that `atoi128` reads: `TOK_INT_LITERAL` and `TOK_FLOAT_LITERAL`.
  unfoldable pub parse_number : Parse Pointer
  parse_number = do
    lit ← next src
    check_token lit
    node ← add_tok_node NodeKind.int_lit lit
    if lit.err
        then pure (to (set_err true node))
        else parse_number_value lit node
            (atoi128 (bytes src.memory (src.buffer.address + lit.idx) lit.n))

  -- `TOK_BOOL_LITERAL`
  unfoldable pub parse_bool : Parse Pointer
  parse_bool = do
    lit ← next src
    node ← add_tok_node NodeKind.bool_lit lit
    check_token lit
    let is_true = src.memory (src.buffer.address + lit.idx) == b't'
    pure (to (set_content (numeral_literal (if is_true then 1 else 0)) node))

  -- `TOK_NIL_LITERAL`
  unfoldable pub parse_nil : Parse Pointer
  parse_nil = do lit ← next src; node ← add_tok_node NodeKind.nil_lit lit; pure (to node)

  -- `TOK_STRING_LITERAL`
  unfoldable pub parse_string : Parse Pointer
  parse_string = do
    lit ← next src
    node ← add_node NodeKind.string_lit (numeral_literal 0) lit lit.err
    pure (to node)

  -- `TOK_IMPORT_KEYWORD`
  unfoldable pub parse_import : Parse Pointer
  parse_import = do
    consume src
    identifier ← next src
    node ← add_tok_node NodeKind.import_node identifier
    node' ← expect_wn identifier TokenKind.identifier node
    pure (to node')

  -- `TOK_CONTINUE_KEYWORD` and `TOK_BREAK_KEYWORD`
  unfoldable pub parse_jump : NodeKind → Parse Pointer
  parse_jump k = do
    consume src
    consume_expect src TokenKind.statement_end
    node ← add_bare_node k
    pure (to node)

  -- `TOK_FOR_KEYWORD`
  unfoldable pub parse_for : Parse Pointer
  parse_for = do consume src; add_err_no_node Message.for_unsupported; pure null

  -- A token that starts no expression.
  unfoldable pub parse_no_expression : TokenKind → Parse Pointer
  parse_no_expression k =
      if kind_eq k TokenKind.statement_end || kind_eq k TokenKind.eof
      then pure null
      else (add_err_no_node Message.unexpected_token >> pure null)

  -- The branches from `TOK_FLOAT_LITERAL` on.
  unfoldable pub parse_literal : TokenKind → Parse Pointer
  parse_literal k =
      if kind_eq k TokenKind.float_literal
      then parse_number
      else if kind_eq k TokenKind.bool_literal
      then parse_bool
      else if kind_eq k TokenKind.nil_literal
      then parse_nil
      else if kind_eq k TokenKind.int_literal
      then parse_number
      else if kind_eq k TokenKind.string_literal
      then parse_string
      else parse_no_expression k
