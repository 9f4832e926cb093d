-- ===== src/Parser/Operators.antt =====
-- `parse_expression` of examples/parser.cpp and the unary operators, over a parser of operands.
use cxb.Prelude.{ℕ, zero, suc, ltb, if◌then◌else◌}
use cxb.Lexer.Tokens.{TokenKind, code, is_binary_op}
use cxb.Ast.{AstNode, Pointer, NodeKind, to, head, set_err}
use cxb.Parser.State.{
  Source, Parse, ◌>>=◌, pure, give_up, deref, get_kid, put_kid, kid_errs, add_tok_node, add_kid,
  peek, next,
}

-- The operator is put below the last one: it takes the right operand of `lhs` as its left.
unfoldable pub rotate : AstNode → AstNode → Parse AstNode
rotate lhs curr = do
  inner ← get_kid lhs 1
  curr' ← put_kid curr 0 inner
  e ← kid_errs curr'
  lhs' ← put_kid lhs 1 (to (set_err e curr'))
  pure (set_err e lhs')

module _ (src : Source) (parse_expression_base : Parse Pointer) where
  -- A unary operator.
  unfoldable pub parse_unary : Parse Pointer
  parse_unary = do
    op ← next src
    node ← add_tok_node NodeKind.unary_op op
    expr ← parse_expression_base
    node' ← add_kid node expr
    pure (to node')

  -- The loop over the operators, with `lhs` and `lhs_op`.
  unfoldable pub parse_operators : ℕ → Pointer → TokenKind → Parse Pointer
  parse_operators zero lhs lhs_op = give_up
  parse_operators (suc n) lhs lhs_op = do
    t ← peek src
    let operation = (do
      op ← next src
      rhs ← parse_expression_base
      node ← add_tok_node NodeKind.bin_op op
      node' ← add_kid node lhs
      curr ← add_kid node' rhs
      let below = (do
        outer ← deref lhs
        outer' ← rotate outer curr
        parse_operators n (to outer') (head outer').tok.kind)
      let above = (do e ← kid_errs curr; parse_operators n (to (set_err e curr)) op.kind)
      if ltb (code op.kind) (code lhs_op) then below else above)
    if is_binary_op t.kind then operation else pure lhs

  -- The body of `parse_expression`.
  unfoldable pub parse_operation : ℕ → Parse Pointer
  parse_operation n = parse_expression_base >>= λ lhs. parse_operators n lhs TokenKind.uninitialized
