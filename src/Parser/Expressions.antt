-- ===== src/Parser/Expressions.antt =====
-- The branches of `parse_expression_base` in examples/parser.cpp that call other parsers, over these. A
-- loop takes its number of rounds.
use cxb.Prelude.{ℕ, zero, suc, Bool, true, false, if◌then◌else◌}
use cxb.Lexer.Tokens.{Token, TokenKind, kind_eq, is_unary_op}
use cxb.Ast.{AstNode, Pointer, NodeKind, null, to, var_decl_data, set_last_kid}
use cxb.Parser.Literals.{parse_import, parse_jump, parse_for, parse_literal}
use cxb.Parser.Operators.{parse_unary}
use cxb.Parser.State.{
  Source, Parse, ◌>>=◌, ◌>>◌, pure, give_up, Message, deref, add_err, add_node, add_bare_node,
  add_tok_node, add_kid, expect_wn, peek, next, peek_is, consume, consume_expect_wn,
}

module _ (src : Source) where
  -- A scope in brackets, whose statements the last call reads.
  unfoldable pub parse_scope : (AstNode → Parse AstNode) → Parse Pointer
  parse_scope parse_statement_list = do
    body ← add_bare_node NodeKind.body
    scope_bracket ← next src
    body' ← expect_wn scope_bracket TokenKind.scope_bracket_left body
    body'' ← parse_statement_list body'
    pure (to body'')

  module _ (parse_expression : Parse Pointer) where
    -- `TOK_BRACKET_LEFT`
    unfoldable pub parse_bracket : Parse Pointer
    parse_bracket = do
      consume src
      expr ← parse_expression
      closed ← peek_is src TokenKind.bracket_right
      if closed then (consume src >> pure expr) else (do
        node ← deref expr
        node' ← add_err node Message.unmatched_bracket
        pure (to node'))

    -- `TOK_RETURN_KEYWORD`
    unfoldable pub parse_return : Parse Pointer
    parse_return = do
      consume src
      node ← add_bare_node NodeKind.ret
      ends ← peek_is src TokenKind.statement_end
      if ends
          then pure (to node)
          else (do body ← parse_expression; node' ← add_kid node body; pure (to node'))

    -- `TOK_DEFER_KEYWORD`
    unfoldable pub parse_defer : Parse Pointer
    parse_defer = do
      consume src
      node ← add_bare_node NodeKind.defer
      body ← parse_expression
      node' ← add_kid node body
      pure (to node')

    -- `TOK_WHILE_KEYWORD`
    unfoldable pub parse_while : Parse Pointer
    parse_while = do
      consume src
      node ← add_bare_node NodeKind.while_node
      cond ← parse_expression
      body ← parse_expression
      node' ← add_kid node cond
      node'' ← add_kid node' body
      pure (to node'')

    -- A condition, a colon that may be left out, and a body, which become the kids of the node.
    unfoldable pub parse_condition : AstNode → Parse AstNode
    parse_condition node = do
      cond ← parse_expression
      colon ← peek_is src TokenKind.colon_op
      if colon then consume src else pure tt
      body ← parse_expression
      node' ← add_kid node cond
      add_kid node' body

    -- The `else` that ends the loop over the branches.
    unfoldable pub parse_else : AstNode → Parse AstNode
    parse_else node = do
      el ← add_bare_node NodeKind.else_node
      body ← parse_expression
      el' ← add_kid el body
      node' ← add_kid node (to el')
      again ← peek_is src TokenKind.else_keyword
      pure node'

    -- The loop over the branches behind the first.
    unfoldable pub parse_branches : ℕ → AstNode → Parse AstNode
    parse_branches zero node = give_up
    parse_branches (suc n) node = do
      more ← peek_is src TokenKind.else_keyword
      let elif = (do
        consume src
        elif ← add_bare_node NodeKind.elif_node
        elif' ← parse_condition elif
        node' ← add_kid node (to elif')
        parse_branches n node')
      let other =
          (consume src >> peek_is src TokenKind.if_keyword >>= λ again.
          if again then elif else parse_else node)
      if more then other else pure node

    -- `TOK_IF_KEYWORD`
    unfoldable pub parse_if : ℕ → Parse Pointer
    parse_if n = do
      consume src
      node ← add_bare_node NodeKind.if_node
      node' ← parse_condition node
      node'' ← parse_branches n node'
      pure (to node'')

    -- The loop over the arguments of a call, which are the kids of `args`.
    unfoldable pub parse_arguments : ℕ → AstNode → Parse AstNode
    parse_arguments zero args = give_up
    parse_arguments (suc n) args = do
      closed ← peek_is src TokenKind.bracket_right
      let argument = (do
        arg ← parse_expression
        args' ← add_kid args arg
        comma ← peek_is src TokenKind.comma
        if comma then consume src else pure tt
        parse_arguments n args')
      if closed then pure args else argument

    -- A name and an opening bracket. The node for the arguments is a kid before it gets its own.
    unfoldable pub parse_call : ℕ → Token → Parse Pointer
    parse_call n id = do
      consume src
      fn ← add_tok_node NodeKind.func_call id
      args ← add_bare_node NodeKind.params
      fn' ← add_kid fn (to args)
      args' ← parse_arguments n args
      args'' ← consume_expect_wn src TokenKind.bracket_right args'
      pure (to (set_last_kid fn' (to args'')))

    -- A name and `:=`.
    unfoldable pub parse_inferred_decl : Token → Parse Pointer
    parse_inferred_decl id = do
      consume src
      node ← add_node NodeKind.var_decl (var_decl_data false) id false
      assign ← parse_expression
      node' ← add_kid node null
      node'' ← add_kid node' assign
      pure (to node'')

    -- `PEEK.kind == TOK_EQUALS_OP || PEEK.kind == TOK_COLON_EQUALS_OP`
    unfoldable pub assigns : Parse Bool
    assigns = do
      t ← peek src
      if kind_eq t.kind TokenKind.equals_op
          then pure true
          else peek_is src TokenKind.colon_equals_op

    -- The kid for the value of a declaration: it is null if no assignment follows.
    unfoldable pub parse_assigned : AstNode → Parse AstNode
    parse_assigned node = do
      has_value ← assigns
      if has_value
          then (consume src >> parse_expression >>= λ value. add_kid node value)
          else add_kid node null

    module _ (parse_expression_base : Parse Pointer) where
      -- A name, a colon and a type.
      unfoldable pub parse_typed_decl : Token → Parse Pointer
      parse_typed_decl id = do
        consume src
        node ← add_tok_node NodeKind.var_decl id
        type_expr ← parse_expression_base
        has_value ← assigns
        value ← if has_value then (consume src >> parse_expression) else pure null
        node' ← add_kid node type_expr
        node'' ← add_kid node' value
        pure (to node'')

      -- `TOK_IDENTIFIER`
      unfoldable pub parse_identifier : ℕ → Parse Pointer
      parse_identifier n = do
        id ← next src
        t ← peek src
        if kind_eq t.kind TokenKind.colon_op
            then parse_typed_decl id
            else if kind_eq t.kind TokenKind.colon_equals_op
            then parse_inferred_decl id
            else if kind_eq t.kind TokenKind.bracket_left
            then parse_call n id
            else (add_tok_node NodeKind.identifier id >>= λ node. pure (to node))

      -- The branches on the kind of the next token.
      unfoldable pub parse_branch : ℕ → (AstNode → Parse AstNode) → TokenKind → Parse Pointer
      parse_branch n parse_statement_list k =
          if kind_eq k TokenKind.bracket_left
          then parse_bracket
          else if kind_eq k TokenKind.scope_bracket_left
          then parse_scope parse_statement_list
          else if is_unary_op k
          then parse_unary src parse_expression_base
          else if kind_eq k TokenKind.import_keyword
          then parse_import src
          else if kind_eq k TokenKind.return_keyword
          then parse_return
          else if kind_eq k TokenKind.defer_keyword
          then parse_defer
          else if kind_eq k TokenKind.continue_keyword
          then parse_jump src NodeKind.cont_node
          else if kind_eq k TokenKind.break_keyword
          then parse_jump src NodeKind.break_node
          else if kind_eq k TokenKind.while_keyword
          then parse_while
          else if kind_eq k TokenKind.for_keyword
          then parse_for src
          else if kind_eq k TokenKind.if_keyword
          then parse_if n
          else if kind_eq k TokenKind.identifier
          then parse_identifier n
          else parse_literal src k

      -- The body of `parse_expression_base`.
      unfoldable pub parse_operand : ℕ → (AstNode → Parse AstNode) → Parse Pointer
      parse_operand n parse_statement_list =
          peek src >>= λ t. parse_branch n parse_statement_list t.kind
