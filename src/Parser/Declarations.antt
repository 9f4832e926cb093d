-- ===== src/Parser/Declarations.antt =====
-- `parse_type_decl`, `parse_var_decl`, `parse_args_decl`, `parse_func_decl`, `parse_statement` and
-- `parse_statement_list` of examples/parser.cpp, over the calls of the parsers of expressions.
use cxb.Prelude.{ℕ, zero, suc, Bool, true, false, ◌||◌, ◌&&◌, if◌then◌else◌}
use cxb.Lexer.Tokens.{Token, TokenKind, kind_eq}
use cxb.Ast.{
  AstNode, Pointer, NodeKind, Kids, ast, null, to, no_kids, kid, flat, union_kind, var_decl_data,
  param_list, head, kids, kind_eq as node_kind_eq, with_kid, set_last_kid, set_err, set_kind,
  set_content, set_statement,
}
use cxb.Parser.State.{
  Source, Parse, ◌>>=◌, ◌>>◌, pure, give_up, Message, deref, add_err, add_node, add_bare_node,
  add_tok_node, add_kid, no_token, expect, expect_wn, peek, next, peek_is, consume, consume_expect,
  consume_expect_wn,
}
use cxb.Parser.Expressions.{parse_assigned}

-- The kind of the node that a token behind `type <name> =` asks for, and whether it is consumed.
unfoldable pub decl_kind : TokenKind → NodeKind × Bool
decl_kind TokenKind.union_keyword = (NodeKind.union_decl, true)
decl_kind TokenKind.enum_keyword = (NodeKind.enum_decl, true)
decl_kind TokenKind.struct_keyword = (NodeKind.struct_decl, true)
decl_kind TokenKind.scope_bracket_left = (NodeKind.struct_decl, false)
decl_kind _ = (NodeKind.typealias_decl, false)

-- `node->err |= b`
unfoldable pub or_err : Bool → AstNode → AstNode
or_err b node = set_err ((head node).err || b) node

-- The operands of a union that are binary operators must be `or`.
unfoldable pub check_union : Kids → Parse Kids
check_union no_kids = pure no_kids
check_union (kid q ks) = do
  k ← deref q
  k' ←
      if node_kind_eq (head k).kind NodeKind.bin_op
      then expect_wn (head k).tok TokenKind.or_op k
      else pure k
  ks' ← check_union ks
  pure (kid (to k') ks')

-- A statement becomes a kid, and its error flag is passed on. The kids are on an arena of their own,
-- of 16 KiB, whose end is left out.
unfoldable pub add_statement : AstNode → AstNode → AstNode
add_statement node statement =
    with_kid (or_err (head statement).err node) (to (set_statement statement))

-- The inner loop of `parse_statement_list`.
unfoldable pub skip_statement_ends : Source → ℕ → Parse (Unit {0})
skip_statement_ends src zero = give_up
skip_statement_ends src (suc n) = do
  ends ← peek_is src TokenKind.statement_end
  let skip = (consume src >> skip_statement_ends src n)
  if ends then skip else pure tt

module _ (src : Source) (parse_expression parse_expression_base : Parse Pointer) where
  -- The kid for the default of a field.
  unfoldable pub parse_default : AstNode → Parse AstNode
  parse_default field = do
    has_value ← peek_is src TokenKind.equals_op
    if has_value then (parse_expression >>= λ value. add_kid field value) else add_kid field null

  -- The loop over the fields of a type. A field is a kid before it gets its own.
  unfoldable pub parse_fields : ℕ → AstNode → Parse AstNode
  parse_fields zero node = give_up
  parse_fields (suc n) node = do
    closed ← peek_is src TokenKind.scope_bracket_right
    let field = (do
      field_name ← next src
      expect field_name TokenKind.identifier
      node' ← consume_expect_wn src TokenKind.colon_op node
      field ← add_tok_node NodeKind.var_decl field_name
      with_field ← add_kid node' (to field)
      field_type ← parse_expression_base
      typed ← add_kid field field_type
      field' ← parse_default typed
      let node'' = set_last_kid with_field (to field')
      last ← peek_is src TokenKind.scope_bracket_right
      node''' ← if last then pure node'' else consume_expect_wn src TokenKind.statement_end node''
      parse_fields n node''')
    if closed then pure node else field

  -- A type with fields.
  unfoldable pub parse_compound : ℕ → AstNode → Parse AstNode
  parse_compound n node = do
    consume_expect src TokenKind.scope_bracket_left
    node' ← parse_fields n node
    consume_expect_wn src TokenKind.scope_bracket_right node'

  -- What is declared by an expression: a union of the operands of `or`, or another name of a type.
  unfoldable pub parse_alias : AstNode → Parse AstNode
  parse_alias node = do
    q ← parse_expression
    expr ← deref q
    let union = (do
      ks ← check_union (kids expr)
      let node' = set_content (union_kind flat) (set_kind NodeKind.union_decl node)
      add_kid node' (to (ast (head expr) ks)))
    if node_kind_eq (head expr).kind NodeKind.bin_op
        then union
        else if node_kind_eq (head expr).kind NodeKind.identifier
        then (add_kid node (to expr) >>= λ node'.
            consume_expect_wn src TokenKind.statement_end node')
        else add_err node Message.unexpected_expression

  unfoldable pub parse_type_decl : ℕ → Parse Pointer
  parse_type_decl n = do
    consume_expect src TokenKind.type_keyword
    name ← next src
    expect name TokenKind.identifier
    consume_expect src TokenKind.equals_op
    t ← peek src
    let nk = decl_kind t.kind
    if nk.1 then consume src else pure tt
    node ← add_tok_node nk.0 name
    node' ←
        if node_kind_eq nk.0 NodeKind.typealias_decl
        then parse_alias node
        else parse_compound n node
    pure (to node')

  -- The kids for the type and the value of a variable.
  unfoldable pub parse_var_kids : AstNode → Parse AstNode
  parse_var_kids node = do
    typed ← peek_is src TokenKind.colon_op
    if typed
        then (do
          consume src
          expr ← parse_expression_base
          node' ← add_kid node expr
          parse_assigned src parse_expression node')
        else (add_kid node null >>= λ node'. parse_assigned src parse_expression node')

  -- The name behind `var` or `const`, or the token itself.
  unfoldable pub parse_var_name : Token → Parse Token
  parse_var_name tok =
      if kind_eq tok.kind TokenKind.var_keyword || kind_eq tok.kind TokenKind.const_keyword
      then next src
      else pure tok

  unfoldable pub parse_var_decl : Parse AstNode
  parse_var_decl = do
    tok ← next src
    name ← parse_var_name tok
    expect name TokenKind.identifier
    node ← add_tok_node NodeKind.var_decl name
    let is_const = kind_eq tok.kind TokenKind.const_keyword
    parse_var_kids (set_content (var_decl_data is_const) node)

  unfoldable pub parse_args_decl : ℕ → AstNode → Parse AstNode
  parse_args_decl zero node = give_up
  parse_args_decl (suc n) node = do
    closed ← peek_is src TokenKind.bracket_right
    let argument = (do
      var_decl ← parse_var_decl
      node' ← add_kid node (to var_decl)
      comma ← peek_is src TokenKind.comma
      if comma then consume src else pure tt
      parse_args_decl n node')
    if closed then pure node else argument

  -- The second list of parameters, if there is one.
  unfoldable pub parse_targs : ℕ → AstNode → Parse AstNode
  parse_targs n targs = do
    more ← peek_is src TokenKind.bracket_left
    if more
        then (do
          consume src
          targs' ← parse_args_decl n targs
          consume_expect src TokenKind.bracket_right
          pure targs')
        else pure targs

  -- The last call reads the statements of the body.
  unfoldable pub parse_func_decl : ℕ → (AstNode → Parse AstNode) → Parse Pointer
  parse_func_decl n parse_statement_list = do
    consume_expect src TokenKind.function_keyword
    name ← next src
    expect name TokenKind.identifier
    node ← add_tok_node NodeKind.func_decl name
    args ← add_node NodeKind.params_decl (param_list false) no_token false
    targs ← add_node NodeKind.params_decl (param_list true) no_token false
    consume_expect src TokenKind.bracket_left
    args' ← parse_args_decl n args
    consume_expect src TokenKind.bracket_right
    targs' ← parse_targs n targs
    body ← add_bare_node NodeKind.body
    consume_expect src TokenKind.scope_bracket_left
    body' ← parse_statement_list body
    one ← add_kid node (to targs')
    two ← add_kid one (to args')
    three ← add_kid two (to body')
    pure (to three)

  -- The switch of `parse_statement`.
  unfoldable pub parse_statement : ℕ → (AstNode → Parse AstNode) → Parse Pointer
  parse_statement n parse_statement_list = do
    t ← peek src
    if kind_eq t.kind TokenKind.type_keyword
        then parse_type_decl n
        else if kind_eq t.kind TokenKind.function_keyword
        then parse_func_decl n parse_statement_list
        else if kind_eq t.kind TokenKind.const_keyword || kind_eq t.kind TokenKind.var_keyword
        then (parse_var_decl >>= λ node. pure (to node))
        else parse_expression

  -- A round of the loop behind the ends of statements: the node, and whether the loop goes on. The
  -- last call reads a nested list of statements.
  unfoldable pub statement_round :
      ℕ → (AstNode → Parse AstNode) → Bool → AstNode → Parse (AstNode × Bool)
  statement_round n parse_statement_list explicit_scope node = do
    p ← peek src
    let closes = explicit_scope && kind_eq p.kind TokenKind.scope_bracket_right
    if kind_eq p.kind TokenKind.eof || closes
        then (consume src >> pure (node, false))
        else (parse_statement n parse_statement_list >>= λ statement. elim statement [
          | null ↦ pure (node, false)
          | to s ↦ pure (add_statement node s, true)
        ])

  -- The loop of `parse_statement_list`, with the rounds of the outer loop first.
  unfoldable pub statement_rounds :
      ℕ → ℕ → (AstNode → Parse AstNode) → Bool → AstNode → Parse AstNode
  statement_rounds zero n parse_statement_list explicit_scope node = give_up
  statement_rounds (suc k) n parse_statement_list explicit_scope node = do
    skip_statement_ends src n
    r ← statement_round n parse_statement_list explicit_scope node
    let again = statement_rounds k n parse_statement_list explicit_scope r.0
    if r.1 then again else pure r.0
