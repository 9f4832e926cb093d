-- ===== src/Parser/Shape/Expressions.antt =====
-- The shape of the trees of names, calls, declarations in expressions and scopes, and so of
-- `parse_expression_base` of examples/parser.cpp.
use cxb.Prelude.{ℕ, zero, suc, refl}
use cxb.Lexer.Tokens.{Token, TokenKind, kind_eq, is_unary_op}
use cxb.Ast.{AstNode, Pointer, NodeKind, Kids, null, to, no_kids, push_kid}
use cxb.Parser.State.{Source, Parse}
use cxb.Parser.Expressions.{
  parse_scope, parse_arguments, parse_call, parse_inferred_decl, assigns, parse_assigned,
  parse_typed_decl, parse_identifier, parse_branch, parse_operand,
}
use cxb.Parser.Yields.{
  Yields, Yields-bind, Yields-then, Yields-pure, Yields-give_up, Yields-if, Yields-map, Any, Is,
  add_kid-Is, add_node-Is, add_tok_node-Is, add_bare_node-Is, expect_wn-Is, peek-Any, next-Any,
  peek_is-Any, consume-Any, consume_if-Any,
}
use cxb.Parser.Shape.{
  IsSound, IsOpen, tree, finish, Is-set_last_kid, Is-IsOpen, add_kid-IsOpen, IsOpen-IsTree,
  consume_expect_wn-IsOpen,
}
use cxb.Parser.Shape.Literals.{
  parse_import-IsSound, parse_jump-IsSound, parse_for-IsSound, parse_literal-IsSound,
}
use cxb.Parser.Shape.Control.{
  parse_bracket-IsSound, parse_return-IsSound, parse_defer-IsSound, parse_while-IsSound,
  parse_if-IsSound,
}
use cxb.Parser.Shape.Operators.{parse_unary-IsSound}

module _ (src : Source) (expression : Parse Pointer)
    (expression_sound : Yields IsSound expression) where
  parse_arguments-IsOpen :
      (n : ℕ) (args : AstNode)
      → IsOpen NodeKind.params args
      → Yields (IsOpen NodeKind.params) (parse_arguments src expression n args)
  unfolding parse_arguments
  parse_arguments-IsOpen zero args o = Yields-give_up
  parse_arguments-IsOpen (suc n) args o = Yields-bind (peek_is-Any src _) λ closed _.
      Yields-if closed (λ _. Yields-pure args o)
        λ _. Yields-bind expression_sound λ arg a.
          Yields-bind (add_kid-IsOpen _ args arg o a) λ args' (o', _).
            Yields-bind (peek_is-Any src _)
              λ comma _. Yields-then (consume_if-Any src comma) (parse_arguments-IsOpen n args' o')

  parse_call-IsSound : (n : ℕ) (id : Token) → Yields IsSound (parse_call src expression n id)
  unfolding parse_call push_kid
  parse_call-IsSound n id = Yields-then (consume-Any src) (
      Yields-bind (add_tok_node-Is _ id) λ fn s. Yields-bind (add_bare_node-Is _) λ args a.
        Yields-bind (add_kid-Is _ _ fn (to args) s) λ fn' s'.
          Yields-bind (parse_arguments-IsOpen n args (Is-IsOpen _ _ args a tt)) λ args' o.
            Yields-bind (consume_expect_wn-IsOpen _ args' o src _) λ args'' o'.
              finish _ _ _ (Is-set_last_kid _ no_kids fn' (to args) (to args'') s')
                (refl, (IsOpen-IsTree _ args'' o' tt, tt)))

  parse_inferred_decl-IsSound :
      (id : Token) → Yields IsSound (parse_inferred_decl src expression id)
  unfolding parse_inferred_decl push_kid
  parse_inferred_decl-IsSound id = Yields-then (consume-Any src) (
      Yields-bind (add_node-Is _ _ id _) λ node s. Yields-bind expression_sound λ assign a.
        Yields-bind (add_kid-Is _ _ node null s) λ node' s'.
          Yields-bind (add_kid-Is _ _ node' assign s')
            λ node'' s''. finish _ _ node'' s'' (refl, (tt, (a, tt))))

  assigns-Any : Yields Any (assigns src expression)
  unfolding assigns
  assigns-Any = Yields-bind (peek-Any src) λ t _.
      Yields-if (kind_eq t.kind TokenKind.equals_op) (λ _. Yields-pure _ tt) λ _. peek_is-Any src _

  -- A kid is pushed.
  pub parse_assigned-Is :
      (k : NodeKind) (ks : Kids) (node : AstNode)
      → Is k ks node
      → Yields
          (λ n. (q : Pointer) × Is k (push_kid ks q) n × IsSound q)
          (parse_assigned src expression node)
  unfolding parse_assigned
  parse_assigned-Is k ks node s = Yields-bind assigns-Any λ has_value _.
      Yields-if has_value
        (λ _.
          Yields-bind (Yields-then (consume-Any src) expression_sound)
            λ value v. Yields-map (add_kid-Is _ _ node value s) (λ n s'. (value, s', v)))
        (λ _. Yields-map (add_kid-Is _ _ node null s) (λ n s'. (null, s', tt)))

  module _ (base : Parse Pointer) (base_sound : Yields IsSound base) where
    parse_typed_decl-IsSound :
        (id : Token) → Yields IsSound (parse_typed_decl src expression base id)
    unfolding parse_typed_decl push_kid
    parse_typed_decl-IsSound id = Yields-then (consume-Any src) (
        Yields-bind (add_tok_node-Is _ id) λ node s. Yields-bind base_sound λ type_expr t.
          Yields-bind (assigns-Any) λ has_value _.
            Yields-bind
              (Yields-if has_value (λ _. Yields-then (consume-Any src) expression_sound)
                (λ _. Yields-pure null tt))
              λ value v. Yields-bind (add_kid-Is _ _ node type_expr s) λ node' s'.
                Yields-bind (add_kid-Is _ _ node' value s')
                  λ node'' s''. finish _ _ node'' s'' (refl, (t, (v, tt))))

    parse_identifier-IsSound : (n : ℕ) → Yields IsSound (parse_identifier src expression base n)
    unfolding parse_identifier
    parse_identifier-IsSound n = Yields-bind (next-Any src) λ id _.
        Yields-bind (peek-Any src) λ t _.
          Yields-if (kind_eq t.kind TokenKind.colon_op) (λ _. parse_typed_decl-IsSound id)
            λ _.
              Yields-if (kind_eq t.kind TokenKind.colon_equals_op)
                (λ _. parse_inferred_decl-IsSound id)
                λ _.
                  Yields-if (kind_eq t.kind TokenKind.bracket_left) (λ _. parse_call-IsSound n id)
                    λ _. Yields-bind (add_tok_node-Is _ id) λ node s. finish _ _ node s (refl, tt)

    module _ (list : AstNode → Parse AstNode)
        (list_sound : (n : AstNode)
          → IsOpen NodeKind.body n
          → Yields (IsOpen NodeKind.body) (list n)) where
      parse_scope-IsSound : Yields IsSound (parse_scope src list)
      unfolding parse_scope
      parse_scope-IsSound = Yields-bind (add_bare_node-Is _) λ body s.
          Yields-bind (next-Any src) λ scope_bracket _.
            Yields-bind (expect_wn-Is _ _ _ _ body s) λ body' s'.
              Yields-bind (list_sound body' (Is-IsOpen _ _ body' s' tt))
                λ body'' o. Yields-pure (to body'') (IsOpen-IsTree _ body'' o tt)

      parse_branch-IsSound :
          (n : ℕ) (k : TokenKind) → Yields IsSound (parse_branch src expression base n list k)
      unfolding parse_branch
      parse_branch-IsSound n k =
          Yields-if (kind_eq k TokenKind.bracket_left)
            (λ _. parse_bracket-IsSound src expression expression_sound)
            λ _.
              Yields-if (kind_eq k TokenKind.scope_bracket_left) (λ _. parse_scope-IsSound)
                λ _.
                  Yields-if (is_unary_op k) (λ _. parse_unary-IsSound src base base_sound)
                    λ _.
                      Yields-if (kind_eq k TokenKind.import_keyword) (λ _. parse_import-IsSound src)
                        λ _.
                          Yields-if (kind_eq k TokenKind.return_keyword)
                            (λ _. parse_return-IsSound src expression expression_sound)
                            λ _.
                              Yields-if (kind_eq k TokenKind.defer_keyword)
                                (λ _. parse_defer-IsSound src expression expression_sound)
                                λ _.
                                  Yields-if (kind_eq k TokenKind.continue_keyword)
                                    (λ _.
                                      parse_jump-IsSound src NodeKind.cont_node
                                        (λ n s. tree _ _ n s (refl, tt)))
                                    λ _.
                                      Yields-if (kind_eq k TokenKind.break_keyword)
                                        (λ _.
                                          parse_jump-IsSound src NodeKind.break_node
                                            (λ n s. tree _ _ n s (refl, tt)))
                                        λ _.
                                          Yields-if (kind_eq k TokenKind.while_keyword)
                                            (λ _.
                                              parse_while-IsSound src expression expression_sound)
                                            λ _.
                                              Yields-if (kind_eq k TokenKind.for_keyword)
                                                (λ _. parse_for-IsSound src)
                                                λ _.
                                                  Yields-if (kind_eq k TokenKind.if_keyword)
                                                    (λ _.
                                                      parse_if-IsSound src expression
                                                        expression_sound n)
                                                    λ _.
                                                      Yields-if (kind_eq k TokenKind.identifier)
                                                        (λ _. parse_identifier-IsSound n)
                                                        λ _. parse_literal-IsSound src k

      pub parse_operand-IsSound :
          (n : ℕ) → Yields IsSound (parse_operand src expression base n list)
      unfolding parse_operand
      parse_operand-IsSound n = Yields-bind (peek-Any src) (λ t _. parse_branch-IsSound n t.kind)
