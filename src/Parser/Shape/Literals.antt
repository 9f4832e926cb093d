-- ===== src/Parser/Shape/Literals.antt =====
-- The shape of the trees of the branches of `parse_expression_base` in examples/parser.cpp that call no
-- other parser.
use cxb.Prelude.{ℕ, refl, Bool, true, Bool-cases, inl, inr, ltb, ◌||◌}
use cxb.Lexer.Tokens.{Token, TokenKind, kind_eq}
use cxb.Ast.{AstNode, AstNodeData, NodeKind, Kids, ast, null, to, no_kids, head, kids, set_content}
use cxb.Parser.State.{Source}
use cxb.Parser.Literals.{
  check_token, parse_number_value, parse_number, parse_bool, parse_nil, parse_string, parse_import,
  parse_jump, parse_for, parse_no_expression, parse_literal,
}
use cxb.Parser.Yields.{
  Any, Yields, yields, Yields-bind, Yields-then, Yields-pure, Yields-if, Is, Is-set_err,
  add_err_no_node-Any, add_node-Is, add_tok_node-Is, add_bare_node-Is, add_err-Is, expect_wn-Is,
  next-Any, consume-Any, consume_expect-Any,
}
use cxb.Parser.Shape.{IsTree, IsSound, finish}

pub Is-set_content :
    (k : NodeKind) (ks : Kids) (d : AstNodeData) (n : AstNode)
    → Is k ks n
    → Is k ks (set_content d n)
unfolding set_content head kids
Is-set_content k ks d (ast h l) s = s

module _ (src : Source) where
  parse_number_value-IsSound :
      (lit : Token) (node : AstNode) (literal : ℕ × Bool)
      → Is NodeKind.int_lit no_kids node
      → Yields IsSound (parse_number_value src lit node literal)
  unfolding parse_number_value
  parse_number_value-IsSound lit node literal s =
      Yields-if literal.1 (λ _. finish _ _ _ (Is-set_content _ _ _ node s) (refl, tt))
        λ _.
          Yields-bind (add_err-Is _ _ _ _ (Is-set_err _ _ true node s))
            λ n t. finish _ _ n t (refl, tt)

  check_token-Any : (lit : Token) → Yields Any (check_token src lit)
  unfolding check_token
  check_token-Any lit = yields λ p. elim (Bool-cases (ltb lit.n src.buffer.len)) [
    | inl fits ↦ rw fits tt
    | inr long ↦ rw long tt
  ]

  parse_number-IsSound : Yields IsSound (parse_number src)
  unfolding parse_number
  parse_number-IsSound = Yields-bind (next-Any src) λ lit _. Yields-then (check_token-Any lit) (
      Yields-bind (add_tok_node-Is _ lit) λ node s.
        Yields-if lit.err (λ _. finish _ _ _ (Is-set_err _ _ true node s) (refl, tt))
          λ _. parse_number_value-IsSound lit node _ s)

  parse_bool-IsSound : Yields IsSound (parse_bool src)
  unfolding parse_bool
  parse_bool-IsSound = Yields-bind (next-Any src) λ lit _.
      Yields-bind (add_tok_node-Is _ lit) λ node s.
        Yields-then (check_token-Any lit) (finish _ _ _ (Is-set_content _ _ _ node s) (refl, tt))

  parse_nil-IsSound : Yields IsSound (parse_nil src)
  unfolding parse_nil
  parse_nil-IsSound =
      Yields-bind (next-Any src)
        λ lit _. Yields-bind (add_tok_node-Is _ lit) λ node s. finish _ _ node s (refl, tt)

  parse_string-IsSound : Yields IsSound (parse_string src)
  unfolding parse_string
  parse_string-IsSound =
      Yields-bind (next-Any src)
        λ lit _. Yields-bind (add_node-Is _ _ lit _) λ node s. finish _ _ node s (refl, tt)

  pub parse_import-IsSound : Yields IsSound (parse_import src)
  unfolding parse_import
  parse_import-IsSound = Yields-then (consume-Any src) (
      Yields-bind (next-Any src) λ identifier _.
        Yields-bind (add_tok_node-Is _ identifier)
          λ node s. Yields-bind (expect_wn-Is _ _ _ _ node s) λ n t. finish _ _ n t (refl, tt))

  pub parse_jump-IsSound :
      (k : NodeKind)
      → ((n : AstNode) → Is k no_kids n → IsTree n)
      → Yields IsSound (parse_jump src k)
  unfolding parse_jump
  parse_jump-IsSound k fits = Yields-then (consume-Any src) (
      Yields-then (consume_expect-Any src _)
        (Yields-bind (add_bare_node-Is k) λ node s. Yields-pure (to node) (fits node s)))

  pub parse_for-IsSound : Yields IsSound (parse_for src)
  unfolding parse_for
  parse_for-IsSound =
      Yields-then (consume-Any src) (Yields-then (add_err_no_node-Any _) (Yields-pure null tt))

  parse_no_expression-IsSound : (k : TokenKind) → Yields IsSound (parse_no_expression src k)
  unfolding parse_no_expression
  parse_no_expression-IsSound k =
      Yields-if (kind_eq k TokenKind.statement_end || kind_eq k TokenKind.eof)
        (λ _. Yields-pure null tt) λ _. Yields-then (add_err_no_node-Any _) (Yields-pure null tt)

  pub parse_literal-IsSound : (k : TokenKind) → Yields IsSound (parse_literal src k)
  unfolding parse_literal
  parse_literal-IsSound k =
      Yields-if (kind_eq k TokenKind.float_literal) (λ _. parse_number-IsSound)
        λ _.
          Yields-if (kind_eq k TokenKind.bool_literal) (λ _. parse_bool-IsSound)
            λ _.
              Yields-if (kind_eq k TokenKind.nil_literal) (λ _. parse_nil-IsSound)
                λ _.
                  Yields-if (kind_eq k TokenKind.int_literal) (λ _. parse_number-IsSound)
                    λ _.
                      Yields-if (kind_eq k TokenKind.string_literal) (λ _. parse_string-IsSound)
                        λ _. parse_no_expression-IsSound k
