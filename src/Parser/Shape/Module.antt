-- ===== src/Parser/Shape/Module.antt =====
-- The shape of the tree of a module of examples/parser.cpp.
use cxb.Prelude.{ℕ, zero, suc, Bool, true, false}
use cxb.Ast.{AstNode, NodeKind}
use cxb.Parser.State.{Source, Parser}
use cxb.Parser.{parse_expression_base, parse_expression, parse_statement_list, parse_module}
use cxb.Parser.Yields.{Yields, yields, Ends, Yields-Ends, Yields-bind, Yields-map, add_bare_node-Is}
use cxb.Parser.Shape.{IsTree, IsSound, IsOpen, Is-IsOpen, IsOpen-IsTree}
use cxb.Parser.Shape.Operators.{parse_operation-IsSound}
use cxb.Parser.Shape.Expressions.{parse_operand-IsSound}
use cxb.Parser.Shape.Declarations.{statement_rounds-IsOpen}

module _ (src : Source) where
  mutual
    unfolding parse_expression_base parse_expression parse_statement_list

    base-IsSound : (n : ℕ) → Yields IsSound (parse_expression_base src n)
    base-IsSound zero = yields (λ p. tt)
    base-IsSound (suc n) = yields (
        Yields-Ends (
          parse_operand-IsSound src (parse_expression src n) (expression-IsSound n)
            (parse_expression_base src n) (base-IsSound n) (parse_statement_list src n true)
            (list-IsOpen n NodeKind.body true) n))

    expression-IsSound : (n : ℕ) → Yields IsSound (parse_expression src n)
    expression-IsSound zero = yields (λ p. tt)
    expression-IsSound (suc n) =
        yields (
          Yields-Ends
            (parse_operation-IsSound src (parse_expression_base src n) (base-IsSound n) n))

    list-IsOpen :
        (n : ℕ) (k : NodeKind) (explicit_scope : Bool) (node : AstNode)
        → IsOpen k node
        → Yields (IsOpen k) (parse_statement_list src n explicit_scope node)
    list-IsOpen zero k explicit_scope node o = yields (λ p. tt)
    list-IsOpen (suc n) k explicit_scope node o = yields (
        Yields-Ends (
          statement_rounds-IsOpen src (parse_expression src n) (parse_expression_base src n)
            (expression-IsSound n) (base-IsSound n) (parse_statement_list src n true)
            (list-IsOpen n NodeKind.body true) k n n explicit_scope node o))

  -- From any state, whatever the text: a module that is parsed is a tree in which every node has as
  -- many kids as its kind has, and no access of the parser to the kids of a node is out of bounds.
  pub parse_module-IsTree : (n : ℕ) (p : Parser) → Ends IsTree (parse_module src n p)
  unfolding parse_module
  parse_module-IsTree n = Yields-Ends (
      Yields-bind (add_bare_node-Is NodeKind.module_node) λ node s.
        Yields-map (list-IsOpen n NodeKind.module_node false node (Is-IsOpen _ _ node s tt))
          (λ m o. IsOpen-IsTree NodeKind.module_node m o tt))

  -- The same of an expression: the loop over the operators included, which moves operands.
  pub parse_expression-IsSound : (n : ℕ) (p : Parser) → Ends IsSound (parse_expression src n p)
  parse_expression-IsSound n = Yields-Ends (expression-IsSound n)
