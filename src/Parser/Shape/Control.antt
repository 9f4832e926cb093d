-- ===== src/Parser/Shape/Control.antt =====
-- The shape of the trees of brackets and of control flow in `parse_expression_base` of
-- examples/parser.cpp.
use cxb.Prelude.{ℕ, zero, suc, ◌≤◌, ◌≡◌, refl, ap, arith}
use mathlib.Core.Path.{subst}
use cxb.Ast.{AstNode, Pointer, NodeKind, to, no_kids, head, kids, push_kid, len}
use cxb.Parser.State.{Source, Parse}
use cxb.Parser.Expressions.{
  parse_bracket, parse_return, parse_defer, parse_while, parse_condition, parse_else,
  parse_branches, parse_if,
}
use cxb.Parser.Yields.{
  Yields, Yields-bind, Yields-then, Yields-pure, Yields-give_up, Yields-if, Yields-map, Is,
  add_kid-Is, add_bare_node-Is, add_err-Is, deref-to, peek_is-Any, consume-Any, consume_if-Any,
}
use cxb.Parser.Shape.{
  IsTree, IsSound, IsOpen, tree, finish, Is-IsOpen, add_kid-IsOpen, IsOpen-IsTree, IsTree-Fits,
}

module _ (src : Source) (expression : Parse Pointer)
    (expression_sound : Yields IsSound expression) where
  pub parse_bracket-IsSound : Yields IsSound (parse_bracket src expression)
  unfolding parse_bracket
  parse_bracket-IsSound = Yields-then (consume-Any src) (
      Yields-bind expression_sound λ expr s. Yields-bind (peek_is-Any src _) λ closed _.
        Yields-if closed (λ _. Yields-then (consume-Any src) (Yields-pure expr s))
          λ _. Yields-bind (deref-to expr) λ node e.
            let t = IsTree-Fits node (subst IsSound e s) in
            Yields-bind (add_err-Is (head node).kind (kids node) node _ (refl, refl))
              λ node' s'. finish _ _ node' s' t)

  pub parse_return-IsSound : Yields IsSound (parse_return src expression)
  unfolding parse_return push_kid
  parse_return-IsSound = Yields-then (consume-Any src) (
      Yields-bind (add_bare_node-Is _) λ node s. Yields-bind (peek_is-Any src _) λ ends _.
        Yields-if ends (λ _. finish _ _ node s (omega arith, tt))
          λ _. Yields-bind expression_sound λ body b.
            Yields-bind (add_kid-Is _ _ node body s)
              λ node' s'. finish _ _ node' s' (omega arith, (b, tt)))

  pub parse_defer-IsSound : Yields IsSound (parse_defer src expression)
  unfolding parse_defer push_kid
  parse_defer-IsSound = Yields-then (consume-Any src) (
      Yields-bind (add_bare_node-Is _) λ node s. Yields-bind expression_sound λ body b.
        Yields-bind (add_kid-Is _ _ node body s) λ node' s'. finish _ _ node' s' (refl, (b, tt)))

  pub parse_while-IsSound : Yields IsSound (parse_while src expression)
  unfolding parse_while push_kid
  parse_while-IsSound = Yields-then (consume-Any src) (
      Yields-bind (add_bare_node-Is _) λ node s. Yields-bind expression_sound λ cond c.
        Yields-bind expression_sound λ body b. Yields-bind (add_kid-Is _ _ node cond s) λ node' s'.
          Yields-bind (add_kid-Is _ _ node' body s')
            λ node'' s''. finish _ _ node'' s'' (refl, (c, (b, tt))))

  -- Two kids are pushed.
  parse_condition-IsOpen :
      (k : NodeKind) (node : AstNode)
      → Is k no_kids node
      → Yields (λ n. IsOpen k n × (len (kids n) ≡ 2)) (parse_condition src expression node)
  unfolding parse_condition push_kid
  parse_condition-IsOpen k node s = Yields-bind expression_sound λ cond c.
      Yields-bind (peek_is-Any src _) λ colon _. Yields-then (consume_if-Any src colon) (
        Yields-bind expression_sound λ body b. Yields-bind (add_kid-Is _ _ node cond s) λ node' s'.
          Yields-map (add_kid-Is _ _ node' body s')
            (λ n t. (Is-IsOpen _ _ n t (c, (b, tt)), ap len t.1)))

  parse_else-IsTree :
      (node : AstNode)
      → IsOpen NodeKind.if_node node
      → 2 ≤ len (kids node)
      → Yields IsTree (parse_else src expression node)
  unfolding parse_else push_kid
  parse_else-IsTree node o l = Yields-bind (add_bare_node-Is _) λ el s.
      Yields-bind expression_sound λ body b. Yields-bind (add_kid-Is _ _ el body s) λ el' s'.
        Yields-bind (add_kid-IsOpen _ node (to el') o (tree _ _ el' s' (refl, (b, tt))))
          λ node' (o', more).
            Yields-bind (peek_is-Any src _)
              λ again _. Yields-pure node' (IsOpen-IsTree _ node' o' (omega (arith, more)))

  parse_branches-IsTree :
      (n : ℕ) (node : AstNode)
      → IsOpen NodeKind.if_node node
      → 2 ≤ len (kids node)
      → Yields IsTree (parse_branches src expression n node)
  unfolding parse_branches
  parse_branches-IsTree zero node o l = Yields-give_up
  parse_branches-IsTree (suc n) node o l = Yields-bind (peek_is-Any src _) λ more _.
      Yields-if more
        (λ _. Yields-bind (Yields-then (consume-Any src) (peek_is-Any src _)) λ again _.
          Yields-if again
            (λ _. Yields-then (consume-Any src) (
              Yields-bind (add_bare_node-Is _) λ elif s.
                Yields-bind (parse_condition-IsOpen _ elif s) λ elif' (e, two).
                  let t = IsOpen-IsTree _ elif' e two in
                  Yields-bind (add_kid-IsOpen _ node (to elif') o t)
                    λ node' (o', more'). parse_branches-IsTree n node' o' (omega (arith, more'))))
            (λ _. parse_else-IsTree node o l))
        (λ _. Yields-pure node (IsOpen-IsTree _ node o l))

  pub parse_if-IsSound : (n : ℕ) → Yields IsSound (parse_if src expression n)
  unfolding parse_if
  parse_if-IsSound n = Yields-then (consume-Any src) (
      Yields-bind (add_bare_node-Is _) λ node s.
        Yields-bind (parse_condition-IsOpen _ node s) λ node' (o, two).
          Yields-bind (parse_branches-IsTree n node' o (omega arith))
            λ node'' t. Yields-pure (to node'') t)
