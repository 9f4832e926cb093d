-- ===== src/Parser/Shape/Declarations.antt =====
-- The shape of the trees of the declarations of variables and functions and of the statements of
-- examples/parser.cpp.
use cxb.Prelude.{ℕ, zero, suc, refl, Bool, true, false, ◌||◌, ◌&&◌}
use cxb.Lexer.Tokens.{TokenKind, kind_eq}
use cxb.Ast.{
  AstNode, Pointer, NodeKind, ast, null, to, no_kids, head, kids, push_kid, set_err, set_statement,
}
use cxb.Parser.State.{Source, Parse, ◌>>=◌, pure, add_kid}
use cxb.Parser.Declarations.{
  or_err, add_statement, skip_statement_ends, parse_var_kids, parse_var_name, parse_var_decl,
  parse_args_decl, parse_targs, parse_func_decl, parse_statement, statement_round, statement_rounds,
}
use cxb.Parser.Yields.{
  Yields, Yields-bind, Yields-then, Yields-pure, Yields-give_up, Yields-if, Yields-map, Any, Is,
  add_kid-Is, add_node-Is, add_tok_node-Is, add_bare_node-Is, expect-Any, peek-Any, next-Any,
  peek_is-Any, consume-Any, consume_if-Any, consume_expect-Any,
}
use cxb.Parser.Shape.{
  IsTree, IsSound, IsOpen, tree, finish, Is-IsOpen, IsOpen-with_kid, add_kid-IsOpen, IsOpen-IsTree,
}
use cxb.Parser.Shape.Literals.{Is-set_content}
use cxb.Parser.Shape.Expressions.{parse_assigned-Is}
use cxb.Parser.Shape.Types.{parse_type_decl-IsSound}

IsTree-set_statement : (n : AstNode) → IsTree n → IsTree (set_statement n)
unfolding set_statement
IsTree-set_statement (ast h l) t = t

IsOpen-or_err : (k : NodeKind) (b : Bool) (n : AstNode) → IsOpen k n → IsOpen k (or_err b n)
unfolding or_err set_err head kids
IsOpen-or_err k b (ast h l) o = o

add_statement-IsOpen :
    (k : NodeKind) (node s : AstNode) → IsOpen k node → IsTree s → IsOpen k (add_statement node s)
unfolding add_statement
add_statement-IsOpen k node s o t =
    IsOpen-with_kid k _ (to (set_statement s)) (IsOpen-or_err k _ node o) (IsTree-set_statement s t)

skip_statement_ends-Any : (src : Source) (n : ℕ) → Yields Any (skip_statement_ends src n)
unfolding skip_statement_ends
skip_statement_ends-Any src zero = Yields-give_up
skip_statement_ends-Any src (suc n) = Yields-bind (peek_is-Any src _) λ ends _.
    Yields-if ends (λ _. Yields-then (consume-Any src) (skip_statement_ends-Any src n))
      (λ _. Yields-pure tt tt)

module _ (src : Source) (expression base : Parse Pointer)
    (expression_sound : Yields IsSound expression) (base_sound : Yields IsSound base) where
  parse_var_kids-IsTree :
      (node : AstNode)
      → Is NodeKind.var_decl no_kids node
      → Yields IsTree (parse_var_kids src expression base node)
  unfolding parse_var_kids push_kid
  parse_var_kids-IsTree node s =
      let assigned = λ (q : Pointer) (h : IsSound q).
        Yields-map
          (Yields-bind (add_kid-Is _ _ node q s)
            λ node' s'. parse_assigned-Is src expression expression_sound _ _ node' s')
          (λ m (v, s', h'). tree _ _ m s' (refl, (h, (h', tt)))) in
      Yields-bind (peek_is-Any src _) λ typed _.
        Yields-if typed
          (λ _. Yields-then (consume-Any src) (Yields-bind base_sound λ expr h. assigned expr h))
          (λ _. assigned null tt)

  parse_var_decl-IsTree : Yields IsTree (parse_var_decl src expression base)
  unfolding parse_var_decl parse_var_name
  parse_var_decl-IsTree = Yields-bind (next-Any src) λ tok _.
      Yields-bind
        (Yields-if {P = Any}
          (kind_eq tok.kind TokenKind.var_keyword || kind_eq tok.kind TokenKind.const_keyword)
          (λ _. next-Any src) (λ _. Yields-pure tok tt))
        λ name _. Yields-then (expect-Any name _) (
          Yields-bind (add_tok_node-Is _ name)
            λ node s. parse_var_kids-IsTree _ (Is-set_content _ _ _ node s))

  parse_args_decl-IsOpen :
      (n : ℕ) (node : AstNode)
      → IsOpen NodeKind.params_decl node
      → Yields (IsOpen NodeKind.params_decl) (parse_args_decl src expression base n node)
  unfolding parse_args_decl
  parse_args_decl-IsOpen zero node o = Yields-give_up
  parse_args_decl-IsOpen (suc n) node o = Yields-bind (peek_is-Any src _) λ closed _.
      Yields-if closed (λ _. Yields-pure node o)
        λ _. Yields-bind parse_var_decl-IsTree λ var_decl t.
          Yields-bind (add_kid-IsOpen _ node (to var_decl) o t) λ node' (o', _).
            Yields-bind (peek_is-Any src _)
              λ comma _. Yields-then (consume_if-Any src comma) (parse_args_decl-IsOpen n node' o')

  parse_targs-IsOpen :
      (n : ℕ) (targs : AstNode)
      → IsOpen NodeKind.params_decl targs
      → Yields (IsOpen NodeKind.params_decl) (parse_targs src expression base n targs)
  unfolding parse_targs
  parse_targs-IsOpen n targs o = Yields-bind (peek_is-Any src _) λ more _.
      Yields-if more
        (λ _. Yields-then (consume-Any src) (
          Yields-bind (parse_args_decl-IsOpen n targs o)
            λ targs' o'. Yields-then (consume_expect-Any src _) (Yields-pure targs' o')))
        (λ _. Yields-pure targs o)

  module _ (list : AstNode → Parse AstNode)
      (list_sound : (n : AstNode)
        → IsOpen NodeKind.body n
        → Yields (IsOpen NodeKind.body) (list n)) where
    parse_func_decl-IsSound : (n : ℕ) → Yields IsSound (parse_func_decl src expression base n list)
    unfolding parse_func_decl push_kid
    parse_func_decl-IsSound n = Yields-then (consume_expect-Any src _) (
        Yields-bind (next-Any src) λ name _. Yields-then (expect-Any name _) (
          Yields-bind (add_tok_node-Is _ name) λ node s.
            Yields-bind (add_node-Is NodeKind.params_decl _ _ _) λ args a.
              Yields-bind (add_node-Is NodeKind.params_decl _ _ _) λ targs t.
                Yields-then (consume_expect-Any src _) (
                  Yields-bind (parse_args_decl-IsOpen n args (Is-IsOpen _ _ args a tt)) λ args' a'.
                    Yields-then (consume_expect-Any src _) (
                      Yields-bind (parse_targs-IsOpen n targs (Is-IsOpen _ _ targs t tt))
                        λ targs' t'. Yields-bind (add_bare_node-Is _) λ body b.
                          Yields-then (consume_expect-Any src _) (
                            Yields-bind (list_sound body (Is-IsOpen _ _ body b tt))
                              λ body' b'. func node targs' args' body' s t' a' b')))))
      where
        func :
            (node targs args body : AstNode)
            → Is NodeKind.func_decl no_kids node
            → IsOpen NodeKind.params_decl targs
            → IsOpen NodeKind.params_decl args
            → IsOpen NodeKind.body body
            → Yields IsSound (
                add_kid node (to targs) >>= λ one.
                add_kid one (to args) >>= λ two. add_kid two (to body) >>= λ three. pure (to three))
        func node targs args body s t a b = Yields-bind (add_kid-Is _ _ node (to targs) s) λ one s₁.
            Yields-bind (add_kid-Is _ _ one (to args) s₁) λ two s₂.
              Yields-bind (add_kid-Is _ _ two (to body) s₂) λ three s₃. finish _ _ three s₃ (
                refl,
                (
                  IsOpen-IsTree _ targs t tt,
                  (IsOpen-IsTree _ args a tt, (IsOpen-IsTree _ body b tt, tt)),
                ),
              )

    parse_statement-IsSound : (n : ℕ) → Yields IsSound (parse_statement src expression base n list)
    unfolding parse_statement
    parse_statement-IsSound n = Yields-bind (peek-Any src) λ t _.
        Yields-if (kind_eq t.kind TokenKind.type_keyword)
          (λ _. parse_type_decl-IsSound src expression base expression_sound base_sound n)
          λ _.
            Yields-if (kind_eq t.kind TokenKind.function_keyword) (λ _. parse_func_decl-IsSound n)
              λ _.
                Yields-if
                  (kind_eq t.kind TokenKind.const_keyword || kind_eq t.kind TokenKind.var_keyword)
                  (λ _. Yields-bind parse_var_decl-IsTree λ node h. Yields-pure (to node) h)
                  λ _. expression_sound

    statement_round-IsOpen :
        (k : NodeKind) (n : ℕ) (explicit_scope : Bool) (node : AstNode)
        → IsOpen k node
        → Yields
            (λ (r : AstNode × Bool). IsOpen k r.0)
            (statement_round src expression base n list explicit_scope node)
    unfolding statement_round
    statement_round-IsOpen k n explicit_scope node o = Yields-bind (peek-Any src) λ p _.
        Yields-if
          (kind_eq p.kind TokenKind.eof
            || (explicit_scope && kind_eq p.kind TokenKind.scope_bracket_right))
          (λ _. Yields-then (consume-Any src) (Yields-pure _ o))
          λ _. Yields-bind (parse_statement-IsSound n) λ q h. added q h
      where
        added :
            (q : Pointer)
            → IsSound q
            → Yields
                (λ (r : AstNode × Bool). IsOpen k r.0)
                (elim q [ null ↦ pure (node, false) | to s ↦ pure (add_statement node s, true) ])
        added null h = Yields-pure _ o
        added (to s) h = Yields-pure _ (add_statement-IsOpen k node s o h)

    pub statement_rounds-IsOpen :
        (k : NodeKind) (m n : ℕ) (explicit_scope : Bool) (node : AstNode)
        → IsOpen k node
        → Yields (IsOpen k) (statement_rounds src expression base m n list explicit_scope node)
    unfolding statement_rounds
    statement_rounds-IsOpen k zero n explicit_scope node o = Yields-give_up
    statement_rounds-IsOpen k (suc m) n explicit_scope node o =
        Yields-then (skip_statement_ends-Any src n) (
          Yields-bind (statement_round-IsOpen k n explicit_scope node o) λ r o'.
            Yields-if r.1 (λ _. statement_rounds-IsOpen k m n explicit_scope r.0 o')
              (λ _. Yields-pure r.0 o'))
