-- ===== src/Parser/Shape/Operators.antt =====
-- The shape of the trees that `parse_expression` of examples/parser.cpp makes of operators.
use cxb.Prelude.{ℕ, zero, suc, ◌<◌, ◌≡◌, refl, ltb, ltb→lt, arith}
use mathlib.Core.Path.{subst}
use cxb.Lexer.Tokens.{TokenKind, code, is_binary_op}
use cxb.Ast.{
  AstNode, Pointer, NodeKind, ast, null, to, no_kids, kid, head, kids, kid_at, set_kid, push_kid,
  set_err,
}
use cxb.Parser.State.{Source, Parse, ◌>>=◌, deref, in_bounds, get_kid, put_kid, get_err, kid_errs}
use cxb.Parser.Operators.{rotate, parse_unary, parse_operators, parse_operation}
use cxb.Parser.Yields.{
  Yields, Yields-bind, Yields-pure, Yields-give_up, Yields-if, Any, Is, Is-set_err, deref-to,
  add_kid-Is, add_tok_node-Is, peek-Any, next-Any,
}
use cxb.Parser.Shape.{IsTree, IsSound, tree, finish}

-- A binary operator with its operands.
abbrev IsOperation : AstNode → Pointer → Pointer → Type 0
IsOperation n a b = Is NodeKind.bin_op (kid a (kid b no_kids)) n × IsSound a × IsSound b

IsOperation-IsTree : (n : AstNode) (a b : Pointer) → IsOperation n a b → IsTree n
IsOperation-IsTree n a b (s, sa, sb) = tree _ _ n s (refl, (sa, (sb, tt)))

get_kid-Yields :
    (n : AstNode) (a b : Pointer)
    → IsOperation n a b
    → Yields (λ q. q ≡ a) (get_kid n 0) × Yields (λ q. q ≡ b) (get_kid n 1)
unfolding get_kid in_bounds kid_at
get_kid-Yields n a b ((k, ks), sa, sb) = (rw ks (Yields-pure a refl), rw ks (Yields-pure b refl))

get_err-Any : (q : Pointer) → Yields Any (get_err q)
unfolding get_err
get_err-Any q = Yields-bind (deref-to q) (λ n _. Yields-pure _ tt)

kid_errs-Any : (n : AstNode) (a b : Pointer) → IsOperation n a b → Yields Any (kid_errs n)
unfolding kid_errs
kid_errs-Any n a b s = Yields-bind (get_kid-Yields n a b s).0 λ l _.
    Yields-bind (get_err-Any l) λ e _.
      Yields-if e (λ _. Yields-pure _ tt)
        λ _. Yields-bind (get_kid-Yields n a b s).1 λ r _. get_err-Any r

put_kid-Yields :
    (n : AstNode) (a b q : Pointer)
    → IsOperation n a b
    → IsSound q
    → Yields (λ m. IsOperation m q b) (put_kid n 0 q)
      × Yields (λ m. IsOperation m a q) (put_kid n 1 q)
unfolding put_kid in_bounds set_kid head kids
put_kid-Yields n a b q ((k, ks), sa, sb) h = (
  rw ks (
      Yields-bind (Yields-pure {P = λ l. l ≡ kid q (kid b no_kids)} _ refl)
        λ l e. Yields-pure _ ((k, e), h, sb)),
  rw ks (
      Yields-bind (Yields-pure {P = λ l. l ≡ kid a (kid q no_kids)} _ refl)
        λ l e. Yields-pure _ ((k, e), sa, h)),
)

abbrev IsOperator : AstNode → Type 0
IsOperator n = IsTree n × ((head n).kind ≡ NodeKind.bin_op)

-- The rotation reads and writes operands that are there, and both operators keep two operands.
rotate-IsOperator :
    (lhs curr : AstNode) (a b c d : Pointer)
    → IsOperation lhs a b
    → IsOperation curr c d
    → Yields IsOperator (rotate lhs curr)
unfolding rotate
rotate-IsOperator lhs curr a b c d s t = Yields-bind (get_kid-Yields lhs a b s).1 λ q e.
    let sq : IsSound q = rw e s.2 in
    Yields-bind (put_kid-Yields curr c d q t sq).0 λ curr' u.
      Yields-bind (kid_errs-Any curr' q d u) λ f _.
        let w : IsTree (set_err f curr') =
          IsOperation-IsTree (set_err f curr') q d (Is-set_err _ _ f curr' u.0, u.1, u.2) in
        Yields-bind (put_kid-Yields lhs a b (to (set_err f curr')) s w).1 λ lhs' v.
          let v' = Is-set_err _ _ f lhs' v.0 in
          Yields-pure (set_err f lhs')
            (IsOperation-IsTree (set_err f lhs') a (to (set_err f curr')) (v', v.1, v.2), v'.0)

-- An operator that is a tree has two operands.
two_operands : (n : AstNode) → IsOperator n → (a : Pointer) × (b : Pointer) × IsOperation n a b
unfolding head kids
two_operands (ast h no_kids) ((f, g), k) = let f' = rw k at f in absurd (omega arith)
two_operands (ast h (kid a no_kids)) ((f, g), k) = let f' = rw k at f in absurd (omega arith)
two_operands (ast h (kid a (kid b no_kids))) ((f, (sa, (sb, g))), k) = (a, b, ((k, refl), sa, sb))
two_operands (ast h (kid a (kid b (kid c ks)))) ((f, g), k) =
    let f' = rw k at f in absurd (omega arith)

-- What the loop knows of `lhs` where it has read an operator: it stands at the root of `lhs`.
abbrev Under : TokenKind → Pointer → Type 0
Under op null = Unit {0}
Under op (to n) = 0 < code op → (head n).kind ≡ NodeKind.bin_op

module _ (src : Source) (base : Parse Pointer) (base_sound : Yields IsSound base) where
  pub parse_unary-IsSound : Yields IsSound (parse_unary src base)
  unfolding parse_unary push_kid
  parse_unary-IsSound = Yields-bind (next-Any src) λ op _.
      Yields-bind (add_tok_node-Is _ op) λ node s. Yields-bind base_sound λ expr h.
        Yields-bind (add_kid-Is _ _ node expr s) λ node' s'. finish _ _ node' s' (refl, (h, tt))

  -- The operator goes below the last one, which stands at the root of `lhs`, and the loop goes on.
  lower-IsSound :
      (n : ℕ) (lhs : Pointer) (lhs_op : TokenKind) (rhs : Pointer) (curr : AstNode) {k : ℕ}
      → IsSound lhs
      → Under lhs_op lhs
      → IsOperation curr lhs rhs
      → k < code lhs_op
      → ((q : Pointer) (op : TokenKind)
          → IsSound q
          → Under op q
          → Yields IsSound (parse_operators src base n q op))
      → Yields IsSound (
          deref lhs >>= λ outer. rotate outer curr >>= λ outer'.
          parse_operators src base n (to outer') (head outer').tok.kind)
  lower-IsSound n lhs lhs_op rhs curr s u c l again = Yields-bind (deref-to lhs) λ outer e.
      let w = two_operands outer (subst IsSound e s, subst (Under lhs_op) e u (omega arith)) in
      Yields-bind (rotate-IsOperator outer curr w.0 w.1 lhs rhs w.2 c)
        λ outer' o. again (to outer') (head outer').tok.kind o.0 (λ _. o.1)

  parse_operators-IsSound :
      (n : ℕ) (lhs : Pointer) (lhs_op : TokenKind)
      → IsSound lhs
      → Under lhs_op lhs
      → Yields IsSound (parse_operators src base n lhs lhs_op)
  unfolding parse_operators push_kid
  parse_operators-IsSound zero lhs lhs_op s u = Yields-give_up
  parse_operators-IsSound (suc n) lhs lhs_op s u = Yields-bind (peek-Any src) λ t _.
      Yields-if (is_binary_op t.kind)
        (λ _. Yields-bind (next-Any src) λ op _. Yields-bind base_sound λ rhs r.
          Yields-bind (add_tok_node-Is _ op) λ node made.
            Yields-bind (add_kid-Is _ _ node lhs made) λ node' made'.
              Yields-bind (add_kid-Is _ _ node' rhs made') λ curr made''.
                let c : IsOperation curr lhs rhs = (made'', s, r) in
                Yields-if (ltb (code op.kind) (code lhs_op))
                  (λ lower.
                    lower-IsSound n lhs lhs_op rhs curr s u c (ltb→lt _ _ lower)
                      (parse_operators-IsSound n))
                  (λ _. Yields-bind (kid_errs-Any curr lhs rhs c) λ e _.
                    parse_operators-IsSound n (to (set_err e curr)) op.kind
                      (IsOperation-IsTree (set_err e curr) lhs rhs
                        (Is-set_err _ _ e curr c.0, c.1, c.2))
                      (λ _. (Is-set_err _ _ e curr c.0).0)))
        (λ _. Yields-pure lhs s)

  pub parse_operation-IsSound : (n : ℕ) → Yields IsSound (parse_operation src base n)
  unfolding parse_operation code
  parse_operation-IsSound n =
      Yields-bind base_sound
        λ lhs s. parse_operators-IsSound n lhs TokenKind.uninitialized s (start lhs)
    where
      start : (lhs : Pointer) → Under TokenKind.uninitialized lhs
      start null = tt
      start (to n) = λ l. absurd (omega arith)
