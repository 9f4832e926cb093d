-- ===== src/Parser/Priority/Expression.antt =====
-- The trees of `parse_expression` of examples/parser.cpp on operators between names, strings and `nil`.
use mathlib.Core.Path.{subst}
use cxb.Prelude.{ℕ, suc, ◌+◌, true, ◌<◌, ◌≤◌, ◌≡◌, sym, ap, ◌∙◌, List, [], ◌∷◌, length, arith}
use cxb.Lexer.Tokens.{Token, code}
use cxb.Ast.{AstNode, to}
use cxb.Parser.State.{Source, Parser, ParseError, done, node_words}
use cxb.Parser.{parse_expression_base, parse_expression, parse_statement_list}
use cxb.Parser.Returns.{Returns, returns, Returns-Total, Returns-done, Waits, Ready}
use cxb.Parser.Priority.{
  leaf, op, arrange, forget, inorder, root_code, IsAtom, IsPlain, AreOperations, AreWithin, IsEnd,
  spell, need, inorder-arrange, arrange-AreWithin, arrange_three,
}
use cxb.Parser.Priority.Atoms.{IsLeaf, parse_operand-Returns}
use cxb.Parser.Priority.Loop.{parse_operation-Returns}

module _ (src : Source) (n : ℕ) where
  base-Returns :
      (t u : Token) (ts : List Token) (es : List ParseError) (room : ℕ) (p : Parser)
      → IsAtom t.kind
      → IsPlain u.kind
      → Ready src (t ∷ u ∷ ts) es (node_words + room) p
      → Returns
          (λ q p'. IsLeaf t q × Ready src (u ∷ ts) es room p')
          (parse_expression_base src (suc n))
          p
  unfolding parse_expression_base
  base-Returns t u ts es room p a plain r = returns (
      Returns-Total (
        parse_operand-Returns src t u ts es room (parse_expression src n)
          (parse_expression_base src n) (parse_statement_list src n true) n plain p a r))

  module _ (p : Parser) (a : Token) (ops : List (Token × Token)) (e : Token) (rest : List Token)
      (small : length ops ≤ n) (is_atom : IsAtom a.kind) (all : AreOperations ops)
      (end : IsEnd e.kind) (room : ℕ)
      (ready : Ready src (a ∷ spell ops (e ∷ rest)) p.errors (node_words + need ops room) p) where
    -- With rounds for its operators, and with room on the arena of the tree for two nodes and two
    -- pointers for each of them and one node more, an expression of names, strings and `nil` with binary operators
    -- between them, none `:=`, is parsed up to the token behind it, which is neither a binary operator
    -- nor `:`, `:=` or an opening bracket and which is the next token then; no error is added. The
    -- tree, without what nodes hold beside their tokens, is that in which each operator and operand is
    -- placed in the tree of what stands before it.
    pub parse_expression_correct :
        (m : AstNode) × (p' : Parser) × (parse_expression src (suc (suc n)) p ≡ done (to m, p'))
        × (forget m ≡ arrange (leaf a) ops)
        × Waits src e rest p.errors room p'
    unfolding parse_expression
    parse_expression_correct =
        let h =
          parse_operation-Returns src (parse_expression_base src (suc n)) base-Returns e rest
            p.errors end room (suc n) ops a (omega arith) all is_atom p ready in
        let (q, p', run, (m, is, tree, waits)) = Returns-done h in
        (m, p', run ∙ ap (λ x. done (x, p')) is, tree, waits)

    -- The same expressions, with the same room: the tree holds the operands and operators in the order in which they are
    -- written, and no operator binds less tightly than the one at its root.
    pub parse_expression_in_order :
        (m : AstNode) × (p' : Parser) × (parse_expression src (suc (suc n)) p ≡ done (to m, p'))
        × (inorder (forget m) ≡ a ∷ spell ops [])
        × AreWithin (root_code (forget m)) ops
    parse_expression_in_order =
        let (m, p', run, tree, waits) = parse_expression_correct in
        (
          m,
          p',
          run,
          ap inorder tree ∙ inorder-arrange (leaf a) ops,
          subst (λ t. AreWithin (root_code t) ops) (sym tree) (arrange-AreWithin (leaf a) ops).1,
        )

-- In such an expression, with the same room, of three operators of which the second binds more tightly than the first and the
-- third more tightly than the second, as in `a == b + c * d`, the third is applied to the result of the
-- second: the one that binds most tightly of all is evaluated behind the other.
pub parse_expression_three :
    (src : Source) (n : ℕ) (p : Parser) (a b c d o₁ o₂ o₃ e : Token) (rest : List Token) (room : ℕ)
    → IsAtom a.kind
    → AreOperations ((o₁, b) ∷ (o₂, c) ∷ (o₃, d) ∷ [])
    → IsEnd e.kind
    → Ready src
        (a ∷ o₁ ∷ b ∷ o₂ ∷ c ∷ o₃ ∷ d ∷ e ∷ rest)
        p.errors
        (node_words + need ((o₁, b) ∷ (o₂, c) ∷ (o₃, d) ∷ []) room)
        p
    → code o₂.kind < code o₁.kind
    → code o₃.kind < code o₂.kind
    → (m : AstNode) × (p' : Parser) × (parse_expression src (suc (suc (suc (suc (suc n))))) p
        ≡ done (to m, p'))
      × (forget m ≡ op o₁ (leaf a) (op o₃ (op o₂ (leaf b) (leaf c)) (leaf d)))
parse_expression_three src n p a b c d o₁ o₂ o₃ e rest room is_atom all end ready l₂ l₃ =
    let ops : List (Token × Token) = (o₁, b) ∷ (o₂, c) ∷ (o₃, d) ∷ [] in
    let (m, p', run, tree, waits) =
      parse_expression_correct src (suc (suc (suc n))) p a ops e rest (omega arith) is_atom all end
        room ready in
    (m, p', run, tree ∙ arrange_three a b c d o₁ o₂ o₃ l₂ (omega arith))
