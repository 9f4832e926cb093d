-- ===== src/Parser/Priority/Atoms.antt =====
-- The names, strings and `nil` that `parse_expression_base` of examples/parser.cpp reads.
use mathlib.Core.Path.{subst}
use cxb.Prelude.{ℕ, ◌+◌, arith, ◌≡◌, sym, ap, ◌∙◌, false, inl, inr, List, ◌∷◌}
use cxb.Lexer.Tokens.{Token, TokenKind, code, kind_eq, is_unary_op}
use cxb.Ast.{Head, AstNode, Pointer, NodeKind, ast, to, no_kids}
use cxb.Parser.State.{Source, Parser, ParseError, Parse, node_words, add_tok_node}
use cxb.Parser.Literals.{parse_nil, parse_string, parse_literal}
use cxb.Parser.Expressions.{parse_identifier, parse_branch, parse_operand}
use cxb.Parser.Returns.{
  Returns, Returns-bind, Returns-pure, Returns-if, Fresh, Waits, Ready, peek-Fresh, peek-Ready,
  next-Waits, add_node-Returns, Fresh-at, Waits-at,
}
use cxb.Parser.Priority.{IsAtom, IsPlain}

-- A node without kids, with the token.
abbrev pub IsLeaf : Token → Pointer → Type 0
IsLeaf t q = (h : Head) × (q ≡ to (ast h no_kids)) × (h.tok ≡ t)

module _ (src : Source) (t u : Token) (ts : List Token) (es : List ParseError) (room : ℕ) where
  -- What a literal or a name leaves.
  abbrev Read : Pointer → Parser → Type 0
  Read q p = IsLeaf t q × Ready src (u ∷ ts) es room p

  abbrev Unread : Parser → Type 0
  Unread p = Waits src t (u ∷ ts) es (node_words + room) p

  parse_nil-Returns : (p : Parser) → Unread p → Returns Read (parse_nil src) p
  unfolding parse_nil add_tok_node
  parse_nil-Returns p w =
      Returns-bind (next-Waits src t (u ∷ ts) es (node_words + room) p w) λ lit p₁ (e, f).
        Returns-bind
          (add_node-Returns NodeKind.nil_lit _ lit false p₁ (Fresh src (u ∷ ts) es room)
            (omega (arith, f.has_room))
            (Fresh-at src t (u ∷ ts) es (node_words + room) p₁ (p₁.pos + node_words) room
              (omega (arith, f.has_room)) f))
          λ node p₂ ((h, made, k, tok), f').
            Returns-pure (to node) ((h, ap to made, tok ∙ e), inl f')

  parse_string-Returns : (p : Parser) → Unread p → Returns Read (parse_string src) p
  unfolding parse_string
  parse_string-Returns p w =
      Returns-bind (next-Waits src t (u ∷ ts) es (node_words + room) p w) λ lit p₁ (e, f).
        Returns-bind
          (add_node-Returns NodeKind.string_lit _ lit lit.err p₁ (Fresh src (u ∷ ts) es room)
            (omega (arith, f.has_room))
            (Fresh-at src t (u ∷ ts) es (node_words + room) p₁ (p₁.pos + node_words) room
              (omega (arith, f.has_room)) f))
          λ node p₂ ((h, made, k, tok), f').
            Returns-pure (to node) ((h, ap to made, tok ∙ e), inl f')

  module _ (expression base : Parse Pointer) (list : AstNode → Parse AstNode) (n : ℕ)
      (plain : IsPlain u.kind) where
    parse_identifier-Returns :
        (p : Parser) → Unread p → Returns Read (parse_identifier src expression base n) p
    unfolding parse_identifier add_tok_node
    parse_identifier-Returns p w =
        Returns-bind (next-Waits src t (u ∷ ts) es (node_words + room) p w) λ id p₁ (e, f).
          Returns-bind (peek-Fresh src u ts es (node_words + room) p₁ f) λ v p₂ (e', w').
            let k = ap (λ (x : Token). x.kind) e' in
            Returns-if (kind_eq v.kind TokenKind.colon_op)
              (λ is. let no = ap (λ x. kind_eq x TokenKind.colon_op) k ∙ plain.0 in cc)
              λ _.
                Returns-if (kind_eq v.kind TokenKind.colon_equals_op)
                  (λ is. let no = ap (λ x. kind_eq x TokenKind.colon_equals_op) k ∙ plain.1 in cc)
                  λ _.
                    Returns-if (kind_eq v.kind TokenKind.bracket_left)
                      (λ is. let no = ap (λ x. kind_eq x TokenKind.bracket_left) k ∙ plain.2 in cc)
                      λ _.
                        Returns-bind
                          (add_node-Returns NodeKind.identifier _ id false p₂
                            (Waits src u ts es room) (omega (arith, w'.keeps_room))
                            (Waits-at src u ts es (node_words + room) p₂ (p₂.pos + node_words) room
                              (omega (arith, w'.keeps_room)) w'))
                          λ node p₃ ((h, made, _, tok), w'').
                            Returns-pure (to node) ((h, ap to made, tok ∙ e), inr w'')

    parse_branch-Returns :
        (k : TokenKind) (p : Parser)
        → IsAtom k
        → Unread p
        → Returns Read (parse_branch src expression base n list k) p
    unfolding parse_branch parse_literal kind_eq code is_unary_op
    parse_branch-Returns TokenKind.identifier p a w = parse_identifier-Returns p w
    parse_branch-Returns TokenKind.string_literal p a w = parse_string-Returns p w
    parse_branch-Returns TokenKind.nil_literal p a w = parse_nil-Returns p w
    parse_branch-Returns _ p a w = absurd a

    -- A name or a literal is read where there is room for its node, and what stands behind it is ahead.
    pub parse_operand-Returns :
        (p : Parser)
        → IsAtom t.kind
        → Ready src (t ∷ u ∷ ts) es (node_words + room) p
        → Returns Read (parse_operand src expression base n list) p
    unfolding parse_operand
    parse_operand-Returns p a r =
        Returns-bind (peek-Ready src t (u ∷ ts) es (node_words + room) p r) λ v p' (e, w).
          parse_branch-Returns v.kind p' (subst (λ (x : Token). IsAtom x.kind) (sym e) a) w
