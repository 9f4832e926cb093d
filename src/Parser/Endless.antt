-- ===== src/Parser/Endless.antt =====
-- The loop over the arguments of a call in examples/parser.cpp at the end of the text.
use mathlib.Core.Path.{subst}
use cxb.Lexer.Stream.{Stream, peek_tok}
use cxb.Prelude.{
  Option, none, some, ◌≤◌, ℕ, zero, suc, ◌+◌, ◌<◌, ◌==◌, ◌||◌, ltb, ltb→lt, Bool-cases, inl, arith,
  ◌≡◌, refl, sym, ap, ◌∙◌, Bool, true, false, inr, List, ◌∷◌,
}
use cxb.Lexer.Tokens.{Token, TokenKind, code, kind_eq, is_binary_op, is_unary_op}
use cxb.Ast.{AstNode, Pointer, null, head, kids, are_null}
use cxb.Parser.State.{
  peek, peek_is, read_token, Source, Parser, ParseError, Outcome, done, stopped, Parse, ◌>>=◌, ◌>>◌,
  pure, and_then, push_words, add_kid,
}
use cxb.Parser.Literals.{parse_literal, parse_no_expression}
use cxb.Parser.Operators.{parse_operators, parse_operation}
use cxb.Parser.Expressions.{parse_branch, parse_operand, parse_arguments}
use cxb.Parser.{parse_expression_base, parse_expression, parse_statement_list}
use cxb.Parser.Returns.{
  Returns, returns, Returns-Total, Returns-done, Returns-bind, Returns-pure, Returns-if, Waits,
  Ready, Ready-fits, Returns-at, peek-Ready, Waits-at,
}

-- The call returns, and what it returns has a property that follows from the call alone.
Returns-and :
    {A : Type 0} {P Q : A → Parser → Type 0} {x : Parse A} {p : Parser}
    → Returns P x p
    → ((a : A) (p' : Parser) → x p ≡ done (a, p') → Q a p')
    → Returns (λ a p'. P a p' × Q a p') x p
Returns-and h k = let (a, p', e, q) = Returns-done h in Returns-at a p' e (q, k a p' e)

-- Nothing was pushed on the arena of the tree.
abbrev Same : Parser → Parser → Type 0
Same p p' = (p'.pos ≡ p.pos) × (p'.end ≡ p.end)

Same-trans : (p p₁ p₂ : Parser) → Same p p₁ → Same p₁ p₂ → Same p p₂
Same-trans p p₁ p₂ (a, b) (c, d) = (c ∙ a, d ∙ b)

abbrev Keeps : {A : Type 0} → Parser → Outcome (A × Parser) → Type 0
Keeps p (done (a, p')) = Same p p'
Keeps p _ = Unit {0}

read_token-Keeps :
    (p : Parser) (f : Stream → Token) (o : Option Stream) → Keeps p (read_token p f o)
unfolding read_token
read_token-Keeps p f none = tt
read_token-Keeps p f (some s) = (refl, refl)

peek-Keeps : (src : Source) (p : Parser) → Keeps p (peek src p)
unfolding peek
peek-Keeps src p =
    read_token-Keeps p (λ s. s.next_tok) (peek_tok src.memory src.buffer src.rounds p.stream)

module _ (src : Source) (t : Token) (ts : List Token) (es : List ParseError)
    (ends : t.kind ≡ TokenKind.eof) where
  peek-Same :
      (p : Parser)
      → Ready src (t ∷ ts) es 0 p
      → Returns (λ a p'. ((a ≡ t) × Waits src t ts es 0 p') × Same p p') (peek src) p
  peek-Same p r =
      Returns-and {Q = λ a p'. Same p p'} (peek-Ready src t ts es 0 p r)
        (λ a p' e. subst (Keeps p) e (peek-Keeps src p))

  peek_is-Same :
      (k : TokenKind) (p : Parser)
      → Ready src (t ∷ ts) es 0 p
      → Returns
          (λ b p'. ((b ≡ kind_eq t.kind k) × Waits src t ts es 0 p') × Same p p')
          (peek_is src k)
          p
  unfolding peek_is
  peek_is-Same k p r =
      Returns-bind (peek-Same p r)
        λ a p' ((e, w), same). Returns-pure _ ((ap (λ (u : Token). kind_eq u.kind k) e, w), same)

  -- No node is read, nothing is pushed, and the end is still the next token.
  abbrev AtEnd : Parser → Pointer → Parser → Type 0
  AtEnd p q p' = (q ≡ null) × Waits src t ts es 0 p' × Same p p'

  branch-AtEnd :
      (expression base : Parse Pointer) (n : ℕ) (list : AstNode → Parse AstNode) (k : TokenKind)
      (p : Parser)
      → k ≡ TokenKind.eof
      → Waits src t ts es 0 p
      → Returns (AtEnd p) (parse_branch src expression base n list k) p
  unfolding parse_branch parse_literal parse_no_expression kind_eq code is_unary_op
  branch-AtEnd expression base n list k p e w =
      subst (λ x. Returns (AtEnd p) (parse_branch src expression base n list x) p) (sym e)
        (Returns-pure null (refl, w, (refl, refl)))

  moved_start :
      (p p₁ : Parser) {x : Parse Pointer}
      → Same p p₁
      → Returns (AtEnd p₁) x p₁
      → Returns (AtEnd p) x p₁
  moved_start p p₁ same h =
      let (q, p₂, e, (null', w, same')) = Returns-done h in
      Returns-at q p₂ e (null', w, Same-trans p p₁ p₂ same same')

  base-AtEnd :
      (n : ℕ) (p : Parser)
      → Ready src (t ∷ ts) es 0 p
      → Returns (AtEnd p) (parse_expression_base src (suc n)) p
  unfolding parse_expression_base parse_operand
  base-AtEnd n p r = returns (
      Returns-Total (
        Returns-bind (peek-Same p r) λ a p' ((e, w), same). moved_start p p' same (
          branch-AtEnd (parse_expression src n) (parse_expression_base src n) n
            (parse_statement_list src n true) a.kind p' (ap (λ (x : Token). x.kind) e ∙ ends) w)))

  operators-AtEnd :
      (base : Parse Pointer) (n : ℕ) (k : TokenKind) (p : Parser)
      → Waits src t ts es 0 p
      → Returns (AtEnd p) (parse_operators src base (suc n) null k) p
  unfolding parse_operators is_binary_op code
  operators-AtEnd base n k p w = Returns-bind (peek-Same p (inr w)) λ a p' ((e, w'), same).
      Returns-if (is_binary_op a.kind)
        (λ binary.
          let other : is_binary_op a.kind ≡ false =
            ap is_binary_op (ap (λ (x : Token). x.kind) e ∙ ends) in
          cc)
        (λ _. Returns-pure null (refl, w', same))

  expression-AtEnd :
      (n : ℕ) (p : Parser)
      → Ready src (t ∷ ts) es 0 p
      → Returns (AtEnd p) (parse_expression src (suc (suc n))) p
  unfolding parse_expression parse_operation
  expression-AtEnd n p r = returns (
      Returns-Total (
        Returns-bind (base-AtEnd n p r) λ q p' (e, w, same).
          subst
            (λ x.
              Returns (AtEnd p)
                (parse_operators src (parse_expression_base src (suc n)) (suc n) x
                  TokenKind.uninitialized)
                p')
            (sym e)
            (moved_start p p' same (operators-AtEnd (parse_expression_base src (suc n)) n _ p' w))))

-- A call that fails an assertion.
data Stops (x : Parse AstNode) (p : Parser) : Type 0 where
  stops : x p ≡ stopped → Stops x p

Stops-stopped : {x : Parse AstNode} {p : Parser} → Stops x p → x p ≡ stopped
Stops-stopped (stops h) = h

-- A call that returns goes before one that fails an assertion.
Stops-bind :
    {A : Type 0} {P : A → Parser → Type 0} {x : Parse A} {f : A → Parse AstNode} {p : Parser}
    → Returns P x p
    → ((a : A) (p' : Parser) → P a p' → Stops (f a) p')
    → Stops (x >>= f) p
unfolding ◌>>=◌
Stops-bind {f} h k =
    let (a, p', e, q) = Returns-done h in
    stops (ap (λ r. and_then r (λ (b, p''). f b p'')) e ∙ Stops-stopped (k a p' q))

-- A kid is pushed, or the program stops.
add_kid-Stops :
    (n : AstNode) (q : Pointer) (p : Parser) {f : AstNode → Parse AstNode}
    → ((m : AstNode) → p.pos + 1 < p.end → Stops (f m) (record p { pos = p.pos + 1 }))
    → Stops (add_kid n q >>= f) p
unfolding ◌>>=◌ add_kid push_words
add_kid-Stops n q p h = elim (Bool-cases (are_null (kids n) || (head n).kids_end == p.pos)) [
  | inl adjacent ↦ elim (Bool-cases (ltb (p.pos + 1) p.end)) [
    | inl fits ↦ stops (rw (adjacent, fits) (Stops-stopped (h _ (ltb→lt _ _ fits))))
    | inr full ↦ stops (rw (adjacent, full) refl)
  ]
  | inr apart ↦ stops (rw apart refl)
]

skip-Stops : (x : Parse AstNode) {p : Parser} → Stops x p → Stops (pure tt >> x) p
unfolding ◌>>◌ ◌>>=◌ pure
skip-Stops x h = stops (Stops-stopped h)

module _ (src : Source) (t : Token) (ts : List Token) (es : List ParseError)
    (ends : t.kind ≡ TokenKind.eof) where
  is_not :
      (k : TokenKind) {b : Bool}
      → b ≡ kind_eq t.kind k
      → kind_eq TokenKind.eof k ≡ false
      → b ≡ false
  is_not k e other = e ∙ ap (λ x. kind_eq x k) ends ∙ other

  arguments-Stops :
      (n k : ℕ) (args : AstNode) (p : Parser)
      → p.end ≤ p.pos + n
      → Ready src (t ∷ ts) es 0 p
      → Stops (parse_arguments src (parse_expression src (suc (suc k))) n args) p
  unfolding parse_arguments kind_eq code
  arguments-Stops zero k args p enough r =
      let fits = Ready-fits src (t ∷ ts) es 0 p r in absurd (omega arith)
  arguments-Stops (suc n) k args p enough r =
      Stops-bind (peek_is-Same src t ts es ends TokenKind.bracket_right p r)
        λ closed p₁ ((e, w), (at₁, end₁)). rw (is_not TokenKind.bracket_right e refl) (
          Stops-bind (expression-AtEnd src t ts es ends k p₁ (inr w)) λ arg p₂ (_, w₂, (at₂, end₂)).
            add_kid-Stops args arg p₂ λ args' fits.
              let p₃ = record p₂ { pos = p₂.pos + 1 } in
              Stops-bind
                (peek_is-Same src t ts es ends TokenKind.comma p₃
                  (inr (Waits-at src t ts es 0 p₂ (p₂.pos + 1) 0 (omega arith) w₂)))
                λ comma p₄ ((e₄, w₄), (at₄, end₄)).
                  rw (is_not TokenKind.comma e₄ refl)
                    (skip-Stops _ (arguments-Stops n k args' p₄ (omega arith) (inr w₄))))

  -- At the end of the text, where the closing bracket of a call is missing, the loop over the arguments
  -- ends with a failed assertion: with at least as many rounds as there are words left on the arena of
  -- the tree, the program is stopped, whatever was read before.
  pub parse_arguments-stopped :
      (n k : ℕ) (args : AstNode) (p : Parser)
      → p.end ≤ p.pos + n
      → Ready src (t ∷ ts) es 0 p
      → parse_arguments src (parse_expression src (suc (suc k))) n args p ≡ stopped
  parse_arguments-stopped n k args p enough r = Stops-stopped (arguments-Stops n k args p enough r)
