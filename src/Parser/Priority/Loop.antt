-- ===== src/Parser/Priority/Loop.antt =====
-- `parse_expression` of examples/parser.cpp places each operator and operand in the tree of what stands
-- before it.
use mathlib.Core.Path.{subst}
use cxb.Prelude.{
  ℕ, zero, suc, ◌+◌, ◌<◌, ◌≡◌, refl, sym, ap, ◌∙◌, true, false, inl, List, [], ◌∷◌, ltb, ltb→lt,
  if◌then◌else◌, arith, length,
}
use cxb.Lexer.Tokens.{Token, TokenKind, code, is_binary_op}
use cxb.Ast.{
  Head, AstNode, Pointer, NodeKind, ast, to, no_kids, kid, head, kids, kid_at, set_kid, set_err,
}
use cxb.Parser.State.{
  Source, Parser, ParseError, Parse, ◌>>=◌, pure, node_words, add_tok_node, add_kid, deref,
  in_bounds, get_kid, put_kid, get_err, kid_errs,
}
use cxb.Parser.Operators.{rotate, parse_operators, parse_operation}
use cxb.Parser.Returns.{
  Returns, Returns-bind, Returns-pure, Returns-pure_bind, Returns-if, Waits, Ready, peek-Ready,
  next-Waits, add_node-Returns, two_kids-Returns, Ready-fits, Ready-at,
}
use cxb.Parser.Priority.{
  Tree, leaf, op, place, arrange, forget, IsAtom, IsPlain, AreOperations, IsEnd, spell, need,
}
use cxb.Parser.Priority.Atoms.{IsLeaf}

-- An operator with two operands that are there.
abbrev operation : Head → AstNode → AstNode → AstNode
operation h a b = ast h (kid (to a) (kid (to b) no_kids))

kid_errs-Returns :
    (h : Head) (a b : AstNode) (p : Parser)
    → Returns (λ e p'. p' ≡ p) (kid_errs (operation h a b)) p
unfolding kid_errs get_kid get_err deref in_bounds kid_at kids ◌>>=◌ pure
kid_errs-Returns h a b p =
    Returns-if (head a).err (λ _. Returns-pure true refl) (λ _. Returns-pure _ refl)

-- What the rotation makes of an operator and the next one.
abbrev IsRotated : Head → Head → AstNode → AstNode → AstNode → AstNode → Type 0
IsRotated h c x y r m =
    (h' : Head) × (c' : Head) × (m ≡ operation h' x (operation c' y r))
    × (h'.tok ≡ h.tok)
    × (c'.tok ≡ c.tok)

rotate-Returns :
    (h c : Head) (x y l r : AstNode) (p : Parser)
    → Returns
        (λ m p'. IsRotated h c x y r m × (p' ≡ p))
        (rotate (operation h x y) (operation c l r))
        p
unfolding rotate get_kid put_kid in_bounds kid_at set_kid set_err head kids ◌>>=◌ pure
rotate-Returns h c x y l r p =
    Returns-bind
      {f = λ e. pure (operation (record h { err = e }) x (operation (record c { err = e }) y r))}
      (kid_errs-Returns c y r p) λ e p' same. Returns-pure _ ((_, _, refl, refl, refl), same)

-- What the loop knows of `lhs` and `lhs_op`.
abbrev IsRoot : TokenKind → AstNode → Type 0
IsRoot k (ast h no_kids) = code k ≡ 0
IsRoot k (ast h (kid (to a) (kid (to b) no_kids))) = h.tok.kind ≡ k
IsRoot k _ = ⊥

module _ (src : Source) (base : Parse Pointer)
    (atom : (t u : Token) (ts : List Token) (es : List ParseError) (room : ℕ) (p : Parser)
      → IsAtom t.kind
      → IsPlain u.kind
      → Ready src (t ∷ u ∷ ts) es (node_words + room) p
      → Returns (λ q p'. IsLeaf t q × Ready src (u ∷ ts) es room p') base p)
    (e : Token) (rest : List Token) (es : List ParseError) (end : IsEnd e.kind) (left : ℕ) where
  -- The tree that is returned, and the token behind it.
  abbrev pub Arranged : Tree → List (Token × Token) → Pointer → Parser → Type 0
  Arranged t ops q p =
      (m : AstNode) × (q ≡ to m) × (forget m ≡ arrange t ops) × Waits src e rest es left p

  -- The rest of the loop, from a tree on.
  abbrev Again : ℕ → List (Token × Token) → Type 0
  Again n ops =
      (lhs : AstNode) (k : TokenKind) (p : Parser)
      → IsRoot k lhs
      → Ready src (spell ops (e ∷ rest)) es (need ops left) p
      → Returns (Arranged (forget lhs) ops) (parse_operators src base n (to lhs) k) p

  -- A round behind the operand.
  abbrev round : ℕ → AstNode → TokenKind → Token → AstNode → Parse Pointer
  round n lhs k o curr =
      if ltb (code o.kind) (code k)
      then (deref (to lhs) >>= λ outer. rotate outer curr >>= λ outer'.
          parse_operators src base n (to outer') (head outer').tok.kind)
      else (kid_errs curr >>= λ b. parse_operators src base n (to (set_err b curr)) o.kind)

  abbrev Done : Token → Token → AstNode → List (Token × Token) → Pointer → Parser → Type 0
  Done o b lhs ops = Arranged (place o b (forget lhs)) ops

  same_tree :
      (ops : List (Token × Token)) {t t' : Tree} {x : Parse Pointer} {p : Parser}
      → t ≡ t'
      → Returns (Arranged t' ops) x p
      → Returns (Arranged t ops) x p
  same_tree ops {x} {p} e h = subst (λ t. Returns (Arranged t ops) x p) (sym e) h

  module _ (n : ℕ) (ops : List (Token × Token)) (again : Again n ops) (k : TokenKind) (c r : Head)
      (p : Parser) (ready : Ready src (spell ops (e ∷ rest)) es (need ops left) p) where
    above-Returns :
        (lhs : AstNode)
        → Returns
            (Arranged (op c.tok (forget lhs) (leaf r.tok)) ops)
            (kid_errs (operation c lhs (ast r no_kids)) >>= λ b.
              parse_operators src base n
                (to (set_err b (operation c lhs (ast r no_kids))))
                c.tok.kind)
            p
    unfolding set_err
    above-Returns lhs = Returns-bind (kid_errs-Returns c lhs (ast r no_kids) p) λ b p' same.
        again (operation (record c { err = b }) lhs (ast r no_kids)) c.tok.kind p' refl
          (subst (Ready src (spell ops (e ∷ rest)) es (need ops left)) (sym same) ready)

    below-Returns :
        (h : Head) (x y : AstNode)
        → Returns
            (Arranged (op h.tok (forget x) (op c.tok (forget y) (leaf r.tok))) ops)
            (rotate (operation h x y) (operation c (operation h x y) (ast r no_kids)) >>= λ outer'.
              parse_operators src base n (to outer') (head outer').tok.kind)
            p
    unfolding head
    below-Returns h x y =
        Returns-bind (rotate-Returns h c x y (operation h x y) (ast r no_kids) p)
          λ outer' p' ((h', c', made, t, u), same).
            let ready' =
              subst (Ready src (spell ops (e ∷ rest)) es (need ops left)) (sym same) ready in
            let root = operation h' x (operation c' y (ast r no_kids)) in
            let tree : op h.tok (forget x) (op c.tok (forget y) (leaf r.tok)) ≡ forget root =
              rw (t, u) refl in
            same_tree ops tree (
              subst
                (λ m.
                  Returns (Arranged (forget root) ops)
                    (parse_operators src base n (to m) (head m).tok.kind) p')
                (sym made) (again root h'.tok.kind p' refl ready'))

    round-Returns :
        (lhs : AstNode)
        → IsRoot k lhs
        → Returns
            (Done c.tok r.tok lhs ops)
            (round n lhs k c.tok (operation c lhs (ast r no_kids)))
            p
    unfolding deref head
    round-Returns (ast h no_kids) zero_code =
        Returns-if (ltb (code c.tok.kind) (code k))
          (λ lower. absurd (omega (arith, ltb→lt _ _ lower))) (λ _. above-Returns (ast h no_kids))
    round-Returns (ast h (kid (to x) (kid (to y) no_kids))) same_kind =
        Returns-if (ltb (code c.tok.kind) (code k))
          (λ lower.
            let same = ap (λ q. ltb (code c.tok.kind) (code q)) same_kind ∙ lower in
            same_tree ops (rw same refl)
              (Returns-pure_bind (operation h x y) _ (below-Returns h x y)))
          (λ higher.
            let same = ap (λ q. ltb (code c.tok.kind) (code q)) same_kind ∙ higher in
            same_tree ops (rw same refl) (above-Returns (operation h x y)))
    round-Returns _ root = absurd root

  pushed :
      (ops : List (Token × Token)) (room : ℕ) (p : Parser)
      → Ready src (spell ops (e ∷ rest)) es room p
      → (n room' : ℕ) → n + room' < p.end
      → Ready src (spell ops (e ∷ rest)) es room' (record p { pos = n })
  pushed [] room p ready n room' fits = Ready-at src e rest es room p n room' fits ready
  pushed ((o, b) ∷ ops) room p ready n room' fits =
      Ready-at src o (b ∷ spell ops (e ∷ rest)) es room p n room' fits ready

  -- The operand behind an operator, or the first one.
  operand :
      (ops : List (Token × Token)) (b : Token)
      → AreOperations ops
      → IsAtom b.kind
      → (room : ℕ) (p : Parser) → Ready src (b ∷ spell ops (e ∷ rest)) es (node_words + room) p
      → Returns (λ q p'. IsLeaf b q × Ready src (spell ops (e ∷ rest)) es room p') base p
  operand [] b all is_atom room p ready = atom b e rest es room p is_atom end.1 ready
  operand ((o, c) ∷ ops) b (h, all) is_atom room p ready =
      atom b o (c ∷ spell ops (e ∷ rest)) es room p is_atom h.1 ready

  -- A round from the node of the operator on: its kids are pushed one behind the other.
  placed-Returns :
      (n : ℕ) (ops : List (Token × Token)) (lhs : AstNode) (k : TokenKind) (o t b : Token)
      (node : AstNode) (rhs : Pointer) (p : Parser)
      → Again n ops
      → IsRoot k lhs
      → t ≡ o
      → ((c : Head) × (node ≡ ast c no_kids) × (c.kind ≡ NodeKind.bin_op) × (c.tok ≡ t))
      → IsLeaf b rhs
      → Ready src (spell ops (e ∷ rest)) es (2 + need ops left) p
      → Returns
          (Done o b lhs ops)
          (add_kid node (to lhs) >>= λ node'. add_kid node' rhs >>= λ curr. round n lhs k t curr)
          p
  placed-Returns n ops lhs k o t b node rhs p again root is (c, made, _, tok) (r, leafs, name)
        ready =
      let fits = Ready-fits src (spell ops (e ∷ rest)) es (2 + need ops left) p ready in
      let ready' =
        pushed ops (2 + need ops left) p ready (p.pos + 1 + 1) (need ops left)
          (omega (arith, fits)) in
      rw (made, leafs)
        (two_kids-Returns (round n lhs k t) c (to lhs) (to (ast r no_kids)) p (omega (arith, fits))
          λ c' same.
            let h =
              round-Returns n ops again k c' r (record p { pos = p.pos + 1 + 1 }) ready' lhs root in
            let h₁ =
              subst
                (λ (u : Token).
                  Returns (Done u r.tok lhs ops)
                    (round n lhs k u (operation c' lhs (ast r no_kids)))
                    (record p { pos = p.pos + 1 + 1 }))
                (same ∙ tok) h in
            let h₂ =
              subst
                (λ (u : Token).
                  Returns (Done t u lhs ops) (round n lhs k t (operation c' lhs (ast r no_kids)))
                    (record p { pos = p.pos + 1 + 1 }))
                name h₁ in
            subst
              (λ (u : Token).
                Returns (Done u b lhs ops) (round n lhs k t (operation c' lhs (ast r no_kids)))
                  (record p { pos = p.pos + 1 + 1 }))
              is h₂)

  nothing-Returns :
      (n : ℕ) (lhs : AstNode) (k : TokenKind) (p : Parser)
      → Ready src (e ∷ rest) es left p
      → Returns (Arranged (forget lhs) []) (parse_operators src base (suc n) (to lhs) k) p
  unfolding parse_operators
  nothing-Returns n lhs k p ready =
      Returns-bind (peek-Ready src e rest es left p ready) λ t p' (is, w).
        Returns-if (is_binary_op t.kind)
          (λ binary. let no = ap (λ (x : Token). is_binary_op x.kind) is ∙ end.0 in cc)
          (λ _. Returns-pure (to lhs) (lhs, refl, refl, w))

  operators-Returns :
      (n : ℕ) (ops : List (Token × Token)) → length ops < n → AreOperations ops → Again n ops
  unfolding parse_operators add_tok_node
  operators-Returns zero ops l all lhs k p root ready = absurd (omega arith)
  operators-Returns (suc n) [] l all lhs k p root ready = nothing-Returns n lhs k p ready
  operators-Returns (suc n) ((o, b) ∷ ops) l ((binary, plain, is_atom), all) lhs k p root ready =
      let tail = b ∷ spell ops (e ∷ rest) in
      let room₁ = node_words + (2 + need ops left) in
      Returns-bind (peek-Ready src o tail es (node_words + room₁) p ready) λ t p₁ (is, w).
        Returns-if (is_binary_op t.kind)
          (λ _. Returns-bind (next-Waits src o tail es (node_words + room₁) p₁ w) λ t' p₂ (is', f).
            Returns-bind (operand ops b all is_atom room₁ p₂ (inl f)) λ rhs p₃ (leafs, ready').
              let fits = Ready-fits src (spell ops (e ∷ rest)) es room₁ p₃ ready' in
              Returns-bind
                (add_node-Returns NodeKind.bin_op _ t' false p₃
                  (Ready src (spell ops (e ∷ rest)) es (2 + need ops left)) (omega (arith, fits))
                  (pushed ops room₁ p₃ ready' (p₃.pos + node_words) (2 + need ops left)
                    (omega (arith, fits))))
                λ node p₄ (made, ready'').
                  placed-Returns n ops lhs k o t' b node rhs p₄
                    (operators-Returns n ops (omega arith) all) root is' made leafs ready'')
          (λ no. let yes' = ap (λ (x : Token). is_binary_op x.kind) is ∙ binary in cc)

  pub parse_operation-Returns :
      (n : ℕ) (ops : List (Token × Token)) (a : Token)
      → length ops < n
      → AreOperations ops
      → IsAtom a.kind
      → (p : Parser) → Ready src (a ∷ spell ops (e ∷ rest)) es (node_words + need ops left) p
      → Returns (Arranged (leaf a) ops) (parse_operation src base n) p
  unfolding parse_operation code
  parse_operation-Returns n ops a l all is_atom p ready =
      Returns-bind (operand ops a all is_atom (need ops left) p ready)
        λ q p' ((h, is, tok), ready').
          let first = TokenKind.uninitialized in
          let loop = operators-Returns n ops l all (ast h no_kids) first p' refl ready' in
          subst (λ x. Returns (Arranged (leaf a) ops) (parse_operators src base n x first) p')
            (sym is)
            (subst
              (λ t.
                Returns (Arranged (leaf t) ops)
                  (parse_operators src base n (to (ast h no_kids)) first) p')
              tok loop)
