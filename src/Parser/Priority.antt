-- ===== src/Parser/Priority.antt =====
-- The trees that `parse_expression` of examples/parser.cpp builds of operands and binary
-- operators, without what a node holds beside its token: each operator is placed in the tree of what
-- stands before it.
pub mod Atoms
pub mod Loop
pub mod Expression
use mathlib.Core.List.{append-nil, append_assoc}
use cxb.Prelude.{
  ℕ, ◌+◌, ◌<◌, ◌≤◌, ◌≡◌, refl, sym, ap, ◌∙◌, Bool, true, false, Bool-cases, inl, inr, List, [], ◌∷◌,
  ◌++◌, ltb, ltb→lt, lt→ltb, ltb-ge, if◌then◌else◌, arith,
}
use cxb.Lexer.Tokens.{Token, TokenKind, code, kind_eq, is_binary_op}
use cxb.Ast.{AstNode, Pointer, Kids, ast, null, to, no_kids, kid}
use cxb.Parser.State.{node_words}

pub data Tree : Type 0 where
  leaf : Token → Tree
  op : Token → Tree → Tree → Tree
  nothing : Tree

-- An operator and the operand behind it. The number of a kind is smaller where it binds more tightly:
-- an operator that does takes over the right operand of the one at the root.
abbrev pub place : Token → Token → Tree → Tree
place o b (op q l r) =
    if ltb (code o.kind) (code q.kind) then op q l (op o r (leaf b)) else op o (op q l r) (leaf b)
place o b t = op o t (leaf b)

-- The operators and operands behind a tree, from the left.
abbrev pub arrange : Tree → List (Token × Token) → Tree
arrange t [] = t
arrange t ((o, b) ∷ ops) = arrange (place o b t) ops

-- A tree of the parser without the heads of its nodes.
abbrev mutual
  pub forget : AstNode → Tree
  forget (ast h (kid a (kid b no_kids))) = op h.tok (forget_at a) (forget_at b)
  forget (ast h ks) = leaf h.tok

  pub forget_at : Pointer → Tree
  forget_at null = nothing
  forget_at (to n) = forget n

-- The tokens of a tree, from left to right.
abbrev pub inorder : Tree → List Token
inorder (leaf t) = t ∷ []
inorder (op t l r) = inorder l ++ t ∷ inorder r
inorder nothing = []

-- Operators and operands as they are written, with what stands behind them.
abbrev pub spell : List (Token × Token) → List Token → List Token
spell [] rest = rest
spell ((o, b) ∷ ops) rest = o ∷ b ∷ spell ops rest

-- The words that the arena of the tree takes for operators and their operands, with more behind: two
-- nodes for each, and two pointers.
abbrev pub need : List (Token × Token) → ℕ → ℕ
need [] room = room
need (_ ∷ ops) room = node_words + (node_words + (2 + need ops room))

-- A name, a string or `nil`.
abbrev pub IsAtom : TokenKind → Type 0
IsAtom TokenKind.identifier = Unit {0}
IsAtom TokenKind.string_literal = Unit {0}
IsAtom TokenKind.nil_literal = Unit {0}
IsAtom _ = ⊥

-- A token that does not go on with a name: no declaration and no call.
abbrev pub IsPlain : TokenKind → Type 0
IsPlain k =
    (kind_eq k TokenKind.colon_op ≡ false)
    × (kind_eq k TokenKind.colon_equals_op ≡ false)
    × (kind_eq k TokenKind.bracket_left ≡ false)

-- Operators and operands.
abbrev pub AreOperations : List (Token × Token) → Type 0
AreOperations [] = Unit {0}
AreOperations ((o, b) ∷ ops) =
    ((is_binary_op o.kind ≡ true) × IsPlain o.kind × IsAtom b.kind) × AreOperations ops

-- A token behind an expression.
abbrev pub IsEnd : TokenKind → Type 0
IsEnd k = (is_binary_op k ≡ false) × IsPlain k

-- No operator binds less tightly than a number says.
abbrev pub AreWithin : ℕ → List (Token × Token) → Type 0
AreWithin c [] = Unit {0}
AreWithin c ((o, b) ∷ ops) = (code o.kind ≤ c) × AreWithin c ops

-- The number of the operator at the root.
abbrev pub root_code : Tree → ℕ
root_code (op q l r) = code q.kind
root_code t = 0

inorder-place : (o b : Token) (t : Tree) → inorder (place o b t) ≡ inorder t ++ o ∷ b ∷ []
inorder-place o b (leaf t) = refl
inorder-place o b nothing = refl
inorder-place o b (op q l r) = elim (Bool-cases (ltb (code o.kind) (code q.kind))) [
  | inl e ↦ rw e (sym (append_assoc (inorder l) (q ∷ inorder r) (o ∷ b ∷ [])))
  | inr e ↦ rw e refl
]

-- The operators and operands are in the tree in the order in which they are written.
pub inorder-arrange :
    (t : Tree) (ops : List (Token × Token)) → inorder (arrange t ops) ≡ inorder t ++ spell ops []
inorder-arrange t [] = sym (append-nil (inorder t))
inorder-arrange t ((o, b) ∷ ops) =
    inorder-arrange (place o b t) ops
    ∙ ap (λ xs. xs ++ spell ops []) (inorder-place o b t)
    ∙ append_assoc (inorder t) (o ∷ b ∷ []) (spell ops [])

root_code-place :
    (o b : Token) (t : Tree)
    → (root_code t ≤ root_code (place o b t)) × (code o.kind ≤ root_code (place o b t))
root_code-place o b (leaf t) = (omega arith, omega arith)
root_code-place o b nothing = (omega arith, omega arith)
root_code-place o b (op q l r) = elim (Bool-cases (ltb (code o.kind) (code q.kind))) [
  | inl e ↦ rw e (omega arith, omega (arith, ltb→lt _ _ e))
  | inr e ↦ rw e (omega (arith, ltb-ge _ _ e), omega arith)
]

-- The operator at the root of the tree binds no more tightly than another.
pub arrange-AreWithin :
    (t : Tree) (ops : List (Token × Token))
    → (root_code t ≤ root_code (arrange t ops)) × AreWithin (root_code (arrange t ops)) ops
arrange-AreWithin t [] = (omega arith, tt)
arrange-AreWithin t ((o, b) ∷ ops) =
    let (le, lt) = root_code-place o b t in
    let (l, all) = arrange-AreWithin (place o b t) ops in (omega arith, (omega arith, all))

-- Behind an operator that binds less tightly, the next two operators are taken from the left.
pub arrange_three :
    (a b c d o₁ o₂ o₃ : Token)
    → code o₂.kind < code o₁.kind
    → code o₃.kind < code o₁.kind
    → arrange (leaf a) ((o₁, b) ∷ (o₂, c) ∷ (o₃, d) ∷ [])
      ≡ op o₁ (leaf a) (op o₃ (op o₂ (leaf b) (leaf c)) (leaf d))
arrange_three a b c d o₁ o₂ o₃ l₂ l₃ =
    rw (lt→ltb (code o₂.kind) (code o₁.kind) l₂, lt→ltb (code o₃.kind) (code o₁.kind) l₃) refl
