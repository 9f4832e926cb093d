-- ===== src/Parser/Shape.antt =====
-- The shape of a tree of examples/parser.h: the number of kids that the comments on `NodeKind` and the
-- comments of the parser give to a kind.
pub mod Operators
pub mod Literals
pub mod Control
pub mod Expressions
pub mod Types
pub mod Declarations
pub mod Module
use cxb.Prelude.{ℕ, suc, ◌+◌, ◌≤◌, ◌≡◌, refl, ap, ◌∙◌, Bool, arith}
use cxb.Ast.{
  AstNode, Pointer, NodeKind, Kids, ast, null, to, no_kids, kid, head, kids, len, push_kid,
  with_kid, set_last, set_last_kid,
}
use cxb.Lexer.Tokens.{TokenKind}
use cxb.Parser.State.{Source, Parse, pure, Message, add_err, add_kid, consume_expect_wn}
use cxb.Parser.Yields.{
  Yields, Yields-pure, Yields-map, Is, add_kid-Is, add_err-Is, consume_expect_wn-Is,
}

-- How many kids a node of a kind has.
abbrev pub Fits : NodeKind → ℕ → Type 0
Fits NodeKind.none_node n = ⊥
Fits NodeKind.body n = Unit {0}
Fits NodeKind.params_decl n = Unit {0}
Fits NodeKind.params n = Unit {0}
Fits NodeKind.identifier n = n ≡ 0
Fits NodeKind.string_lit n = n ≡ 0
Fits NodeKind.int_lit n = n ≡ 0
Fits NodeKind.float_lit n = n ≡ 0
Fits NodeKind.bool_lit n = n ≡ 0
Fits NodeKind.nil_lit n = n ≡ 0
Fits NodeKind.bin_op n = n ≡ 2
Fits NodeKind.unary_op n = n ≡ 1
Fits NodeKind.if_node n = 2 ≤ n
Fits NodeKind.elif_node n = n ≡ 2
Fits NodeKind.else_node n = n ≡ 1
Fits NodeKind.for_node n = ⊥
Fits NodeKind.while_node n = n ≡ 2
Fits NodeKind.break_node n = n ≡ 0
Fits NodeKind.cont_node n = n ≡ 0
Fits NodeKind.ret n = n ≤ 1
Fits NodeKind.defer n = n ≡ 1
Fits NodeKind.func_call n = n ≡ 1
Fits NodeKind.var_decl n = n ≡ 2
Fits NodeKind.typealias_decl n = n ≤ 1
Fits NodeKind.struct_decl n = Unit {0}
Fits NodeKind.enum_decl n = Unit {0}
Fits NodeKind.union_decl n = Unit {0}
Fits NodeKind.func_decl n = n ≡ 3
Fits NodeKind.module_node n = Unit {0}
Fits NodeKind.import_node n = n ≡ 0

-- Every node of a tree has as many kids as its kind has; a null pointer stands for no tree.
abbrev mutual
  pub IsTree : AstNode → Type 0
  IsTree (ast h ks) = Fits h.kind (len ks) × IsForest ks

  pub IsSound : Pointer → Type 0
  IsSound null = Unit {0}
  IsSound (to n) = IsTree n

  pub IsForest : Kids → Type 0
  IsForest no_kids = Unit {0}
  IsForest (kid q ks) = IsSound q × IsForest ks

pub tree :
    (k : NodeKind) (ks : Kids) (n : AstNode) → Is k ks n → Fits k (len ks) × IsForest ks → IsTree n
unfolding head kids
tree k ks (ast h l) (e, f) t = rw (e, f) t

pub IsTree-Fits : (n : AstNode) → IsTree n → Fits (head n).kind (len (kids n)) × IsForest (kids n)
unfolding head kids
IsTree-Fits (ast h l) t = t

-- A call ends with a node that is done.
pub finish :
    (k : NodeKind) (ks : Kids) (n : AstNode)
    → Is k ks n
    → Fits k (len ks) × IsForest ks
    → Yields IsSound (pure (to n))
finish k ks n s t = Yields-pure (to n) (tree k ks n s t)

set_last-push_kid : (ks : Kids) (q r : Pointer) → set_last (push_kid ks q) r ≡ push_kid ks r
unfolding set_last push_kid
set_last-push_kid no_kids q r = refl
set_last-push_kid (kid p no_kids) q r = refl
set_last-push_kid (kid p (kid o ks)) q r = ap (kid p) (set_last-push_kid (kid o ks) q r)

-- The last kid was written to.
pub Is-set_last_kid :
    (k : NodeKind) (ks : Kids) (n : AstNode) (q r : Pointer)
    → Is k (push_kid ks q) n
    → Is k (push_kid ks r) (set_last_kid n r)
unfolding set_last_kid head kids
Is-set_last_kid k ks (ast h l) q r (e, f) = (e, ap (λ x. set_last x r) f ∙ set_last-push_kid ks q r)

pub IsForest-push_kid :
    (ks : Kids) (q : Pointer) → IsForest ks → IsSound q → IsForest (push_kid ks q)
unfolding push_kid
IsForest-push_kid no_kids q f s = (s, tt)
IsForest-push_kid (kid p ks) q (h, f) s = (h, IsForest-push_kid ks q f s)

pub len-push_kid : (ks : Kids) (q : Pointer) → len (push_kid ks q) ≡ suc (len ks)
unfolding push_kid len
len-push_kid no_kids q = refl
len-push_kid (kid p ks) q = ap suc (len-push_kid ks q)

-- A node that takes more kids.
abbrev pub IsOpen : NodeKind → AstNode → Type 0
IsOpen k n = ((head n).kind ≡ k) × IsForest (kids n)

pub Is-IsOpen : (k : NodeKind) (ks : Kids) (n : AstNode) → Is k ks n → IsForest ks → IsOpen k n
Is-IsOpen k ks n (e, f) h = (e, rw f h)

pub IsOpen-with_kid :
    (k : NodeKind) (n : AstNode) (q : Pointer) → IsOpen k n → IsSound q → IsOpen k (with_kid n q)
unfolding with_kid head kids
IsOpen-with_kid k (ast h l) q (e, f) s = (e, IsForest-push_kid l q f s)

pub add_kid-IsOpen :
    (k : NodeKind) (n : AstNode) (q : Pointer)
    → IsOpen k n
    → IsSound q
    → Yields (λ m. IsOpen k m × (len (kids m) ≡ suc (len (kids n)))) (add_kid n q)
add_kid-IsOpen k n q (e, f) s = Yields-map (add_kid-Is k (kids n) n q (e, refl)) (λ m t.
    (Is-IsOpen k _ m t (IsForest-push_kid (kids n) q f s), ap len t.1 ∙ len-push_kid (kids n) q))

pub IsOpen-IsTree : (k : NodeKind) (n : AstNode) → IsOpen k n → Fits k (len (kids n)) → IsTree n
IsOpen-IsTree k n (e, f) t = tree k (kids n) n (e, refl) (t, f)

-- The checks that may set the error flag of a node.
module _ (k : NodeKind) (n : AstNode) (open_node : IsOpen k n) where
  kept : {x : Parse AstNode} → Yields (Is k (kids n)) x → Yields (IsOpen k) x
  kept h = Yields-map h (λ m s. Is-IsOpen k (kids n) m s open_node.1)

  pub add_err-IsOpen : (msg : Message) → Yields (IsOpen k) (add_err n msg)
  add_err-IsOpen msg = kept (add_err-Is k (kids n) n msg (open_node.0, refl))

  pub consume_expect_wn-IsOpen :
      (src : Source) (x : TokenKind) → Yields (IsOpen k) (consume_expect_wn src x n)
  consume_expect_wn-IsOpen src x =
      kept (consume_expect_wn-Is src k (kids n) x n (open_node.0, refl))
