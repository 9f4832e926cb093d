-- ===== src/Parser/Yields.antt =====
-- What the calls of the parser give when they return, where they never leave the kids of a node:
-- rules for the calls of examples/parser.cpp that the others are made of.
use cxb.Prelude.{
  ℕ, ◌+◌, ◌||◌, ◌==◌, ltb, ap, ◌≡◌, refl, Bool, true, false, Option, none, some, if◌then◌else◌,
}
use cxb.Lexer.Stream.{Stream}
use cxb.Lexer.Tokens.{Token, TokenKind}
use cxb.Ast.{
  AstNode, Pointer, AstNodeData, NodeKind, Kids, ast, null, to, no_kids, head, kids, set_err,
  push_kid, are_null, end_kids, with_kid,
}
use cxb.Parser.State.{
  Source, Parser, Outcome, done, null_deref, out_of_bounds, stopped, unfinished, Parse, and_then,
  ◌>>=◌, ◌>>◌, pure, give_up, Message, deref, add_err_no_node, add_err, push_words, add_node,
  add_kid, add_bare_node, add_tok_node, check, check_wn, expect, expect_wn, peek, read_token, next,
  peek_is, consume, consume_expect, consume_expect_wn,
}

-- A call that is done gives a value with `P`, and no call leaves the kids of a node.
abbrev pub Ends : {A : Type 0} → (A → Type 0) → Outcome (A × Parser) → Type 0
Ends P (done (a, p)) = P a
Ends P null_deref = Unit {0}
Ends P out_of_bounds = ⊥
Ends P stopped = Unit {0}
Ends P unfinished = Unit {0}

-- The same in every state.
pub data Yields {A : Type 0} (P : A → Type 0) (x : Parse A) : Type 0 where
  yields : ((p : Parser) → Ends P (x p)) → Yields P x

pub Yields-Ends :
    {A : Type 0} {P : A → Type 0} {x : Parse A} → Yields P x → (p : Parser) → Ends P (x p)
Yields-Ends (yields h) = h

module _ {A : Type 0} {P : A → Type 0} where
  Ends-and_then :
      {B : Type 0} {Q : B → Type 0} (r : Outcome (A × Parser)) (f : A → Parse B)
      → Ends P r
      → ((a : A) → P a → Yields Q (f a))
      → Ends Q (and_then r (λ (a, p). f a p))
  Ends-and_then (done (a, p)) f h k = Yields-Ends (k a h) p
  Ends-and_then null_deref f h k = tt
  Ends-and_then out_of_bounds f h k = h
  Ends-and_then stopped f h k = tt
  Ends-and_then unfinished f h k = tt

  pub Yields-bind :
      {B : Type 0} {Q : B → Type 0} {x : Parse A} {f : A → Parse B}
      → Yields P x
      → ((a : A) → P a → Yields Q (f a))
      → Yields Q (x >>= f)
  unfolding ◌>>=◌
  Yields-bind {x} {f} (yields h) k = yields (λ p. Ends-and_then (x p) f (h p) k)

  pub Yields-pure : (a : A) → P a → Yields P (pure a)
  unfolding pure
  Yields-pure a h = yields (λ p. h)

  pub Yields-give_up : Yields P give_up
  unfolding give_up
  Yields-give_up = yields (λ p. tt)

  pub Yields-if :
      (b : Bool) {x y : Parse A}
      → (b ≡ true → Yields P x)
      → (b ≡ false → Yields P y)
      → Yields P (if b then x else y)
  Yields-if true hx hy = hx refl
  Yields-if false hx hy = hy refl

  pub Yields-unfinished : Yields P (λ p. Outcome.unfinished)
  Yields-unfinished = yields (λ p. tt)

Ends-map :
    {A : Type 0} {P Q : A → Type 0} (r : Outcome (A × Parser))
    → Ends P r
    → ((a : A) → P a → Q a)
    → Ends Q r
Ends-map (done (a, p)) h k = k a h
Ends-map null_deref h k = tt
Ends-map out_of_bounds h k = h
Ends-map stopped h k = tt
Ends-map unfinished h k = tt

pub Yields-map :
    {A : Type 0} {P Q : A → Type 0} {x : Parse A} → Yields P x → ((a : A) → P a → Q a) → Yields Q x
Yields-map {x} (yields h) k = yields (λ p. Ends-map (x p) (h p) k)

-- No more is asked than that the call stays within the kids.
abbrev pub Any : {A : Type 0} → A → Type 0
Any a = Unit {0}

pub Yields-then :
    {B : Type 0} {Q : B → Type 0} {x : Parse (Unit {0})} {y : Parse B}
    → Yields Any x
    → Yields Q y
    → Yields Q (x >> y)
unfolding ◌>>◌
Yields-then h k = Yields-bind h (λ _ _. k)

-- The kind of a node and its kids.
abbrev pub Is : NodeKind → Kids → AstNode → Type 0
Is k ks n = ((head n).kind ≡ k) × (kids n ≡ ks)

-- A pointer that is followed is not null.
pub deref-to : (q : Pointer) → Yields (λ n. q ≡ to n) (deref q)
unfolding deref
deref-to null = yields (λ p. tt)
deref-to (to n) = Yields-pure n refl

pub add_err_no_node-Any : (msg : Message) → Yields Any (add_err_no_node msg)
unfolding add_err_no_node
add_err_no_node-Any msg = yields (λ p. tt)

push_words-Yields :
    {A : Type 0} {P : A → Type 0} (words : ℕ) (made : ℕ → A)
    → ((i : ℕ) → P (made i))
    → Yields P (push_words words made)
unfolding push_words
push_words-Yields {P} words made h = yields (λ p.
    elim (ltb (p.pos + words) p.end)
      as (λ (b : Bool).
        Ends P
          (if b then done (made p.pos, record p { pos = p.pos + words }) else Outcome.stopped)) [
            | true ↦ h p.pos
            | false ↦ tt
          ])

pub add_node-Is :
    (k : NodeKind) (d : AstNodeData) (t : Token) (e : Bool)
    → Yields (Is k no_kids) (add_node k d t e)
unfolding add_node head kids
add_node-Is k d t e = push_words-Yields _ _ (λ i. (refl, refl))

pub add_tok_node-Is : (k : NodeKind) (t : Token) → Yields (Is k no_kids) (add_tok_node k t)
unfolding add_tok_node
add_tok_node-Is k t = add_node-Is k _ t false

pub add_bare_node-Is : (k : NodeKind) → Yields (Is k no_kids) (add_bare_node k)
unfolding add_bare_node
add_bare_node-Is k = add_node-Is k _ _ false

pub check-Any : (b : Bool) (msg : Message) → Yields Any (check b msg)
unfolding check
check-Any b msg = Yields-if b (λ _. Yields-pure tt tt) (λ _. add_err_no_node-Any msg)

pub expect-Any : (t : Token) (k : TokenKind) → Yields Any (expect t k)
unfolding expect
expect-Any t k = check-Any _ _

-- A kid is pushed behind the others, or the program stops.
pub add_kid-Is :
    (k : NodeKind) (ks : Kids) (n : AstNode) (q : Pointer)
    → Is k ks n
    → Yields (Is k (push_kid ks q)) (add_kid n q)
unfolding add_kid head kids with_kid end_kids
add_kid-Is k ks (ast h l) q (e, f) = yields (λ p.
    elim (are_null l || h.kids_end == p.pos)
      as (λ (b : Bool). Ends (Is k (push_kid ks q)) (
        (if b
          then push_words 1 (λ address. end_kids (address + 1) (with_kid (ast h l) q)) p
          else Outcome.stopped))) [
            | true ↦ Yields-Ends (push_words-Yields 1 _ (λ i. (e, ap (λ x. push_kid x q) f))) p
            | false ↦ tt
          ])

module _ (k : NodeKind) (ks : Kids) where
  pub Is-set_err : (b : Bool) (n : AstNode) → Is k ks n → Is k ks (set_err b n)
  unfolding set_err head kids
  Is-set_err b (ast h l) s = s

  pub add_err-Is : (n : AstNode) (msg : Message) → Is k ks n → Yields (Is k ks) (add_err n msg)
  unfolding add_err
  add_err-Is n msg s = yields (λ p. Is-set_err true n s)

  pub check_wn-Is :
      (b : Bool) (msg : Message) (n : AstNode) → Is k ks n → Yields (Is k ks) (check_wn b msg n)
  unfolding check_wn
  check_wn-Is b msg n s = Yields-if b (λ _. Yields-pure n s) (λ _. add_err-Is n msg s)

  pub expect_wn-Is :
      (t : Token) (x : TokenKind) (n : AstNode) → Is k ks n → Yields (Is k ks) (expect_wn t x n)
  unfolding expect_wn
  expect_wn-Is t x n s = check_wn-Is _ _ n s

read_token-Any :
    (p : Parser) (token : Stream → Token) (o : Option Stream) → Ends Any (read_token p token o)
unfolding read_token
read_token-Any p token none = tt
read_token-Any p token (some s) = tt

module _ (src : Source) where
  pub peek-Any : Yields Any (peek src)
  unfolding peek
  peek-Any = yields (λ p. read_token-Any p _ _)

  pub next-Any : Yields Any (next src)
  unfolding next
  next-Any = yields (λ p. read_token-Any p _ _)

  pub peek_is-Any : (k : TokenKind) → Yields Any (peek_is src k)
  unfolding peek_is
  peek_is-Any k = Yields-bind peek-Any (λ t _. Yields-pure _ tt)

  pub consume-Any : Yields Any (consume src)
  unfolding consume
  consume-Any = Yields-bind next-Any (λ t _. Yields-pure tt tt)

  -- A token that is consumed if it is there.
  pub consume_if-Any : (b : Bool) → Yields Any (if b then consume src else pure tt)
  consume_if-Any b = Yields-if b (λ _. consume-Any) (λ _. Yields-pure tt tt)

  pub consume_expect-Any : (k : TokenKind) → Yields Any (consume_expect src k)
  unfolding consume_expect
  consume_expect-Any k = Yields-bind next-Any (λ t _. check-Any _ _)

  pub consume_expect_wn-Is :
      (k : NodeKind) (ks : Kids) (x : TokenKind) (n : AstNode)
      → Is k ks n
      → Yields (Is k ks) (consume_expect_wn src x n)
  unfolding consume_expect_wn
  consume_expect_wn-Is k ks x n s = Yields-bind next-Any (λ t _. check_wn-Is k ks _ _ n s)
