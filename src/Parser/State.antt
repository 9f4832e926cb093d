-- ===== src/Parser/State.antt =====
-- The state of `struct Parser` in examples/parser.cpp and the macros of its section on the parser.
use cxb.Prelude.{
  ℕ, ◌+◌, ◌++◌, ◌||◌, ◌==◌, ltb, Bool, true, false, Option, none, some, List, [], ◌∷◌,
  if◌then◌else◌,
}
use cxb.Text.{Memory, String8}
use cxb.Lexer.Tokens.{Token, TokenKind, kind_eq}
use cxb.Lexer.Stream.{Stream, peek_tok, next_tok}
use cxb.Ast.{
  AstNode, Pointer, AstNodeData, NodeKind, ast, null, to, no_kids, numeral_literal, head, kids,
  are_null, end_kids, with_kid, kid_at, set_kid, set_err,
}

-- The text that is parsed, and the bound on the rounds of the lexer for a token.
pub record Source : Type 0 where
  pub memory : Memory
  pub buffer : String8
  pub rounds : ℕ

-- The messages. `expected k` is that of `CONSUME_EXPECT`; `EXPECT` names the parameter of its macro,
-- "expected: x"; `unlisted` is that of `EXPECT_WN`.
pub data Message : Type 0 where
  unmatched_bracket : Message
  for_unsupported : Message
  literal_not_valid : Message
  unexpected_token : Message
  unexpected_expression : Message
  unlisted : Message
  expected_x : Message
  expected : TokenKind → Message

-- `root` is the place of the node, if the error has one.
pub record ParseError : Type 0 where
  pub root : Option ℕ
  pub message : Message

-- `sizeof(AstNode)` on a machine of 64 bits, in words of 8 bytes: a pointer to a kid takes one.
abbrev pub node_words : ℕ
node_words = 7

-- The tokens, the position and the end of the arena of the tree in words of 8 bytes, which is the
-- alignment of all that is pushed on it, and the errors.
pub record Parser : Type 0 where
  pub stream : Stream
  pub pos : ℕ
  pub end : ℕ
  pub errors : List ParseError

-- How a call ends: it returns, it reads or writes through a null pointer or past the kids of a
-- node, it fails an assertion on a token or on the arena of the tree, or it is not done within the rounds that the model gives
-- it.
pub data Outcome {ℓ} (A : Type ℓ) : Type ℓ where
  done : A → Outcome A
  null_deref out_of_bounds stopped unfinished : Outcome A

abbrev pub Parse {ℓ} : Type ℓ → Type ℓ
Parse A = Parser → Outcome (A × Parser)

abbrev pub and_then {ℓ κ} : {A : Type ℓ} {B : Type κ} → Outcome A → (A → Outcome B) → Outcome B
and_then (done a) f = f a
and_then null_deref f = null_deref
and_then out_of_bounds f = out_of_bounds
and_then stopped f = stopped
and_then unfinished f = unfinished

infixl 10 ◌>>=◌
unfoldable pub ◌>>=◌ {ℓ κ} : {A : Type ℓ} {B : Type κ} → Parse A → (A → Parse B) → Parse B
x >>= f = λ p. and_then (x p) (λ (a, p'). f a p')

infixl 10 ◌>>◌
unfoldable pub ◌>>◌ {ℓ} : {B : Type ℓ} → Parse (Unit {0}) → Parse B → Parse B
x >> y = x >>= λ _. y

unfoldable pub pure {ℓ} : {A : Type ℓ} → A → Parse A
pure a = λ p. done (a, p)

-- A step that is not done within the rounds.
unfoldable pub give_up {ℓ} : {A : Type ℓ} → Parse A
give_up = λ p. unfinished

-- `NODE`
unfoldable pub deref : Pointer → Parse AstNode
deref null = λ p. null_deref
deref (to n) = pure n

unfoldable pub in_bounds {ℓ} : {A : Type ℓ} → Option A → Parse A
in_bounds none = λ p. out_of_bounds
in_bounds (some a) = pure a

-- `NODE(n).kids.data[i]`
unfoldable pub get_kid : AstNode → ℕ → Parse Pointer
get_kid n i = in_bounds (kid_at (kids n) i)

-- `NODE(n).kids.data[i] = q`
unfoldable pub put_kid : AstNode → ℕ → Pointer → Parse AstNode
put_kid n i q = in_bounds (set_kid (kids n) i q) >>= λ ks. pure (ast (head n) ks)

-- `NODE(q).err`
unfoldable pub get_err : Pointer → Parse Bool
get_err q = deref q >>= λ n. pure (head n).err

-- `LHS(n).err || RHS(n).err`
unfoldable pub kid_errs : AstNode → Parse Bool
kid_errs n = do l ← get_kid n 0; e ← get_err l; if e then pure true else get_kid n 1 >>= get_err

-- `ADD_ERR_NO_NODE`
unfoldable pub add_err_no_node : Message → Parse (Unit {0})
add_err_no_node msg p =
    done (tt, record p { errors = p.errors ++ record { root = none; message = msg } ∷ [] })

-- `ADD_ERR` on a node: its flag is set, and the error keeps the node.
unfoldable pub add_err : AstNode → Message → Parse AstNode
add_err n msg p = done (
  set_err true n,
  record p { errors = p.errors ++ record { root = some (head n).address; message = msg } ∷ [] },
)

-- What is pushed on the arena of the tree, which asserts that it fits.
unfoldable pub push_words {ℓ} : {A : Type ℓ} → (words : ℕ) → (ℕ → A) → Parse A
push_words words made p =
    if ltb (p.pos + words) p.end
    then done (made p.pos, record p { pos = p.pos + words })
    else Outcome.stopped

-- `add_node`
unfoldable pub add_node : NodeKind → AstNodeData → Token → Bool → Parse AstNode
add_node k d t e = push_words node_words (λ address.
    ast
      (record {
        address = address;
        kind = k;
        err = e;
        tok = t;
        content = d;
        statement = false;
        kids_end = 0;
      })
      no_kids)

-- `ADD_KID`, `array_push_back` on the arena of the tree: it asserts that the kids that are there end
-- where the arena does.
unfoldable pub add_kid : AstNode → Pointer → Parse AstNode
add_kid n q p =
    if are_null (kids n) || (head n).kids_end == p.pos
    then push_words 1 (λ address. end_kids (address + 1) (with_kid n q)) p
    else Outcome.stopped

-- `Token{}`
abbrev pub no_token : Token
no_token = record { kind = TokenKind.uninitialized; idx = 0; n = 0; line = 0; col = 0; err = false }

-- `add_node` with the data `{}`, no token and no error.
unfoldable pub add_bare_node : NodeKind → Parse AstNode
add_bare_node k = add_node k (numeral_literal 0) no_token false

unfoldable pub add_tok_node : NodeKind → Token → Parse AstNode
add_tok_node k t = add_node k (numeral_literal 0) t false

-- `CHECK`
unfoldable pub check : Bool → Message → Parse (Unit {0})
check b msg = if b then pure tt else add_err_no_node msg

-- `CHECK_WN`
unfoldable pub check_wn : Bool → Message → AstNode → Parse AstNode
check_wn b msg n = if b then pure n else add_err n msg

-- `EXPECT`
unfoldable pub expect : Token → TokenKind → Parse (Unit {0})
expect t k = check (kind_eq t.kind k) expected_x

-- `EXPECT_WN`
unfoldable pub expect_wn : Token → TokenKind → AstNode → Parse AstNode
expect_wn t k n = check_wn (kind_eq t.kind k) unlisted n

-- A token of the stream, in the state behind it; without one the lexer is not done within its rounds.
unfoldable pub read_token : Parser → (Stream → Token) → Option Stream → Outcome (Token × Parser)
read_token p token none = Outcome.unfinished
read_token p token (some s) = done (token s, record p { stream = s })

module _ (src : Source) where
  -- `PEEK`
  unfoldable pub peek : Parse Token
  peek p = read_token p (λ s. s.next_tok) (peek_tok src.memory src.buffer src.rounds p.stream)

  -- `NEXT`
  unfoldable pub next : Parse Token
  next p = read_token p (λ s. s.curr_tok) (next_tok src.memory src.buffer src.rounds p.stream)

  -- `PEEK.kind == k`
  unfoldable pub peek_is : TokenKind → Parse Bool
  peek_is k = peek >>= λ t. pure (kind_eq t.kind k)

  -- `CONSUME`
  unfoldable pub consume : Parse (Unit {0})
  consume = next >>= λ t. pure tt

  -- `CONSUME_EXPECT`
  unfoldable pub consume_expect : TokenKind → Parse (Unit {0})
  consume_expect k = next >>= λ t. check (kind_eq t.kind k) (expected k)

  -- `CONSUME_EXPECT_WN`
  unfoldable pub consume_expect_wn : TokenKind → AstNode → Parse AstNode
  consume_expect_wn k n = next >>= λ t. check_wn (kind_eq t.kind k) (expected k) n
