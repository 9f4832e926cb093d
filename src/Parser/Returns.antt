-- ===== src/Parser/Returns.antt =====
-- Calls of the parser of examples/parser.cpp that return, and the tokens that they read.
use mathlib.Core.Path.{subst}
use cxb.Prelude.{
  ℕ, ◌+◌, ◌<◌, ◌≡◌, refl, sym, arith, lt→ltb, ==_refl, ap, ◌∙◌, Bool, true, false, some, List, [],
  ◌∷◌, inl, inr, ◌⊎◌, if◌then◌else◌,
}
use cxb.Lexer.{Lexer, lex_next}
use cxb.Lexer.Stream.{
  is_used, after_take, is_used-use_up, take_waiting, next_tok_lem, peek_waiting, peek_lexed,
}
use cxb.Lexer.Tokens.{Token, TokenKind, kind_eq}
use cxb.Ast.{
  Head, AstNode, Pointer, AstNodeData, NodeKind, ast, no_kids, kid, head, kids, are_null, with_kid,
  end_kids, push_kid,
}
use cxb.Parser.State.{
  Source, Parser, ParseError, Outcome, done, null_deref, out_of_bounds, stopped, unfinished, Parse,
  and_then, ◌>>=◌, pure, node_words, push_words, add_node, add_kid, peek, next, peek_is, read_token,
}

-- A call returns a value and a state with `P`.
abbrev pub Total : {A : Type 0} → (A → Parser → Type 0) → Outcome (A × Parser) → Type 0
Total P (done (a, p)) = P a p
Total P _ = ⊥

pub data Returns {A : Type 0} (P : A → Parser → Type 0) (x : Parse A) (p : Parser) : Type 0 where
  returns : Total P (x p) → Returns P x p

pub Returns-Total :
    {A : Type 0} {P : A → Parser → Type 0} {x : Parse A} {p : Parser}
    → Returns P x p
    → Total P (x p)
Returns-Total (returns h) = h

module _ {A : Type 0} {P : A → Parser → Type 0} where
  total :
      (r : Outcome (A × Parser)) → Total P r → (a : A) × (p : Parser) × (r ≡ done (a, p)) × P a p
  total (done (a, p)) h = (a, p, refl, h)
  total null_deref h = absurd h
  total out_of_bounds h = absurd h
  total stopped h = absurd h
  total unfinished h = absurd h

  pub Returns-done :
      {x : Parse A} {p : Parser}
      → Returns P x p
      → (a : A) × (p' : Parser) × (x p ≡ done (a, p')) × P a p'
  Returns-done {x} {p} (returns h) = total (x p) h

  pub Returns-at :
      {x : Parse A} {p : Parser} (a : A) (p' : Parser) → x p ≡ done (a, p') → P a p' → Returns P x p
  Returns-at a p' e h = returns (subst (Total P) (sym e) h)

  pub Returns-pure : (a : A) {p : Parser} → P a p → Returns P (pure a) p
  unfolding pure
  Returns-pure a h = returns h

  Total-and_then :
      {B : Type 0} {Q : B → Parser → Type 0} (r : Outcome (A × Parser)) (f : A → Parse B)
      → Total P r
      → ((a : A) (p : Parser) → P a p → Returns Q (f a) p)
      → Total Q (and_then r (λ (a, p). f a p))
  Total-and_then (done (a, p)) f h k = Returns-Total (k a p h)
  Total-and_then null_deref f h k = absurd h
  Total-and_then out_of_bounds f h k = absurd h
  Total-and_then stopped f h k = absurd h
  Total-and_then unfinished f h k = absurd h

  pub Returns-bind :
      {B : Type 0} {Q : B → Parser → Type 0} {x : Parse A} {f : A → Parse B} {p : Parser}
      → Returns P x p
      → ((a : A) (p' : Parser) → P a p' → Returns Q (f a) p')
      → Returns Q (x >>= f) p
  unfolding ◌>>=◌
  Returns-bind {x} {f} {p} (returns h) k = returns (Total-and_then (x p) f h k)

  pub Returns-pure_bind :
      {B : Type 0} (a : B) (f : B → Parse A) {p : Parser}
      → Returns P (f a) p
      → Returns P (pure a >>= f) p
  unfolding ◌>>=◌ pure
  Returns-pure_bind a f h = returns (Returns-Total h)

  pub Returns-if :
      (b : Bool) {x y : Parse A} {p : Parser}
      → (b ≡ true → Returns P x p)
      → (b ≡ false → Returns P y p)
      → Returns P (if b then x else y) p
  Returns-if true h k = h refl
  Returns-if false h k = k refl

module _ (src : Source) where
  -- The tokens that the lexer reads from a place on, none of the kind that marks a token as used.
  abbrev pub Lexes : Lexer → List Token → Type 0
  Lexes lx [] = Unit {0}
  Lexes lx (t ∷ ts) =
      (lx' : Lexer) × (lex_next src.memory src.buffer src.rounds lx ≡ some lx')
      × (lx'.tok ≡ t)
      × (is_used t ≡ false)
      × Lexes lx' ts

  -- The tokens are ahead of the lexer, and none is waiting; the arena of the tree has room for a number
  -- of words.
  pub record Fresh (ts : List Token) (errors : List ParseError) (room : ℕ) (p : Parser)
      : Type 0 where
    pub used : is_used p.stream.next_tok ≡ true
    pub ahead : Lexes p.stream.lexer ts
    pub same_errors : p.errors ≡ errors
    pub has_room : p.pos + room < p.end

  -- The first token is waiting, and the others are ahead; the arena has room.
  pub record Waits (t : Token) (ts : List Token) (errors : List ParseError) (room : ℕ) (p : Parser)
      : Type 0 where
    pub held : p.stream.next_tok ≡ t
    pub live : is_used t ≡ false
    pub behind : Lexes p.stream.lexer ts
    pub kept_errors : p.errors ≡ errors
    pub keeps_room : p.pos + room < p.end

  module _ (t : Token) (ts : List Token) (es : List ParseError) (room : ℕ) (p : Parser) where
    pub peek-Waits :
        Waits t ts es room p → Returns (λ a p'. (a ≡ t) × Waits t ts es room p') (peek src) p
    unfolding peek read_token
    peek-Waits w =
        Returns-at p.stream.next_tok p
          (ap (read_token p (λ s. s.next_tok))
            (peek_waiting src.memory src.buffer src.rounds p.stream (ap is_used w.held ∙ w.live)))
          (w.held, w)

    pub peek-Fresh :
        Fresh (t ∷ ts) es room p → Returns (λ a p'. (a ≡ t) × Waits t ts es room p') (peek src) p
    unfolding peek read_token
    peek-Fresh f =
        let (lx, lexed, e, live, rest) = f.ahead in
        Returns-at lx.tok (record p { stream = record p.stream { lexer = lx; next_tok = lx.tok } })
          (ap (read_token p (λ s. s.next_tok))
            (peek_lexed src.memory src.buffer src.rounds p.stream lx f.used lexed))
          (
            e,
            record {
              held = e;
              live = live;
              behind = rest;
              kept_errors = f.same_errors;
              keeps_room = f.has_room;
            },
          )

    pub next-Waits :
        Waits t ts es room p → Returns (λ a p'. (a ≡ t) × Fresh ts es room p') (next src) p
    unfolding next read_token after_take
    next-Waits w =
        let s = p.stream in
        let waiting =
          take_waiting src.memory src.buffer src.rounds s (ap is_used w.held ∙ w.live) in
        Returns-at s.next_tok
          (record p { stream = after_take src.memory src.buffer src.rounds s s.lexer s.next_tok })
          (ap (read_token p (λ s. s.curr_tok))
            (next_tok_lem src.memory src.buffer src.rounds s s.lexer s.next_tok waiting))
          (
            w.held,
            record {
              used = is_used-use_up src.memory src.buffer src.rounds s.next_tok;
              ahead = w.behind;
              same_errors = w.kept_errors;
              has_room = w.keeps_room;
            },
          )

  -- The first token is the next one, and it may be waiting.
  abbrev pub Ready : List Token → List ParseError → ℕ → Parser → Type 0
  Ready [] es room p = ⊥
  Ready (t ∷ ts) es room p = Fresh (t ∷ ts) es room p ⊎ Waits t ts es room p

  pub peek-Ready :
      (t : Token) (ts : List Token) (es : List ParseError) (room : ℕ) (p : Parser)
      → Ready (t ∷ ts) es room p
      → Returns (λ a p'. (a ≡ t) × Waits t ts es room p') (peek src) p
  peek-Ready t ts es room p (inl f) = peek-Fresh t ts es room p f
  peek-Ready t ts es room p (inr w) = peek-Waits t ts es room p w

  pub peek_is-Ready :
      (k : TokenKind) (t : Token) (ts : List Token) (es : List ParseError) (room : ℕ) (p : Parser)
      → Ready (t ∷ ts) es room p
      → Returns (λ b p'. (b ≡ kind_eq t.kind k) × Waits t ts es room p') (peek_is src k) p
  unfolding peek_is
  peek_is-Ready k t ts es room p r =
      Returns-bind (peek-Ready t ts es room p r)
        λ a p' (e, w). Returns-pure _ (ap (λ (u : Token). kind_eq u.kind k) e, w)

  pub Ready-fits :
      (ts : List Token) (es : List ParseError) (room : ℕ) (p : Parser)
      → Ready ts es room p
      → p.pos + room < p.end
  Ready-fits [] es room p h = absurd h
  Ready-fits (t ∷ ts) es room p (inl f) = f.has_room
  Ready-fits (t ∷ ts) es room p (inr w) = w.keeps_room

  module _ (t : Token) (ts : List Token) (es : List ParseError) (room : ℕ) (p : Parser)
      (n room' : ℕ) (fits : n + room' < p.end) where
    pub Waits-at : Waits t ts es room p → Waits t ts es room' (record p { pos = n })
    Waits-at w = record {
      held = w.held;
      live = w.live;
      behind = w.behind;
      kept_errors = w.kept_errors;
      keeps_room = fits;
    }

    pub Fresh-at : Fresh ts es room p → Fresh ts es room' (record p { pos = n })
    Fresh-at f = record {
      used = f.used;
      ahead = f.ahead;
      same_errors = f.same_errors;
      has_room = fits;
    }

    -- The tokens stay as they are while something is pushed on the arena of the tree.
    pub Ready-at : Ready (t ∷ ts) es room p → Ready (t ∷ ts) es room' (record p { pos = n })
    Ready-at (inl f) =
        inl
          (record { used = f.used; ahead = f.ahead; same_errors = f.same_errors; has_room = fits })
    Ready-at (inr w) = inr (Waits-at w)

-- A node without kids is pushed.
pub add_node-Returns :
    (k : NodeKind) (d : AstNodeData) (t : Token) (e : Bool) (p : Parser) (P : Parser → Type 0)
    → p.pos + node_words < p.end
    → P (record p { pos = p.pos + node_words })
    → Returns
        (λ n p'. ((h : Head) × (n ≡ ast h no_kids) × (h.kind ≡ k) × (h.tok ≡ t)) × P p')
        (add_node k d t e)
        p
unfolding add_node push_words
add_node-Returns k d t e p P fits h =
    let made : Head = record {
      address = p.pos;
      kind = k;
      err = e;
      tok = t;
      content = d;
      statement = false;
      kids_end = 0;
    } in
    Returns-at (ast made no_kids) (record p { pos = p.pos + node_words })
      (rw (lt→ltb (p.pos + node_words) p.end fits) refl) ((made, refl, refl, refl), h)

-- Two kids that are pushed on a node without kids, one behind the other: they are adjacent.
pub two_kids-Returns :
    {B : Type 0} {Q : B → Parser → Type 0} (f : AstNode → Parse B) (c : Head) (l r : Pointer)
    (p : Parser)
    → p.pos + 2 < p.end
    → ((c' : Head)
        → c'.tok ≡ c.tok
        → Returns Q (f (ast c' (kid l (kid r no_kids)))) (record p { pos = p.pos + 1 + 1 }))
    → Returns Q (add_kid (ast c no_kids) l >>= λ n. add_kid n r >>= f) p
unfolding add_kid push_words are_null kids head with_kid end_kids push_kid
two_kids-Returns {Q} f c l r p fits next' =
    let c₁ : Head = record c { kids_end = p.pos + 1 } in
    let c₂ : Head = record c { kids_end = p.pos + 1 + 1 } in
    Returns-bind {P = λ n p'. (n ≡ ast c₁ (kid l no_kids)) × (p' ≡ record p { pos = p.pos + 1 })}
      (Returns-at _ _ (rw (lt→ltb (p.pos + 1) p.end (omega arith)) refl) (refl, refl))
      λ n p₁ (e, at₁).
        Returns-bind
          {P = λ m p'.
            (m ≡ ast c₂ (kid l (kid r no_kids))) × (p' ≡ record p { pos = p.pos + 1 + 1 })}
          (rw (e, at₁)
            (Returns-at _ _
              (rw (==_refl (p.pos + 1), lt→ltb (p.pos + 1 + 1) p.end (omega arith)) refl)
              (refl, refl)))
          λ m p₂ (e', at₂). rw (e', at₂) (next' c₂ refl)
