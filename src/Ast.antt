-- ===== src/Ast.antt =====
-- The syntax tree of the example language, examples/parser.h. A node is known by the place where it
-- was pushed on the arena of the tree, and each node hangs below one other node at most, so that a
-- tree is a value: a write to a node is a write to the copy that its one owner holds.
use cxb.Prelude.{ℕ, zero, suc, Bool, true, false, Option, none, some, ◌>>=◌, ◌==◌}
use cxb.Lexer.Tokens.{Token}

pub data NodeKind : Type 0 where
  none_node body params_decl params identifier string_lit int_lit float_lit bool_lit nil_lit bin_op
        unary_op if_node elif_node else_node for_node while_node break_node cont_node ret defer
        func_call var_decl typealias_decl struct_decl enum_decl union_decl func_decl module_node
        import_node :
      NodeKind

-- The number of a kind.
unfoldable pub code : NodeKind → ℕ
code none_node = 0
code body = 1
code params_decl = 2
code params = 3
code identifier = 4
code string_lit = 5
code int_lit = 6
code float_lit = 7
code bool_lit = 8
code nil_lit = 9
code bin_op = 10
code unary_op = 11
code if_node = 12
code elif_node = 13
code else_node = 14
code for_node = 15
code while_node = 16
code break_node = 17
code cont_node = 18
code ret = 19
code defer = 20
code func_call = 21
code var_decl = 22
code typealias_decl = 23
code struct_decl = 24
code enum_decl = 25
code union_decl = 26
code func_decl = 27
code module_node = 28
code import_node = 29

unfoldable pub kind_eq : NodeKind → NodeKind → Bool
unfolding code
kind_eq a b = code a == code b

pub data UnionKind : Type 0 where
  named flat : UnionKind

-- The union `AstNodeData`, by the member that was written last. `{}` is the number 0.
pub data AstNodeData : Type 0 where
  numeral_literal : ℕ → AstNodeData
  union_kind : UnionKind → AstNodeData
  var_decl_data : Bool → AstNodeData
  param_list : Bool → AstNodeData

-- The fields of `AstNode` that the parser writes, less `kids`, the place of the node, and the place
-- behind its kids on the arena of the tree, where it has kids.
pub record Head : Type 0 where
  pub address : ℕ
  pub kind : NodeKind
  pub err : Bool
  pub tok : Token
  pub content : AstNodeData
  pub statement : Bool
  pub kids_end : ℕ

-- `AstNode`, `AstNode*` and `AstNodeEdgeList`.
mutual
  pub data AstNode : Type 0 where
    ast : Head → Kids → AstNode

  pub data Pointer : Type 0 where
    null : Pointer
    to : AstNode → Pointer

  pub data Kids : Type 0 where
    no_kids : Kids
    kid : Pointer → Kids → Kids

unfoldable pub head : AstNode → Head
head (ast h ks) = h

unfoldable pub kids : AstNode → Kids
kids (ast h ks) = ks

-- The pointers with one more behind them.
unfoldable pub push_kid : Kids → Pointer → Kids
push_kid no_kids p = kid p no_kids
push_kid (kid q ks) p = kid q (push_kid ks p)

-- `kids.data[i]`, where there is one.
unfoldable pub kid_at : Kids → ℕ → Option Pointer
kid_at no_kids i = none
kid_at (kid q ks) zero = some q
kid_at (kid q ks) (suc i) = kid_at ks i

-- `kids.data[i] = p`
unfoldable pub set_kid : Kids → ℕ → Pointer → Option Kids
set_kid no_kids i p = none
set_kid (kid q ks) zero p = some (kid p ks)
set_kid (kid q ks) (suc i) p = set_kid ks i p >>= λ ks'. some (kid q ks')

abbrev pub len : Kids → ℕ
len no_kids = 0
len (kid q ks) = suc (len ks)

-- The node with one more kid, where the arena of its kids has room for it.
unfoldable pub with_kid : AstNode → Pointer → AstNode
unfolding push_kid
with_kid (ast h ks) p = ast h (push_kid ks p)

-- The kids end at a place.
unfoldable pub end_kids : ℕ → AstNode → AstNode
end_kids e (ast h ks) = ast (record h { kids_end = e }) ks

unfoldable pub are_null : Kids → Bool
are_null no_kids = true
are_null (kid q ks) = false

-- A node that is the last kid of another was written to.
unfoldable pub set_last : Kids → Pointer → Kids
set_last no_kids p = no_kids
set_last (kid q no_kids) p = kid p no_kids
set_last (kid q (kid r ks)) p = kid q (set_last (kid r ks) p)

unfoldable pub set_last_kid : AstNode → Pointer → AstNode
unfolding set_last
set_last_kid (ast h ks) p = ast h (set_last ks p)

unfoldable pub set_err : Bool → AstNode → AstNode
set_err b (ast h ks) = ast (record h { err = b }) ks

unfoldable pub set_kind : NodeKind → AstNode → AstNode
set_kind k (ast h ks) = ast (record h { kind = k }) ks

unfoldable pub set_content : AstNodeData → AstNode → AstNode
set_content d (ast h ks) = ast (record h { content = d }) ks

-- `statement = true`
unfoldable pub set_statement : AstNode → AstNode
set_statement (ast h ks) = ast (record h { statement = true }) ks
