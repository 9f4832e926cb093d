-- ===== src/Parser.antt =====
-- The parser of the example language, examples/parser.cpp: the calls of its functions of one another,
-- each with a bound on the calls below it and on the rounds of its loops, and a module.
pub mod State
pub mod Literals
pub mod Operators
pub mod Expressions
pub mod Declarations
pub mod Yields
pub mod Returns
pub mod Endless
pub mod File
pub mod Priority
pub mod Shape
mod Tests
use cxb.Prelude.{ℕ, zero, suc, Bool, true, false, List, [], length}
use cxb.Text.{Memory, String8}
use cxb.Lexer.Tokens.{TokenKind}
use cxb.Lexer.Stream.{Stream}
use cxb.Ast.{AstNode, Pointer, NodeKind}
use cxb.Parser.State.{Source, Parser, Outcome, Parse, ◌>>=◌, give_up, add_bare_node, no_token}
use cxb.Parser.Operators.{parse_operation}
use cxb.Parser.Expressions.{parse_operand}
use cxb.Parser.Declarations.{statement_rounds}

-- The state in which `module_parse_file` calls `parse_module`, with the position and the end of the
-- arena of the tree.
unfoldable pub start : (pos end : ℕ) → Parser
start pos end = record {
  stream = record {
    lexer = record { idx = 0; line = 0; col = 0; tok = no_token };
    curr_tok = no_token;
    next_tok = no_token;
  };
  pos = pos;
  end = end;
  errors = [];
}

module _ (src : Source) where
  unfoldable mutual
    pub parse_expression_base : ℕ → Parse Pointer
    parse_expression_base zero p = Outcome.unfinished
    parse_expression_base (suc n) p =
        parse_operand src (parse_expression n) (parse_expression_base n) n
          (parse_statement_list n true) p

    pub parse_expression : ℕ → Parse Pointer
    parse_expression zero p = Outcome.unfinished
    parse_expression (suc n) p = parse_operation src (parse_expression_base n) n p

    pub parse_statement_list : ℕ → Bool → AstNode → Parse AstNode
    parse_statement_list zero explicit_scope node p = Outcome.unfinished
    parse_statement_list (suc n) explicit_scope node p =
        statement_rounds src (parse_expression n) (parse_expression_base n) n n
          (parse_statement_list n true) explicit_scope node p

  unfoldable pub parse_module : ℕ → Parse AstNode
  parse_module n = do node ← add_bare_node NodeKind.module_node; parse_statement_list n false node
