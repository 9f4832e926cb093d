-- ===== src/Parser/Tests.antt =====
-- Runs of the parser on short texts, and its theorems at those texts.
use Prim.Native.String.{String}
use cxb.Prelude.{
  ℕ, zero, suc, ◌+◌, ◌≡◌, refl, Bool, true, false, inl, inr, arith, Option, none, some, List, [],
  ◌∷◌, ◌++◌, codes, length,
}
use cxb.Lexer.Tokens.{Token, TokenKind, code, kind_eq, is_binary_op}
use cxb.Lexer.{Lexer, lex_next}
use cxb.Parser.State.{no_token}
use cxb.Ast
use cxb.Ast.{numeral_literal, AstNode, Pointer, Kids, NodeKind, ast, null, to, no_kids, kid}
use cxb.Parser.State.{Source, Parser, Outcome, done, null_deref, out_of_bounds, stopped, unfinished}
use cxb.Parser.{parse_expression, parse_module, start}
use cxb.Parser.Expressions.{parse_arguments}
use cxb.Parser.Returns.{Waits, Ready}
use cxb.Parser.File.{Module, ParseFileResult, module_make, module_parse_file}
use cxb.Parser.Yields.{Ends}
use cxb.Parser.Shape.{IsTree}
use cxb.Parser.Shape.Module.{parse_module-IsTree}
use cxb.Parser.Endless.{parse_arguments-stopped}
use cxb.Parser.Priority.{
  leaf, op, arrange, forget, inorder, root_code, AreOperations, AreWithin, IsEnd, spell,
}
use cxb.Parser.Priority.Expression.{
  parse_expression_correct, parse_expression_in_order, parse_expression_three,
}

abbrev byte_at : List ℕ → ℕ → ℕ
byte_at [] i = 0
byte_at (x ∷ xs) zero = x
byte_at (x ∷ xs) (suc i) = byte_at xs i

abbrev text : String → Source
text s = record {
  memory = byte_at (codes s);
  buffer = record { address = 0; len = length (codes s); not_null_term = false };
  rounds = 20;
}

-- A tree by the kinds of its nodes, the place of the tokens, and brackets.
abbrev mutual
  outline : AstNode → List (NodeKind × ℕ)
  outline (ast h ks) = (h.kind, h.tok.idx) ∷ outline_kids ks

  outline_pointer : Pointer → List (NodeKind × ℕ)
  outline_pointer null = []
  outline_pointer (to n) = outline n

  outline_kids : Kids → List (NodeKind × ℕ)
  outline_kids no_kids = []
  outline_kids (kid q ks) = outline_pointer q ++ outline_kids ks

-- The outline, the error flag of the module and the number of errors.
abbrev result : Outcome (AstNode × Parser) → Option (List (NodeKind × ℕ) × Bool × ℕ)
result (done (n, p)) = some (outline n, (Ast.head n).err, length p.errors)
result _ = none

parsed : String → Outcome (AstNode × Parser)
unfolding cxb.Parser.State.◌>>=◌ cxb.Parser.State.◌>>◌ cxb.Parser.State.pure
    cxb.Parser.State.give_up cxb.Parser.State.deref cxb.Parser.State.in_bounds
    cxb.Parser.State.get_kid cxb.Parser.State.put_kid cxb.Parser.State.get_err
    cxb.Parser.State.kid_errs cxb.Parser.State.add_err_no_node cxb.Parser.State.add_err
    cxb.Parser.State.push_words cxb.Parser.State.add_node cxb.Parser.State.add_kid
    cxb.Parser.State.add_bare_node cxb.Parser.State.add_tok_node cxb.Parser.State.check
    cxb.Parser.State.check_wn cxb.Parser.State.expect cxb.Parser.State.expect_wn
    cxb.Parser.State.read_token cxb.Parser.State.peek cxb.Parser.State.next cxb.Parser.State.peek_is
    cxb.Parser.State.consume cxb.Parser.State.consume_expect cxb.Parser.State.consume_expect_wn
    cxb.Parser.Literals.check_token cxb.Parser.Literals.parse_number_value
    cxb.Parser.Literals.parse_number cxb.Parser.Literals.parse_bool cxb.Parser.Literals.parse_nil
    cxb.Parser.Literals.parse_string cxb.Parser.Literals.parse_import cxb.Parser.Literals.parse_jump
    cxb.Parser.Literals.parse_for cxb.Parser.Literals.parse_no_expression
    cxb.Parser.Literals.parse_literal cxb.Parser.Operators.rotate cxb.Parser.Operators.parse_unary
    cxb.Parser.Operators.parse_operators cxb.Parser.Operators.parse_operation
    cxb.Parser.Expressions.parse_scope cxb.Parser.Expressions.parse_bracket
    cxb.Parser.Expressions.parse_return cxb.Parser.Expressions.parse_defer
    cxb.Parser.Expressions.parse_while cxb.Parser.Expressions.parse_condition
    cxb.Parser.Expressions.parse_else cxb.Parser.Expressions.parse_branches
    cxb.Parser.Expressions.parse_if cxb.Parser.Expressions.parse_arguments
    cxb.Parser.Expressions.parse_call cxb.Parser.Expressions.parse_inferred_decl
    cxb.Parser.Expressions.assigns cxb.Parser.Expressions.parse_assigned
    cxb.Parser.Expressions.parse_typed_decl cxb.Parser.Expressions.parse_identifier
    cxb.Parser.Expressions.parse_branch cxb.Parser.Expressions.parse_operand
    cxb.Parser.Declarations.decl_kind cxb.Parser.Declarations.or_err
    cxb.Parser.Declarations.check_union cxb.Parser.Declarations.add_statement
    cxb.Parser.Declarations.skip_statement_ends cxb.Parser.Declarations.parse_default
    cxb.Parser.Declarations.parse_fields cxb.Parser.Declarations.parse_compound
    cxb.Parser.Declarations.parse_alias cxb.Parser.Declarations.parse_type_decl
    cxb.Parser.Declarations.parse_var_kids cxb.Parser.Declarations.parse_var_name
    cxb.Parser.Declarations.parse_var_decl cxb.Parser.Declarations.parse_args_decl
    cxb.Parser.Declarations.parse_targs cxb.Parser.Declarations.parse_func_decl
    cxb.Parser.Declarations.parse_statement cxb.Parser.Declarations.statement_round
    cxb.Parser.Declarations.statement_rounds cxb.Parser.start cxb.Parser.parse_expression_base
    cxb.Parser.parse_expression cxb.Parser.parse_statement_list cxb.Parser.parse_module cxb.Ast.code
    cxb.Ast.kind_eq cxb.Ast.head cxb.Ast.kids cxb.Ast.push_kid cxb.Ast.kid_at cxb.Ast.set_kid
    cxb.Ast.with_kid cxb.Ast.end_kids cxb.Ast.are_null cxb.Ast.set_last cxb.Ast.set_last_kid
    cxb.Ast.set_err cxb.Ast.set_kind cxb.Ast.set_content cxb.Ast.set_statement cxb.Lexer.consume
    cxb.Lexer.consume_next_line cxb.Lexer.add_tok cxb.Lexer.change_tok cxb.Lexer.set_err
    cxb.Lexer.set_len cxb.Lexer.at_eof cxb.Lexer.token_end cxb.Lexer.char_at cxb.Lexer.peek
    cxb.Lexer.skip_comment cxb.Lexer.number_round cxb.Lexer.skip_number cxb.Lexer.skip_name
    cxb.Lexer.skip_literal cxb.Lexer.name_end cxb.Lexer.lex_char cxb.Lexer.lex_loop
    cxb.Lexer.lex_next cxb.Lexer.Words.name_eq cxb.Lexer.Words.reserved_words
    cxb.Lexer.Words.find_word cxb.Lexer.Words.get_reserved_word cxb.Lexer.Labels.is_digit
    cxb.Lexer.Labels.is_letter cxb.Lexer.Labels.in_name cxb.Lexer.Labels.char_case
    cxb.Lexer.Stream.is_used cxb.Lexer.Stream.use_up cxb.Lexer.Stream.take_token
    cxb.Lexer.Stream.next_tok cxb.Lexer.Stream.peek_tok cxb.Lexer.Literal.atoi_char
    cxb.Lexer.Literal.atoi_from cxb.Lexer.Literal.atoi128 cxb.Lexer.Tokens.code
    cxb.Lexer.Tokens.kind_eq cxb.Lexer.Tokens.is_binary_op cxb.Lexer.Tokens.is_unary_op
parsed s = parse_module (text s) 12 (start 8 8192)

-- The state before the text, with an arena of 64 KiB for the tree.
abbrev begin : Parser
begin = start 8 8192

-- A function with a parameter and a body.
func_decl :
    result (parsed "func f(x: int) { return x; }\n")
    ≡ some (
      (NodeKind.module_node, 0)
          ∷ (NodeKind.func_decl, 5)
          ∷ (NodeKind.params_decl, 0)
          ∷ (NodeKind.params_decl, 0)
          ∷ (NodeKind.var_decl, 7)
          ∷ (NodeKind.identifier, 10)
          ∷ (NodeKind.body, 0)
          ∷ (NodeKind.ret, 0)
          ∷ (NodeKind.identifier, 24)
          ∷ [],
      false,
      0,
    )
unfolding parsed
func_decl = refl

-- A kid that is added after nodes were pushed behind the last one fails the assertion that the kids
-- end where the arena does: a second parameter, an `else`, a second field, a second argument, and a
-- value behind the place of a type.
second_parameter : parsed "func f(x: int, y: int) { return x; }\n" ≡ stopped
unfolding parsed
second_parameter = refl

with_else : parsed "if a b else c\n" ≡ stopped
unfolding parsed
with_else = refl

second_field : parsed "type T = { x: int; y: str }\n" ≡ stopped
unfolding parsed
second_field = refl

second_argument : parsed "f(1, 2)\n" ≡ stopped
unfolding parsed
second_argument = refl

var_value : parsed "var x = 1;\n" ≡ stopped
unfolding parsed
var_value = refl

-- A name before a colon is taken for a declaration, also in a condition.
condition :
    result (parsed "if a: b c\n")
    ≡ some (
      (NodeKind.module_node, 0)
          ∷ (NodeKind.if_node, 0)
          ∷ (NodeKind.var_decl, 3)
          ∷ (NodeKind.identifier, 6)
          ∷ (NodeKind.identifier, 8)
          ∷ [],
      false,
      0,
    )
unfolding parsed
condition = refl

-- A type with a field.
struct_decl :
    result (parsed "type T = { x: int }\n")
    ≡ some (
      (NodeKind.module_node, 0)
          ∷ (NodeKind.struct_decl, 5)
          ∷ (NodeKind.var_decl, 11)
          ∷ (NodeKind.identifier, 14)
          ∷ [],
      false,
      0,
    )
unfolding parsed
struct_decl = refl

-- A call.
call :
    result (parsed "f(1)\n")
    ≡ some (
      (NodeKind.module_node, 0)
          ∷ (NodeKind.func_call, 0)
          ∷ (NodeKind.params, 0)
          ∷ (NodeKind.int_lit, 2)
          ∷ [],
      false,
      0,
    )
unfolding parsed
call = refl

-- A union of the operands of `|`.
union_decl :
    result (parsed "type U = a | b | c\n")
    ≡ some (
      (NodeKind.module_node, 0)
          ∷ (NodeKind.union_decl, 5)
          ∷ (NodeKind.bin_op, 15)
          ∷ (NodeKind.bin_op, 11)
          ∷ (NodeKind.identifier, 9)
          ∷ (NodeKind.identifier, 13)
          ∷ (NodeKind.identifier, 17)
          ∷ [],
      false,
      0,
    )
unfolding parsed
union_decl = refl

-- A loop with a scope.
loop :
    result (parsed "while a { b := 1; }\n")
    ≡ some (
      (NodeKind.module_node, 0)
          ∷ (NodeKind.while_node, 0)
          ∷ (NodeKind.identifier, 6)
          ∷ (NodeKind.body, 0)
          ∷ (NodeKind.var_decl, 10)
          ∷ (NodeKind.int_lit, 15)
          ∷ [],
      false,
      0,
    )
unfolding parsed
loop = refl

-- A product behind a quotient becomes its divisor.
quotient :
    result (parsed "a / b * c;\n")
    ≡ some (
      (NodeKind.module_node, 0)
          ∷ (NodeKind.bin_op, 2)
          ∷ (NodeKind.identifier, 0)
          ∷ (NodeKind.bin_op, 6)
          ∷ (NodeKind.identifier, 4)
          ∷ (NodeKind.identifier, 8)
          ∷ [],
      false,
      0,
    )
unfolding parsed
quotient = refl

-- A number with a point is no valid literal.
float :
    result (parsed "12.5;\n")
    ≡ some ((NodeKind.module_node, 0) ∷ (NodeKind.int_lit, 0) ∷ [], true, 1)
unfolding parsed
float = refl

-- A scope that is not closed is no error.
open_scope :
    result (parsed "{ a; ")
    ≡ some
        ((NodeKind.module_node, 0) ∷ (NodeKind.body, 0) ∷ (NodeKind.identifier, 2) ∷ [], false, 0)
unfolding parsed
open_scope = refl

-- The error of the left operand is lost in the rotation.
lost_error :
    result (parsed "1.5 == b * c;\n")
    ≡ some (
      (NodeKind.module_node, 0)
          ∷ (NodeKind.bin_op, 4)
          ∷ (NodeKind.int_lit, 0)
          ∷ (NodeKind.bin_op, 9)
          ∷ (NodeKind.identifier, 7)
          ∷ (NodeKind.identifier, 11)
          ∷ [],
      false,
      1,
    )
unfolding parsed
lost_error = refl

-- An operator without its right operand is followed through a null pointer.
dangling : parsed "a * ;\n" ≡ null_deref
unfolding parsed
dangling = refl

-- So is a bracket around nothing that is not closed.
open_bracket : parsed "(;\n" ≡ null_deref
unfolding parsed
open_bracket = refl

-- So is the default of a field, whose `=` is not consumed.
field_default : parsed "type T = { x: int = 1 }\n" ≡ null_deref
unfolding parsed
field_default = refl

abbrev errors_of : Outcome (ParseFileResult × Module) → Option (ℕ × ℕ)
errors_of (done (r, m)) = some (r.num_errors, length m.parser.errors)
errors_of _ = none

-- The result counts the errors of the module and not those of its parser.
no_errors :
    (let src : Source = text "for x\n" in
      errors_of (module_parse_file 20 12 (inr (src.memory, src.buffer)) (module_make none)))
    ≡ some (0, 1)
unfolding parsed module_parse_file module_make cxb.Parser.File.tree_make
no_errors = refl

abbrev token : TokenKind → ℕ → ℕ → Token
token k i n = record { kind = k; idx = i; n = n; line = 0; col = i; err = false }

-- The lexer behind a token.
abbrev behind : TokenKind → ℕ → ℕ → Lexer
behind k i n = record { idx = i + n; line = 0; col = i + n; tok = token k i n }

abbrev sum : Source
sum = text "a == b + c * d;\n"

abbrev operations : List (Token × Token)
operations =
    (token TokenKind.equality_op 2 2, token TokenKind.identifier 5 1)
    ∷ (token TokenKind.plus_op 7 1, token TokenKind.identifier 9 1)
    ∷ (token TokenKind.mul_op 11 1, token TokenKind.identifier 13 1)
    ∷ []

abbrev name_a : Token
name_a = token TokenKind.identifier 0 1

abbrev semicolon : Token
semicolon = token TokenKind.statement_end 14 1

ahead : Ready sum (name_a ∷ spell operations (semicolon ∷ [])) begin.errors 55 begin
unfolding parsed
ahead = inl (record {
  used = refl;
  ahead = (
    behind TokenKind.identifier 0 1,
    refl,
    refl,
    refl,
    (
      behind TokenKind.equality_op 2 2,
      refl,
      refl,
      refl,
      (
        behind TokenKind.identifier 5 1,
        refl,
        refl,
        refl,
        (
          behind TokenKind.plus_op 7 1,
          refl,
          refl,
          refl,
          (
            behind TokenKind.identifier 9 1,
            refl,
            refl,
            refl,
            (
              behind TokenKind.mul_op 11 1,
              refl,
              refl,
              refl,
              (
                behind TokenKind.identifier 13 1,
                refl,
                refl,
                refl,
                (behind TokenKind.statement_end 14 1, refl, refl, refl, tt),
              ),
            ),
          ),
        ),
      ),
    ),
  );
  same_errors = refl;
  has_room = omega arith;
})

are_operations : AreOperations operations
unfolding is_binary_op kind_eq
are_operations = (
  (refl, (refl, refl, refl), tt),
  ((refl, (refl, refl, refl), tt), ((refl, (refl, refl, refl), tt), tt)),
)

ends : IsEnd TokenKind.statement_end
unfolding is_binary_op kind_eq
ends = (refl, (refl, refl, refl))

parse_expression_correct_example :
    (m : AstNode) × (p : Parser) × (parse_expression sum 5 begin ≡ done (to m, p))
    × (forget m ≡ arrange (leaf name_a) operations)
    × Waits sum semicolon [] begin.errors 0 p
parse_expression_correct_example =
    parse_expression_correct sum 3 begin name_a operations semicolon [] (omega arith) tt
      are_operations ends 0 ahead

parse_expression_in_order_example :
    (m : AstNode) × (p : Parser) × (parse_expression sum 5 begin ≡ done (to m, p))
    × (inorder (forget m) ≡ name_a ∷ spell operations [])
    × AreWithin (root_code (forget m)) operations
parse_expression_in_order_example =
    parse_expression_in_order sum 3 begin name_a operations semicolon [] (omega arith) tt
      are_operations ends 0 ahead

parse_expression_three_example :
    (m : AstNode) × (p : Parser) × (parse_expression sum 5 begin ≡ done (to m, p))
    × (forget m
        ≡ op (token TokenKind.equality_op 2 2) (leaf name_a) (
            op
              (token TokenKind.mul_op 11 1)
              (op
                (token TokenKind.plus_op 7 1)
                (leaf (token TokenKind.identifier 5 1))
                (leaf (token TokenKind.identifier 9 1)))
              (leaf (token TokenKind.identifier 13 1))))
unfolding code
parse_expression_three_example =
    parse_expression_three sum 0 begin name_a (token TokenKind.identifier 5 1)
      (token TokenKind.identifier 9 1) (token TokenKind.identifier 13 1)
      (token TokenKind.equality_op 2 2) (token TokenKind.plus_op 7 1) (token TokenKind.mul_op 11 1)
      semicolon [] 0 tt are_operations ends ahead (omega arith) (omega arith)

-- An arena with little room.
abbrev small : Parser
small = start 8 100

-- The end of an empty text.
abbrev end_token : Token
end_token = token TokenKind.eof 0 0

only_end : Ready (text "") (end_token ∷ []) small.errors 0 small
unfolding parsed
only_end = inl (record {
  used = refl;
  ahead = (record { idx = 0; line = 0; col = 0; tok = end_token }, refl, refl, refl, tt);
  same_errors = refl;
  has_room = omega arith;
})

-- The node for the arguments, before any is read.
abbrev no_arguments : AstNode
no_arguments =
    ast
      (record {
        address = 1;
        kind = NodeKind.params;
        err = false;
        tok = no_token;
        content = numeral_literal 0;
        statement = false;
        kids_end = 0;
      })
      no_kids

parse_arguments-stopped_example :
    parse_arguments (text "") (parse_expression (text "") 7) 100 no_arguments small ≡ stopped
unfolding start
parse_arguments-stopped_example =
    parse_arguments-stopped (text "") end_token [] small.errors refl 100 5 no_arguments small
      (omega arith) only_end

parse_module-IsTree_example : Ends IsTree (parse_module sum 12 begin)
parse_module-IsTree_example = parse_module-IsTree sum 12 begin
