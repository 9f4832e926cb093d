-- ===== src/Parser/File.antt =====
-- `module_make` and `module_parse_file` of examples/parser.cpp. What `open_memfile` gives for the path
-- is an argument: an error, or the memory and the text of the file. An arena of a tree is its position
-- and its end in words of 8 bytes; one that is made is an empty arena, whose header takes 64 bytes.
use cxb.Prelude.{
  ℕ, ◌+◌, ◌/◌, ◌^◌, ◌⊎◌, inl, inr, Option, none, some, List, [], length, ltb, if◌then◌else◌,
}
use cxb.Arena.{sizeof_arena}
use cxb.Text.{Memory, String8}
use cxb.Ast.{Pointer, null, to}
use cxb.Parser.State.{Source, Parser, ParseError, Outcome, done, and_then}
use cxb.Parser.{parse_module, start}

pub data FileOpenErr : Type 0 where
  success is_not_file could_not_open : FileOpenErr

-- The fields of `Module` that parsing reads or writes.
pub record Module : Type 0 where
  pub root : Pointer
  pub parser : Parser
  pub parse_errors : List ParseError
  pub tree : Option (ℕ × ℕ)

pub record ParseFileResult : Type 0 where
  pub num_errors : ℕ
  pub file_err : FileOpenErr

-- The arena gives zeros. The argument is the arena of the tree, if there is one.
unfoldable pub module_make : Option (ℕ × ℕ) → Module
module_make tree = record { root = null; parser = start 0 0; parse_errors = []; tree = tree }

-- `arena_make_nbytes(max(n, KB(64)))`
unfoldable pub tree_make : ℕ → ℕ × ℕ
tree_make n = (sizeof_arena / 8, ((if ltb n (2 ^ 16) then 2 ^ 16 else n) + 7) / 8)

-- `rounds` bounds the lexer's loop for a token, and `n` the calls and loops of the parser.
unfoldable pub module_parse_file :
    (rounds n : ℕ) → FileOpenErr ⊎ (Memory × String8) → Module → Outcome (ParseFileResult × Module)
module_parse_file rounds n (inl e) m = done (record { num_errors = 0; file_err = e }, m)
module_parse_file rounds n (inr (memory, text)) m =
    let src : Source = record { memory = memory; buffer = text; rounds = rounds } in
    let tree : ℕ × ℕ = elim m.tree [ none ↦ tree_make text.len | some t ↦ t ] in
    and_then (parse_module src n (start tree.0 tree.1)) λ (root, p).
      let m' : Module = record m { root = to root; parser = p; tree = some (p.pos, p.end) } in
      done (record { num_errors = length m'.parse_errors; file_err = FileOpenErr.success }, m')
