-- ===== src/Lexer/Words.antt =====
-- `RESERVED_WORDS` and `get_reserved_word` of examples/parser.cpp. A word is the list of its bytes.
use Prim.Native.String.{String}
use cxb.Lexer.Tokens.{TokenKind}
use cxb.Prelude.{
  ℕ, Bool, true, false, ◌&&◌, Option, none, some, List, [], ◌∷◌, ◌==◌, if◌then◌else◌, codes,
}

-- `operator==` of two strings.
unfoldable pub name_eq : List ℕ → List ℕ → Bool
name_eq [] [] = true
name_eq [] (y ∷ ys) = false
name_eq (x ∷ xs) [] = false
name_eq (x ∷ xs) (y ∷ ys) = x == y && name_eq xs ys

unfoldable pub reserved_words : List (String × TokenKind)
reserved_words =
    ("return", TokenKind.return_keyword)
    ∷ ("const", TokenKind.const_keyword)
    ∷ ("var", TokenKind.var_keyword)
    ∷ ("type", TokenKind.type_keyword)
    ∷ ("struct", TokenKind.struct_keyword)
    ∷ ("union", TokenKind.union_keyword)
    ∷ ("enum", TokenKind.enum_keyword)
    ∷ ("func", TokenKind.function_keyword)
    ∷ ("defer", TokenKind.defer_keyword)
    ∷ ("import", TokenKind.import_keyword)
    ∷ ("while", TokenKind.while_keyword)
    ∷ ("for", TokenKind.for_keyword)
    ∷ ("continue", TokenKind.continue_keyword)
    ∷ ("break", TokenKind.break_keyword)
    ∷ ("static", TokenKind.static_keyword)
    ∷ ("if", TokenKind.if_keyword)
    ∷ ("elif", TokenKind.elif_keyword)
    ∷ ("else", TokenKind.else_keyword)
    ∷ ("switch", TokenKind.switch_keyword)
    ∷ ("case", TokenKind.case_keyword)
    ∷ ("true", TokenKind.bool_literal)
    ∷ ("false", TokenKind.bool_literal)
    ∷ ("nil", TokenKind.nil_literal)
    ∷ ("not", TokenKind.not_op)
    ∷ ("and", TokenKind.and_op)
    ∷ ("or", TokenKind.or_op)
    ∷ []

-- The loop over the words.
unfoldable pub find_word : List (String × TokenKind) → List ℕ → Option TokenKind
find_word [] word = none
find_word ((name, kind) ∷ rest) word =
    if name_eq (codes name) word then some kind else find_word rest word

unfoldable pub get_reserved_word : List ℕ → Option TokenKind
get_reserved_word word = find_word reserved_words word
