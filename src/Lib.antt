-- ===== src/Lib.antt =====
-- cxb is a C++ library of arenas, views of text, arrays and a hash map that work on explicit
-- allocators (cxb/cxb.h, cxb/cxb.cpp). This library models its core.
--
-- The parts and how they interact:
--
--   Prelude   the names that the other files share: native numbers, Boolean tests, 64-bit words
--             with wrap-around, signed integers, lists.
--   Bits      `pow2mod` and `round_up_pow2`, by which the hash map finds its place in a table.
--   HashMap   `MHashMap`: an open-addressing table with linear probing and tombstones.
--             HashMap.antt has the operations under their names in the source (`_reserve` is
--             `rehash_to`); Probe describes the circle of a table, Valid the invariant (every
--             occupied entry is reached from its home without an empty entry, and no key is there
--             twice), and Lookup, Erase, Insert, Count, Rehash, Put, Returns, Fields and Iter
--             treat the operations. History has sequences of operations and the finite map that
--             they make.
--   Text      `String8`, a view of bytes in memory, and its functions that only read. A memory is
--             a function from addresses to bytes, and address 0 is the null pointer.
--   Arena     the bump allocator under every other part: positions, padding, going back.
--   Allocator the allocation procedures: over an arena, `arena_alloc_proc` and `arena_free_proc`,
--             and in Heap over the C library, `heap_alloc_proc` and `heap_free_proc`.
--   Owned     `MString8`, a string that owns its bytes, and in MArray `MArray`, an array that owns
--             its elements. The procedures of the allocator are parameters; Extend and Append take
--             the arena's for them.
--   Split     `String8SplitIterator`: splitting at a delimiter or at any of some characters. Delim
--             and Chars have the parts that each gives, Range the range loop over the iterator.
--   Strings   the `string8_` functions that change a string at the end of an arena. A state is
--             memory, the arena and the string.
--   Numbers   parsing and formatting of integers. A type is its width and whether it is signed,
--             and a value is its residue.
--   Sort      `merge_sort`. Merge has the merge of two lists, with which Moves and Loops compare
--             the loops; Correct treats the recursion.
--   Utf8      the decoder `utf8_iter_next` and `decode_string8`; Encoding has the encoding.
--   Lexer     `lex_next` of the example language (examples/parser.h, examples/parser.cpp): Tokens,
--             Words and Labels have the kinds of tokens, the reserved words and the labels of the
--             `switch`; Span treats the inner loops, Character a round of the outer loop, and
--             Progress the function as a whole. Stream has `next_tok` and `peek_tok`, and Literal
--             has `atoi128`.
--   Ast       the syntax tree of the example language. A pointer is null or the node that it leads
--             to.
--   Parser    the recursive descent of examples/parser.cpp over the tokens of Lexer/Stream. State
--             has the state of `struct Parser` and the macros; Literals, Operators, Expressions
--             and Declarations have a function for each branch of the parsers, and Parser.antt has
--             their calls of one another and `parse_module`; File has `module_parse_file`. A call
--             returns, follows a null pointer, leaves the kids of a node, fails an assertion, or
--             is not done within the rounds of the model. The nodes and the pointers to their kids
--             are pushed on one arena, by its position. Yields and Shape treat the shape of the
--             trees, Returns the calls that return, Priority the order of operators, and Endless a
--             loop that only an assertion ends.
--   Array     the `array_` functions, which keep an array at the end of an arena. A state is
--             memory, the arena and the array, and an element is the list of its bytes.
--
-- Conventions. Machine words are numbers, and sums and differences that the source computes on 64
-- bits are `add64` and `sub64` wherever they can wrap; sums of a pointer and an offset are not
-- wrapped. A result in `Option` is `none` where ASSERT or DEBUG_ASSERT stops the program; the
-- assertions are modelled as they are in a debug build. It is also `none` where a write goes
-- through a null pointer or past the last address, or where a negation overflows. What `memcpy`
-- leaves on regions with a common byte is undefined, and the model leaves a value there that is no
-- byte. The type parameters are trivially constructible, so construction and destruction are
-- writes of bytes or nothing.
--
-- Loops. A probe loop of the hash map gets the capacity as fuel: it is back at its home after that
-- many steps. The loop of the map's iterator need not end; its fuel is an argument. Loops over text
-- recurse on the bytes that are left; `string8_trim_all` gets one round more than there are bytes,
-- since each round drops at least one. `collect`, the loop over the parts of a split, gets two
-- rounds more than there are bytes: a part ends at least one byte behind the one before, and the
-- last round finds no part. The digits of a word are at most 20. The recursion of `merge_sort` gets
-- the length as fuel, since each half is shorter than the whole. `utf8_iter_next` recurses on the
-- bytes that are left, and `decode_string8` gets one batch more than there are bytes. The loop of
-- `lex_next` need not end; its fuel is an argument, and one more than the length of the text is
-- enough where it does. Its inner loops recurse on the characters that are left. The parser need not
-- end either: one argument bounds the depth of its calls and the rounds of each of its loops, and an
-- expression of names and operators needs one more than it has operators, and one for its own call.
--
-- Parameters. The key type of a map is the record `Key`: an equality test that decides equality,
-- and a hash function, which is arbitrary. The allocation procedure of an owned string is a
-- function on memory and a state of its own. So are the functions of the C library under the heap
-- procedures; what they are documented to do is the record `IsCHeap`. What `mmap` gives is an
-- argument of `arena_make`.
--
-- Not modelled: formatting of other values, atomics, the
-- thread-local runtime, the exhaustion of the parser's arenas of errors and of statements, a failed
-- allocation of a table of a map, whose length is below 2 ^ 53, and the interpreter of the example
-- language, which prints the tree. What opening a file gives is an argument of `module_parse_file`.
pub mod Allocator
pub mod Arena
pub mod Array
pub mod Ast
pub mod Bits
pub mod HashMap
pub mod Lexer
pub mod Numbers
pub mod Owned
pub mod Parser
pub mod Prelude
pub mod Sort
pub mod Split
pub mod Strings
pub mod Text
pub mod Utf8
