-- ===== src/Lib.antt =====
-- Scorivm: a compiler for a small systems language with Latin keywords, written in C. The source
-- is scanned (src/frontend/lexer.c), parsed and checked against scoped symbols
-- (src/middleend/symtab.c) and types (src/middleend/types.c), lowered to an intermediate form
-- (src/ir/ir_builder.c), given registers (src/backend/reg_alloc.c), turned into machine
-- instructions (src/backend/x86_mir.c) and written as a PE file (src/backend/pe_linker.c). All
-- parts take memory from arenas (src/utils/memory_arena.c).
--
-- The files and what they model:
-- - Base: Boolean tests, lists with native indices, bytes, and rounding up to a power of two.
-- - Arena: src/utils/memory_arena.c. An `Arena` has its current chunk and the older ones; memory
--   is a function from addresses to bytes. `malloc` is the parameter `Malloc`, of which only the
--   freshness of what it returns is assumed. `exit(1)` is `none`. Sizes wrap at 2 ^ 64.
-- - Symtab: src/middleend/symtab.c. Pointers to scopes and symbols are indices into the two lists
--   of a `Symtab`; a hash table is the list of its chains. A lookup goes up at most as many
--   parents as there are scopes, which is enough since a parent is older than its child.
-- - Types: src/middleend/types.c. A type pointer is an index into a list of nodes (`none` for
--   null). The recursion through pointers is on fuel: a result is `some` and does not depend on
--   more fuel, and where no type contains itself by value enough fuel is shown to exist. Sizes
--   are written without the wrap of `int`, except for the product of an array, and results that
--   need it say below 2 ^ 31.
-- - Token, Lexer: src/frontend/token.h and src/frontend/lexer.c. Pointers into the source are
--   what is left of it from there; behind its end stands the byte 0. Loops over bytes are on
--   fuel, as many turns as bytes are left, and stop before it is used up. Strings and characters
--   are scanned by one function with the quote as an argument. The byte classes are those of the
--   C locale.
-- - Sir, RegAlloc: src/ir/sir.h as far as src/backend/reg_alloc.c reads it, and that file. Arrays
--   over registers are functions; an index `a * (max_vreg + 1) + b` of the matrix is the pair of
--   `a` and `b`, which is the same while `(max_vreg + 1) ^ 2` is at most 2 ^ 32. The search for
--   live registers is on fuel that is a parameter. The comparison of quotients in `double` is the
--   parameter `Weights`.
-- - Builder: src/ir/ir_builder.c up to the removal of unreachable blocks, and src/ir/ir_builder.h.
--   Nodes have a number for their address, which is all that pointers are compared by. The walk
--   over the blocks is on fuel, as many turns as the function has blocks, and each block is taken
--   from the stack once at most. An `int64_t` is its 64-bit pattern; what the operations on signed
--   patterns should give is Fold/Meaning. Operations of floating point are the parameter
--   `Doubles`, and what is asked of types.c the parameters `BasicTypes` and `CastType`.
-- - Mir: src/backend/x86_mir.h, and the first functions and the peephole pass of
--   src/backend/x86_mir.c. The walk over a block is on fuel, as many turns as the block has
--   instructions, each of which takes one away at least. A pointer to a block is its `address`,
--   since the number of a block may be that of a block of the next function.
-- - Encode: src/backend/pe_linker.c up to the writing of the file, and src/backend/pe_idata.c. An
--   instruction is the sequence of calls that it makes on the code buffer; what a call appends
--   depends on the pass only in the values of offsets. `exit(1)` is `none`, but for the
--   one in `buf_append`: the buffer is taken to find the memory to grow. The addresses and
--   instructions that a processor reads are definitions of their own, for the forms that are
--   written. The comparison of library names is a parameter of the import table.
--
-- Not modelled: the parser, the type checker, the lowering to the intermediate form and the
-- passes over it, the lowering to machine instructions, the headers of the PE file, which stand
-- above or behind these parts, and what only releases memory, prints or reads files.
pub mod Base
pub mod Arena
pub mod Symtab
pub mod Types
pub mod Token
pub mod Lexer
pub mod Sir
pub mod RegAlloc
pub mod Mir
pub mod Encode
pub mod Builder
