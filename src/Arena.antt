-- ===== src/Arena.antt =====
-- The bump allocator of src/utils/memory_arena.c. The arena owns its chunks and the bytes in them;
-- `malloc` is a parameter. `none` is the call of `exit(1)`.
mod Safety
mod Realloc
mod Tests
use mathlib.Core.List.{reverse}
use scorivm.Base.Align.{align_up}
use scorivm.Base.Lists.{All}
use scorivm.Base.Logic.{ltb, leb, if◌then◌else◌, ◌==◌}
use scorivm.Base.{
  ℕ, ◌+◌, ◌-◌, ◌%◌, ◌^◌, ◌≤◌, ◌<◌, ◌≡◌, ◌⊎◌, Bool, true, false, ◌&&◌, Option, none, some, List, [],
  ◌∷◌, map,
}

-- An `ArenaChunk`: the address of its bytes, their number, and how many are handed out.
pub record Chunk : Type 0 where
  pub base : ℕ
  pub size : ℕ
  pub offset : ℕ

-- The chain of `next` links from `head` ends in `current`; `older` is the part before it, newest
-- first. `memory` holds the bytes that the chunks' addresses point to.
pub record Arena : Type 0 where
  pub current : Chunk
  pub older : List Chunk
  pub default_chunk_size : ℕ
  pub memory : ℕ → ℕ

abbrev pub chunks : Arena → List Chunk
chunks a = a.current ∷ a.older

-- The bytes from `p` to `p + n` share no address with the chunk.
abbrev pub Apart : ℕ → ℕ → Chunk → Type 0
Apart p n c = (p + n ≤ c.base) ⊎ (c.base + c.size ≤ p)

-- `malloc`, for the header of a chunk (only success matters) and for its bytes. A block that it
-- returns is aligned, is not at the null address, lies below 2 ^ 63 and apart from the live chunks.
pub record Malloc : Type 0 where
  pub header : List Chunk → Bool
  pub block : List Chunk → ℕ → Option ℕ
  pub block_fresh :
      (live : List Chunk) (n p : ℕ)
      → block live n ≡ some p
      → (p % 8 ≡ 0) × (0 < p) × (p + n < 2 ^ 63) × All (Apart p n) live

abbrev wrap : ℕ → ℕ
wrap n = n % 2 ^ 64

-- `memset(p, 0, n)`
abbrev pub memset_zero : (ℕ → ℕ) → ℕ → ℕ → ℕ → ℕ
memset_zero mem p n q = if leb p q && ltb q (p + n) then 0 else mem q

-- `memcpy(dst, src, n)`
abbrev pub memcpy : (ℕ → ℕ) → ℕ → ℕ → ℕ → ℕ → ℕ
memcpy mem dst src n q = if leb dst q && ltb q (dst + n) then mem (src + (q - dst)) else mem q

pub arena_chunk_create : Malloc → List Chunk → ℕ → Option Chunk
arena_chunk_create m live size =
    if m.header live
    then elim (m.block live size) [
      | none ↦ none
      | some p ↦ some (record { base = p; size = size; offset = 0 })
    ]
    else none

pub arena_init : Malloc → (ℕ → ℕ) → ℕ → Option Arena
arena_init m mem size = elim (arena_chunk_create m [] size) [
  | none ↦ none
  | some c ↦ some (record { current = c; older = []; default_chunk_size = size; memory = mem })
]

-- The last four lines of `arena_alloc`: hand out the next bytes of the current chunk, zeroed.
pub bump : Arena → ℕ → ℕ × Arena
bump a n =
    let c = a.current in
    let p = c.base + c.offset in
    (
      p,
      record a {
        current = record c { offset = wrap (c.offset + n) };
        memory = memset_zero a.memory p n;
      },
    )

pub arena_alloc : Malloc → Arena → ℕ → Option (ℕ × Arena)
unfolding bump
arena_alloc m a size =
    let aligned_size = align_up 64 size 8 in
    let new_size =
      if ltb a.default_chunk_size aligned_size then aligned_size else a.default_chunk_size in
    if ltb a.current.size (wrap (a.current.offset + aligned_size))
    then elim (arena_chunk_create m (chunks a) new_size) [
      | none ↦ none
      | some c ↦ some (bump (record a { current = c; older = chunks a }) aligned_size)
    ]
    else some (bump a aligned_size)

-- `offset - aligned_old + aligned_new` on `size_t`
abbrev pub shifted : ℕ → ℕ → ℕ → ℕ
shifted offset old new = wrap (wrap (offset + 2 ^ 64 - old) + new)

-- `arena_realloc` for a last block that is resized where it stands
pub resize_last : Arena → ℕ → ℕ → ℕ → Arena
resize_last a old_ptr aligned_old aligned_new =
    let c = a.current in
    record a {
      current = record c { offset = shifted c.offset aligned_old aligned_new };
      memory =
          if ltb aligned_old aligned_new
          then memset_zero a.memory (old_ptr + aligned_old) (aligned_new - aligned_old)
          else a.memory;
    }

-- The null pointer is 0.
pub arena_realloc : Malloc → Arena → ℕ → ℕ → ℕ → Option (ℕ × Arena)
unfolding resize_last
arena_realloc m a old_ptr old_size new_size =
    let c = a.current in
    let aligned_old = align_up 64 old_size 8 in
    let aligned_new = align_up 64 new_size 8 in
    let moved : Option (ℕ × Arena) = elim (arena_alloc m a new_size) [
      | none ↦ none
      | some (new_ptr, b) ↦ some (
        new_ptr,
        record b {
          memory =
              memcpy b.memory new_ptr old_ptr
                (if ltb old_size new_size then old_size else new_size);
        },
      )
    ] in
    if new_size == 0
    then some (0, a)
    else if old_ptr == 0
    then arena_alloc m a new_size
    else if old_ptr + aligned_old == c.base + c.offset
        && leb (shifted c.offset aligned_old aligned_new) c.size
    then some (old_ptr, resize_last a old_ptr aligned_old aligned_new)
    else moved

-- The chunks are freed from `head` on; the arena is then left with null pointers.
pub arena_free : Arena → List ℕ × Option Arena
arena_free a = (map (λ c. c.base) (reverse (chunks a)), none)
