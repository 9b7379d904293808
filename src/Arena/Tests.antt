-- ===== src/Arena/Tests.antt =====
-- A concrete `malloc`, runs of the arena over it, and the theorems at those runs.
use scorivm.Arena.Realloc.{Resizes, realloc-Resizes}
use scorivm.Arena.Safety.{IsValid, HandsOut, init-IsValid, alloc-HandsOut}
use scorivm.Arena.{
  Chunk, Arena, Apart, Malloc, memset_zero, memcpy, arena_chunk_create, arena_init, arena_alloc,
  arena_realloc, arena_free,
}
use scorivm.Base.Align.{align_up}
use scorivm.Base.Lists.{All}
use scorivm.Base.Logic.{ltb, if◌then◌else◌}
use scorivm.Base.{
  ℕ, ◌+◌, ◌*◌, ◌/◌, ◌%◌, ◌^◌, ◌≤◌, ◌<◌, ◌≡◌, refl, inl, inr, true, false, Option, none, some, List,
  [], ◌∷◌, max, arith,
}

-- An address above all live chunks.
top : List Chunk → ℕ
top [] = 4096
top (c ∷ cs) = max ((c.base + c.size) / 8 * 8 + 8) (top cs)

top-Apart : (cs : List Chunk) (p n : ℕ) → top cs ≤ p → All (Apart p n) cs
unfolding top
top-Apart [] p n h = tt
top-Apart (c ∷ cs) p n h = (inr (omega arith), top-Apart cs p n (omega arith))

top_aligned : (cs : List Chunk) → (top cs % 8 ≡ 0) × (0 < top cs)
unfolding top
top_aligned [] = omega arith
top_aligned (c ∷ cs) = let t = top_aligned cs in omega arith

stacked : List Chunk → ℕ → Option ℕ
stacked live n = if ltb (top live + n) (2 ^ 63) then some (top live) else none

stacked_fresh :
    (live : List Chunk) (n p : ℕ)
    → stacked live n ≡ some p
    → (p % 8 ≡ 0) × (0 < p) × (p + n < 2 ^ 63) × All (Apart p n) live
unfolding stacked
stacked_fresh live n p e =
    let same : (p ≡ top live) × (top live + n < 2 ^ 63) = ground arith in
    let t = top_aligned live in
    (omega arith, omega arith, omega arith, top-Apart live p n (omega arith))

abbrev stack_malloc : Malloc
stack_malloc = record { header = λ _. true; block = stacked; block_fresh = stacked_fresh }

abbrev blank : ℕ → ℕ
blank q = 7

abbrev start : Arena
start = record {
  current = record { base = 4096; size = 64; offset = 0 };
  older = [];
  default_chunk_size = 64;
  memory = blank;
}

run : Unit {0}
unfolding stacked top arena_chunk_create arena_init arena_alloc arena_realloc arena_free align_up
run = tt

init_run : arena_init stack_malloc blank 64 ≡ some start
unfolding run
init_run = refl

abbrev first : Arena
first = record start {
  current = record { base = 4096; size = 64; offset = 16 };
  memory = memset_zero blank 4096 16;
}

alloc_run : arena_alloc stack_malloc start 13 ≡ some (4096, first)
unfolding run
alloc_run = refl

-- The block does not fit: a new chunk is added, and the bytes are copied.
abbrev second : Arena
second = record {
  current = record { base = 4168; size = 104; offset = 104 };
  older = first.current ∷ [];
  default_chunk_size = 64;
  memory = memcpy (memset_zero first.memory 4168 104) 4168 4096 13;
}

realloc_run : arena_realloc stack_malloc first 4096 13 100 ≡ some (4168, second)
unfolding run
realloc_run = refl

free_run : arena_free second ≡ (4096 ∷ 4168 ∷ [], none)
unfolding run
free_run = refl

start-IsValid : IsValid start
start-IsValid = (init-IsValid stack_malloc blank 64 start init_run).0

alloc-HandsOut_example : HandsOut start 13 4096 first
alloc-HandsOut_example =
    alloc-HandsOut stack_malloc start 13 4096 first start-IsValid (omega arith) alloc_run

realloc-Resizes_example : Resizes first 4096 13 100 4168 second
realloc-Resizes_example =
    realloc-Resizes first 4096 13 100 alloc-HandsOut_example.valid
      (inl (unfold run in (omega arith, omega arith))) (omega arith) (omega arith) (omega arith)
      (omega arith) stack_malloc 4168 second (omega arith) realloc_run

-- A `malloc` that always fails.
abbrev no_malloc : Malloc
no_malloc = record {
  header = λ _. false;
  block = λ _ _. none;
  block_fresh = λ live n p e. absurd (ground arith);
}

exit_run : arena_alloc no_malloc first 100 ≡ none
unfolding run
exit_run = refl
