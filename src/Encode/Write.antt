-- ===== src/Encode/Write.antt =====
-- The calls on the code buffer of src/backend/pe_linker.c: an instruction is a sequence of them, and
-- running the sequence gives the bytes that it appends and the places that it records. The `realloc` that
-- lets the buffer grow is taken to succeed; where it fails `buf_append` exits.
pub mod Sizes
use scorivm.Base.Lists.{length}
use scorivm.Base.Logic.{Bytes, ◌==◌, if◌then◌else◌, ◌>>=◌}
use scorivm.Base.{
  ℕ, ◌+◌, ◌-◌, ◌%◌, ◌^◌, Bool, true, false, ◌||◌, Option, none, some, List, [], ◌∷◌, ◌++◌,
}
use scorivm.Encode.Memory.{LinkCtx, Reloc, func_reloc, Emitted, code, emit_mem_op, find_offset}
use scorivm.Encode.{emit8, emit32, bit}
use scorivm.Mir.{X86Value}

-- Only the last three write bytes that depend on what is known of the rest of the program.
pub data Write : Type 0 where
  literal : Bytes → Write
  mem_op : ℕ → X86Value → Write
  rel_to : ℕ → Write
  call_to : Bytes → Write

-- The low half of an address; the distance from behind the four bytes that hold it.
unfoldable pub rel32 : ℕ → ℕ → ℕ
rel32 target at = (target + 2 ^ 32 - (at + 4) % 2 ^ 32) % 2 ^ 32

pub call_relocs : LinkCtx → ℕ → Bytes → List Reloc
call_relocs ctx size name = elim (find_offset ctx.funcs name) [
  | none ↦ []
  | some off ↦ func_reloc size off ∷ []
]

-- `offs` gives `block->offset`, `size` is what the buffer holds.
unfoldable pub emit_write : LinkCtx → (ℕ → ℕ) → ℕ → Write → Emitted
emit_write ctx offs size (literal bs) = code bs
emit_write ctx offs size (mem_op reg v) = emit_mem_op ctx size reg v
emit_write ctx offs size (rel_to block) = code (emit32 (rel32 (offs block) size))
emit_write ctx offs size (call_to name) =
    some (emit32 0, if ctx.pass == 1 then call_relocs ctx size name else [])

unfoldable pub run_writes : LinkCtx → (ℕ → ℕ) → ℕ → List Write → Emitted
run_writes ctx offs size [] = code []
run_writes ctx offs size (w ∷ ws) = do
  (first, found) ← emit_write ctx offs size w
  (last, others) ← run_writes ctx offs (size + length first) ws
  some (first ++ last, found ++ others)
