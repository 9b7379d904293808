-- ===== src/Encode/Memory.antt =====
-- Memory operands: `get_mem_rex`, `emit_mem_op` and the `LinkCtx` of src/backend/pe_linker.c.
pub mod Address
pub mod RoundTrip
use scorivm.Base.Lists.{length}
use scorivm.Base.Logic.{Bytes, bytes_eq, ◌==◌, if◌then◌else◌}
use scorivm.Base.{
  ℕ, zero, suc, ◌+◌, ◌%◌, Bool, true, false, ◌&&◌, Option, none, some, List, [], ◌∷◌, ◌++◌,
}
use scorivm.Encode.{emit8, emit32, emit_modrm, emit_sib, emit_mem, is_disp8, high}
use scorivm.Mir.{X86Operand, X86Value, op_string, mem_rip, mem_base_disp, mem_sib}

-- The tables of a pass, as pairs of a name or a text and its offset.
pub record LinkCtx : Type 0 where
  pub pass : ℕ
  pub strings : List (Bytes × ℕ)
  pub globals : List (Bytes × ℕ)
  pub funcs : List (Bytes × ℕ)
  pub externs : List Bytes

-- A place in the text to be filled in, by the table that it is recorded in.
pub data Reloc : Type 0 where
  str_reloc data_reloc func_reloc extern_reloc : (text_off target : ℕ) → Reloc

-- What a call appends, and what it records; `none` is `exit(1)`.
abbrev pub Emitted : Type 0
Emitted = Option (Bytes × List Reloc)

abbrev pub code : Bytes → Emitted
code bs = some (bs, [])

-- The first entry of a table with a name.
pub find_offset : List (Bytes × ℕ) → Bytes → Option ℕ
find_offset [] name = none
find_offset ((n, off) ∷ table) name = if bytes_eq n name then some off else find_offset table name

pub find_index : ℕ → List Bytes → Bytes → Option ℕ
find_index i [] name = none
find_index i (n ∷ names) name = if bytes_eq n name then some i else find_index (i + 1) names name

-- A string that is not found keeps the offset 0.
pub string_reloc : LinkCtx → ℕ → Bytes → Reloc
string_reloc ctx at text = elim (find_offset ctx.strings text) [
  | none ↦ str_reloc at 0
  | some off ↦ str_reloc at off
]

pub label_reloc : LinkCtx → ℕ → Bytes → Option Reloc
label_reloc ctx at name = elim (find_offset ctx.globals name) [
  | some off ↦ some (data_reloc at off)
  | none ↦ elim (find_index 0 ctx.externs name) [
    | some i ↦ some (extern_reloc at i)
    | none ↦ elim (find_offset ctx.funcs name) [ some off ↦ some (func_reloc at off) | none ↦ none ]
  ]
]

-- The bits of the prefix for the index and for the base.
pub get_mem_rex : X86Value → Bool × Bool
get_mem_rex (mem_base_disp base disp) = (false, high base)
get_mem_rex (mem_sib base index scale disp) = (high index, high base)
get_mem_rex _ = (false, false)

unfoldable pub emit_mem_sib : ℕ → ℕ → ℕ → ℕ → ℕ → Bytes
emit_mem_sib reg base index scale disp =
    let b = base % 8 in
    if disp == 0 && (if b == 5 then false else true)
    then emit_modrm 0 (reg % 8) 4 ++ emit_sib scale index b
    else if is_disp8 disp
    then emit_modrm 1 (reg % 8) 4 ++ (emit_sib scale index b ++ emit8 disp)
    else emit_modrm 2 (reg % 8) 4 ++ (emit_sib scale index b ++ emit32 disp)

-- An address relative to the instruction pointer, left 0 until it is linked.
abbrev pub rip_bytes : ℕ → Bytes
rip_bytes reg = emit_modrm 0 (reg % 8) 5 ++ emit32 0

-- `size` is what the buffer holds before the call.
unfoldable pub emit_mem_op : LinkCtx → ℕ → ℕ → X86Value → Emitted
emit_mem_op ctx size reg (mem_base_disp base disp) = code (emit_mem reg base disp)
emit_mem_op ctx size reg (mem_sib base index scale disp) =
    code (emit_mem_sib reg base index scale disp)
emit_mem_op ctx size reg (op_string text) =
    if ctx.pass == 1
    then some (rip_bytes reg, string_reloc ctx (size + length (emit_modrm 0 (reg % 8) 5)) text ∷ [])
    else code (rip_bytes reg)
emit_mem_op ctx size reg (mem_rip name) =
    if ctx.pass == 1
    then elim (label_reloc ctx (size + length (emit_modrm 0 (reg % 8) 5)) name) [
      | none ↦ none
      | some r ↦ some (rip_bytes reg, r ∷ [])
    ]
    else code (rip_bytes reg)
emit_mem_op ctx size reg _ = code []
