-- ===== src/Encode/Layout.antt =====
-- The passes of `generate_machine_code` in src/backend/pe_linker.c over the functions and their blocks.
-- `size` of the text section is the length of its bytes; offsets are kept in 32 bits. `block->offset`
-- is the last entry of a log under the address of the block, 0 where there is none.
pub mod Passes
pub mod Agree
pub mod Ends
use scorivm.Base.Lists.{length, set}
use scorivm.Base.Logic.{Bytes, bytes_eq, codes, ◌==◌, if◌then◌else◌, ◌>>=◌}
use scorivm.Base.{
  ℕ, zero, suc, ◌+◌, ◌%◌, ◌^◌, Bool, true, false, Option, none, some, List, [], ◌∷◌, ◌++◌,
}
use scorivm.Encode.Dispatch.{emit_x86_inst}
use scorivm.Encode.Memory.{LinkCtx, Reloc}
use scorivm.Encode.Write.{rel32}
use scorivm.Encode.{emit8, emit32, emit_rex}
use scorivm.Mir.{X86Inst, X86Block, X86Function}

-- The tables that the passes do not change.
pub record Tables : Type 0 where
  pub strings : List (Bytes × ℕ)
  pub globals : List (Bytes × ℕ)
  pub func_names : List Bytes
  pub externs : List Bytes

pub record Text : Type 0 where
  pub text : Bytes
  pub relocs : List Reloc
  pub offsets : List (ℕ × ℕ)
  pub func_offsets : List ℕ
  pub princeps_offset : ℕ
  pub init_offset : ℕ

abbrev pub word32 : ℕ → ℕ
word32 n = n % 2 ^ 32

unfoldable pub offset_of : List (ℕ × ℕ) → ℕ → ℕ
offset_of [] block = 0
offset_of ((i, off) ∷ offsets) block = if i == block then off else offset_of offsets block

-- An entry of `func_names` beside the entry of `func_offsets` at its place.
unfoldable pub zip_funcs : List Bytes → List ℕ → List (Bytes × ℕ)
zip_funcs (n ∷ names) (off ∷ offs) = (n, off) ∷ zip_funcs names offs
zip_funcs _ _ = []

unfoldable pub ctx_of : ℕ → Tables → Text → LinkCtx
ctx_of pass tables st = record {
  pass = pass;
  strings = tables.strings;
  globals = tables.globals;
  funcs = zip_funcs tables.func_names st.func_offsets;
  externs = tables.externs;
}

-- At most 15 bytes are missing to a multiple of 16.
unfoldable pub pad_from : ℕ → Bytes → Bytes
pad_from zero bs = bs
pad_from (suc fuel) bs = if length bs % 16 == 0 then bs else pad_from fuel (bs ++ emit8 0x90)

abbrev pub pad : Bytes → Bytes
pad bs = pad_from 15 bs

abbrev pub append_code : Text → Bytes → List Reloc → Text
append_code st bs found = record {
  text = st.text ++ bs;
  relocs = st.relocs ++ found;
  offsets = st.offsets;
  func_offsets = st.func_offsets;
  princeps_offset = st.princeps_offset;
  init_offset = st.init_offset;
}

module _ (pass : ℕ) (tables : Tables) where
  unfoldable pub emit_insts : Text → List X86Inst → Option Text
  emit_insts st [] = some st
  emit_insts st (inst ∷ insts) = do
    (bs, found) ← emit_x86_inst (ctx_of pass tables st) (offset_of st.offsets) (length st.text) inst
    emit_insts (append_code st bs found) insts

-- A block after the first of its function starts at a multiple of 16.
abbrev pub start_block : Bool → ℕ → Text → Text
start_block first block st =
    let bs = if first then st.text else pad st.text in
    record {
      text = bs;
      relocs = st.relocs;
      offsets = (block, word32 (length bs)) ∷ st.offsets;
      func_offsets = st.func_offsets;
      princeps_offset = st.princeps_offset;
      init_offset = st.init_offset;
    }

-- The entry of a function, and the names that the program starts with.
abbrev pub start_function : ℕ → Bytes → Text → Text
start_function i name st =
    let bs = pad st.text in
    let start = word32 (length bs) in
    let is_princeps = bytes_eq name (codes "princeps") in
    record {
      text = bs;
      relocs = st.relocs;
      offsets = st.offsets;
      func_offsets = set st.func_offsets i start;
      princeps_offset = if is_princeps then start else st.princeps_offset;
      init_offset =
          if is_princeps
          then st.init_offset
          else if bytes_eq name (codes "__scorivm_init")
          then start
          else st.init_offset;
    }

module _ (pass : ℕ) (tables : Tables) where
  unfoldable pub emit_blocks : Bool → Text → List X86Block → Option Text
  emit_blocks first st [] = some st
  emit_blocks first st (b ∷ blocks) = do
    st1 ← emit_insts pass tables (start_block first b.address st) b.insts
    emit_blocks false st1 blocks

  unfoldable pub emit_functions : ℕ → Text → List X86Function → Option Text
  emit_functions i st [] = some st
  emit_functions i st (f ∷ funcs) = do
    st1 ← emit_blocks true (start_function i f.name st) f.blocks
    emit_functions (i + 1) st1 funcs

-- Calls `__scorivm_init` and `princeps` and leaves through `ExitProcess`, whose address is 0 so far.
-- `argc` and `argv` are kept in the space above the frame.
abbrev pub start_code : ℕ → ℕ → ℕ → Bytes
start_code init princeps size =
    let prefix = emit_rex true false false false in
    prefix
    ++ (0x83 ∷ 0xEC ∷ 0x28 ∷ [])
    ++ (prefix ++ (0x89 ∷ 0x4C ∷ 0x24 ∷ 0x30 ∷ []))
    ++ (prefix ++ (0x89 ∷ 0x54 ∷ 0x24 ∷ 0x38 ∷ []))
    ++ (0xE8 ∷ emit32 (rel32 init (size + 15)))
    ++ (prefix ++ (0x8B ∷ 0x4C ∷ 0x24 ∷ 0x30 ∷ []))
    ++ (prefix ++ (0x8B ∷ 0x54 ∷ 0x24 ∷ 0x38 ∷ []))
    ++ (0xE8 ∷ emit32 (rel32 princeps (size + 30)))
    ++ (prefix ++ (0x89 ∷ 0xC1 ∷ []))
    ++ (0xFF ∷ 0x15 ∷ emit32 0)

-- What a pass starts with: the offsets that are known, and no text.
abbrev pub reset_text : Text → Text
reset_text st = record {
  text = [];
  relocs = [];
  offsets = st.offsets;
  func_offsets = st.func_offsets;
  princeps_offset = st.princeps_offset;
  init_offset = st.init_offset;
}

-- The text, the entry point and the place of the call of `ExitProcess`.
unfoldable pub emit_pass : ℕ → Tables → Text → List X86Function → Option (Text × ℕ × ℕ)
emit_pass pass tables st funcs = do
  st1 ← emit_functions pass tables 0 (reset_text st) funcs
  let size = length st1.text
  some (
    append_code st1 (start_code st1.init_offset st1.princeps_offset size) [],
    word32 size,
    word32 (size + 39),
  )

unfoldable pub generate_text : Tables → Text → List X86Function → Option (Text × ℕ × ℕ)
generate_text tables st funcs = do
  (st1, entry, exit) ← emit_pass 0 tables st funcs
  emit_pass 1 tables st1 funcs
