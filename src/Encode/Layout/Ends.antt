-- ===== src/Encode/Layout/Ends.antt =====
-- The first pass of `generate_machine_code` in src/backend/pe_linker.c gives up on no program, and the
-- distances of its jumps lead to the blocks.

use scorivm.Base.Lists.{length}
use scorivm.Base.Logic.{◌==◌}
use scorivm.Base.{
  ℕ, ◌+◌, ◌%◌, ◌^◌, ◌<◌, ◌≡◌, refl, Bool, true, false, Option, some, List, [], ◌∷◌, arith,
}
use scorivm.Encode.Dispatch.{writes, write_case, emit_x86_inst}
use scorivm.Encode.Instruction.{cond_code}
use scorivm.Encode.Layout.{
  Tables, Text, offset_of, ctx_of, append_code, emit_insts, start_block, start_function,
  emit_blocks, emit_functions, reset_text, emit_pass,
}
use scorivm.Encode.Memory.{LinkCtx, emit_mem_op}
use scorivm.Encode.Write.{Write, literal, mem_op, rel_to, call_to, emit_write, run_writes, rel32}
use scorivm.Encode.{emit32}
use scorivm.Mir.{
  X86Value, op_none, op_reg, op_imm, op_block, mem_base_disp, mem_sib, mem_rip, op_label, op_string,
  X86Opcode, x86_inst_jmp, x86_inst_jcc, X86Condition, X86Inst, X86Block, X86Function,
}

-- A call that returns.
pub Ends {ℓ} : {A : Type ℓ} → Option A → Type ℓ
Ends {A = A} o = (a : A) × (o ≡ some a)

module _ (ctx : LinkCtx) (offs : ℕ → ℕ) (first : (ctx.pass == 1) ≡ false) where
  mem-Ends : (size reg : ℕ) (v : X86Value) → Ends (emit_mem_op ctx size reg v)
  unfolding Ends emit_mem_op
  mem-Ends size reg (op_string text) = rw first (_, refl)
  mem-Ends size reg (mem_rip name) = rw first (_, refl)
  mem-Ends size reg (mem_base_disp base disp) = (_, refl)
  mem-Ends size reg (mem_sib base index scale disp) = (_, refl)
  mem-Ends size reg op_none = (_, refl)
  mem-Ends size reg (op_reg r) = (_, refl)
  mem-Ends size reg (op_imm r) = (_, refl)
  mem-Ends size reg (op_block r) = (_, refl)
  mem-Ends size reg (op_label r) = (_, refl)

  write-Ends : (size : ℕ) (w : Write) → Ends (emit_write ctx offs size w)
  unfolding Ends emit_write
  write-Ends size (literal bs) = (_, refl)
  write-Ends size (mem_op reg v) = mem-Ends size reg v
  write-Ends size (rel_to block) = (_, refl)
  write-Ends size (call_to name) = (_, refl)

  run_writes-Ends : (size : ℕ) (ws : List Write) → Ends (run_writes ctx offs size ws)
  unfolding Ends run_writes
  run_writes-Ends size [] = (_, refl)
  run_writes-Ends size (w ∷ ws) =
      let (a, h) = write-Ends size w in
      let (b, k) = run_writes-Ends (size + length a.0) ws in rw (h, k) (_, refl)

module _ (tables : Tables) where
  emit_insts-Ends : (st : Text) (insts : List X86Inst) → Ends (emit_insts 0 tables st insts)
  unfolding Ends emit_insts emit_x86_inst ctx_of
  emit_insts-Ends st [] = (_, refl)
  emit_insts-Ends st (inst ∷ insts) =
      let (e, h) =
        run_writes-Ends (ctx_of 0 tables st) (offset_of st.offsets) refl (length st.text)
          (writes inst) in
      rw h (emit_insts-Ends (append_code st e.0 e.1) insts)

  emit_blocks-Ends :
      (first : Bool) (st : Text) (blocks : List X86Block)
      → Ends (emit_blocks 0 tables first st blocks)
  unfolding Ends emit_blocks
  emit_blocks-Ends first st [] = (_, refl)
  emit_blocks-Ends first st (b ∷ blocks) =
      let (st1, h) = emit_insts-Ends (start_block first b.address st) b.insts in
      rw h (emit_blocks-Ends false st1 blocks)

  emit_functions-Ends :
      (i : ℕ) (st : Text) (funcs : List X86Function) → Ends (emit_functions 0 tables i st funcs)
  unfolding Ends emit_functions
  emit_functions-Ends i st [] = (_, refl)
  emit_functions-Ends i st (f ∷ funcs) =
      let (st1, h) = emit_blocks-Ends true (start_function i f.name st) f.blocks in
      rw h (emit_functions-Ends (i + 1) st1 funcs)

  -- No call of the first pass gives up: what it writes needs no name that it does not find.
  pub first_pass-Ends : (st : Text) (funcs : List X86Function) → Ends (emit_pass 0 tables st funcs)
  unfolding Ends emit_pass
  first_pass-Ends st funcs =
      let (st1, h) = emit_functions-Ends 0 (reset_text st) funcs in rw h (_, refl)

abbrev jump : X86Opcode → X86Condition → ℕ → X86Inst
jump opcode cond block = record {
  opcode = opcode;
  cond = cond;
  ops = record { size = 0; value = op_block block } ∷ [];
}

-- What a jump appends ends with a distance that leads from behind it to the block.
pub jumps-Land :
    (ctx : LinkCtx) (offs : ℕ → ℕ) (size block : ℕ) (c : X86Condition)
    → offs block < 2 ^ 32
    → (d : ℕ) × (e : ℕ) × (emit_x86_inst ctx offs size (jump x86_inst_jmp c block)
        ≡ some (0xE9 ∷ emit32 d, []))
      × ((size + 5 + d) % 2 ^ 32 ≡ offs block)
      × (emit_x86_inst ctx offs size (jump x86_inst_jcc c block)
          ≡ some (0x0F ∷ (0x80 + cond_code c) % 256 ∷ emit32 e, []))
      × ((size + 6 + e) % 2 ^ 32 ≡ offs block)
unfolding emit_x86_inst writes write_case run_writes emit_write rel32 emit32
jumps-Land ctx offs size block c h = (
  rel32 (offs block) (size + 1),
  rel32 (offs block) (size + 2),
  refl,
  omega arith,
  refl,
  omega arith,
)
