-- ===== src/Encode/Dispatch.antt =====
-- The cases of `emit_x86_inst` in src/backend/pe_linker.c.
use scorivm.Base.Lists.{length}
use scorivm.Base.Logic.{ltb, ◌==◌, if◌then◌else◌}
use scorivm.Base.{ℕ, ◌+◌, Bool, true, false, ◌&&◌, List, [], ◌∷◌, ◌++◌}
use scorivm.Encode.Instruction.Scalar.{
  write_movd, write_from_int, write_to_int, write_scalar, write_ucomiss,
}
use scorivm.Encode.Instruction.{
  byte_or, cond_code, force_rex, is_wide, rex, with_mem, two_regs, one_reg, write_mov, write_extend,
  write_binary, write_imul, write_shift, write_jump, write_call, write_xchg, write_push_pop,
}
use scorivm.Encode.Memory.{LinkCtx, Emitted}
use scorivm.Encode.Write.{Write, literal, run_writes}
use scorivm.Encode.{emit8}
use scorivm.Mir.{
  reg_of, X86Opcode, x86_inst_mov, x86_inst_movsx, x86_inst_movzx, x86_inst_lea, x86_inst_imul,
  x86_inst_idiv, x86_inst_div, x86_inst_shl, x86_inst_shr, x86_inst_sar, x86_inst_neg, x86_inst_not,
  x86_inst_inc, x86_inst_dec, x86_inst_jmp, x86_inst_jcc, x86_inst_call, x86_inst_ret,
  x86_inst_push, x86_inst_pop, x86_inst_cqo, x86_inst_cdq, x86_inst_xchg, x86_inst_setcc,
  x86_inst_cmovcc, x86_inst_movd, x86_inst_movq, x86_inst_movss, x86_inst_movsd, x86_inst_cvtsi2ss,
  x86_inst_cvtsi2sd, x86_inst_cvttss2si, x86_inst_cvttsd2si, x86_inst_cvtss2sd, x86_inst_cvtsd2ss,
  x86_inst_addss, x86_inst_addsd, x86_inst_subss, x86_inst_subsd, x86_inst_mulss, x86_inst_mulsd,
  x86_inst_divss, x86_inst_divsd, x86_inst_ucomiss, x86_inst_ucomisd, x86_inst_rep_movsb,
  x86_inst_cld, x86_inst_ud2, X86Inst, op_at,
}

-- One of the opcodes `F6`, `F7`, `FE` and `FF` with its extension.
abbrev write_unary : Bool → Bool → ℕ → ℕ → ℕ → ℕ → List Write
write_unary f w s0 narrow ext r = one_reg f w ext r (emit8 (byte_or s0 narrow (narrow + 1))) []

-- The calls for an opcode; `f`, `w`, `r` and `q` are `force_rex`, `w` and the registers of the operands.
unfoldable pub write_case : X86Opcode → X86Inst → Bool → Bool → ℕ → ℕ → List Write
write_case x86_inst_mov inst f w r q =
    write_mov f w (op_at inst 0).size (op_at inst 1).size (op_at inst 0).value (op_at inst 1).value
write_case x86_inst_movsx inst f w r q =
    write_extend true f w r (op_at inst 1).size (op_at inst 1).value
write_case x86_inst_movzx inst f w r q =
    write_extend false f w r (op_at inst 1).size (op_at inst 1).value
write_case x86_inst_lea inst f w r q = with_mem f w r (op_at inst 1).value (emit8 0x8D)
write_case x86_inst_imul inst f w r q = write_imul f w (op_at inst 0).size r (op_at inst 1).value
write_case x86_inst_idiv inst f w r q = write_unary f w (op_at inst 0).size 0xF6 7 r
write_case x86_inst_div inst f w r q = write_unary f w (op_at inst 0).size 0xF6 6 r
write_case x86_inst_neg inst f w r q = write_unary f w (op_at inst 0).size 0xF6 3 r
write_case x86_inst_not inst f w r q = write_unary f w (op_at inst 0).size 0xF6 2 r
write_case x86_inst_inc inst f w r q = write_unary f w (op_at inst 0).size 0xFE 0 r
write_case x86_inst_dec inst f w r q = write_unary f w (op_at inst 0).size 0xFE 1 r
write_case x86_inst_push inst f w r q = write_push_pop f 0x50 r
write_case x86_inst_pop inst f w r q = write_push_pop f 0x58 r
write_case x86_inst_setcc inst f w r q =
    one_reg f false 0 r (emit8 0x0F ++ emit8 (0x90 + cond_code inst.cond)) []
write_case x86_inst_shl inst f w r q =
    write_shift f w (length inst.ops) (op_at inst 0).size 4 r (op_at inst 1).value
write_case x86_inst_shr inst f w r q =
    write_shift f w (length inst.ops) (op_at inst 0).size 5 r (op_at inst 1).value
write_case x86_inst_sar inst f w r q =
    write_shift f w (length inst.ops) (op_at inst 0).size 7 r (op_at inst 1).value
write_case x86_inst_jmp inst f w r q = write_jump (emit8 0xE9) (op_at inst 0).value
write_case x86_inst_jcc inst f w r q =
    write_jump (emit8 0x0F ++ emit8 (0x80 + cond_code inst.cond)) (op_at inst 0).value
write_case x86_inst_call inst f w r q = write_call f (op_at inst 0).value
write_case x86_inst_ret inst f w r q = literal (emit8 0xC3) ∷ []
write_case x86_inst_cqo inst f w r q = literal (rex f true false false false ++ emit8 0x99) ∷ []
write_case x86_inst_cdq inst f w r q = literal (emit8 0x99) ∷ []
write_case x86_inst_cld inst f w r q = literal (emit8 0xFC) ∷ []
write_case x86_inst_rep_movsb inst f w r q = literal (emit8 0xF3 ++ emit8 0xA4) ∷ []
write_case x86_inst_ud2 inst f w r q = literal (emit8 0x0F ++ emit8 0x0B) ∷ []
write_case x86_inst_xchg inst f w r q = write_xchg f w r q
write_case x86_inst_cmovcc inst f w r q =
    two_regs f w r q (emit8 0x0F ++ emit8 (0x40 + cond_code inst.cond))
write_case x86_inst_movd inst f w r q = write_movd f false r q
write_case x86_inst_movq inst f w r q = write_movd f true r q
write_case x86_inst_cvtsi2ss inst f w r q = write_from_int f 0xF3 r q
write_case x86_inst_cvtsi2sd inst f w r q = write_from_int f 0xF2 r q
write_case x86_inst_cvttss2si inst f w r q = write_to_int f 0xF3 r q
write_case x86_inst_cvttsd2si inst f w r q = write_to_int f 0xF2 r q
write_case x86_inst_cvtss2sd inst f w r q = write_scalar f 0xF3 0x5A r q
write_case x86_inst_cvtsd2ss inst f w r q = write_scalar f 0xF2 0x5A r q
write_case x86_inst_addss inst f w r q = write_scalar f 0xF3 0x58 r q
write_case x86_inst_addsd inst f w r q = write_scalar f 0xF2 0x58 r q
write_case x86_inst_subss inst f w r q = write_scalar f 0xF3 0x5C r q
write_case x86_inst_subsd inst f w r q = write_scalar f 0xF2 0x5C r q
write_case x86_inst_mulss inst f w r q = write_scalar f 0xF3 0x59 r q
write_case x86_inst_mulsd inst f w r q = write_scalar f 0xF2 0x59 r q
write_case x86_inst_divss inst f w r q = write_scalar f 0xF3 0x5E r q
write_case x86_inst_divsd inst f w r q = write_scalar f 0xF2 0x5E r q
write_case x86_inst_ucomiss inst f w r q = write_ucomiss f r q
write_case x86_inst_ucomisd inst f w r q = write_scalar f 0x66 0x2E r q
write_case x86_inst_movss inst f w r q = write_scalar f 0xF3 0x10 r q
write_case x86_inst_movsd inst f w r q = write_scalar f 0xF2 0x10 r q
write_case opc inst f w r q = write_binary opc f w (op_at inst 0).size r (op_at inst 1).value

-- A size of two bytes has a prefix before all else.
unfoldable pub writes : X86Inst → List Write
writes inst =
    let first : List Write =
      if ltb 0 (length inst.ops) && (op_at inst 0).size == 2
      then literal (emit8 0x66) ∷ []
      else [] in
    first
    ++ write_case inst.opcode inst (force_rex inst) (is_wide inst) (reg_of (op_at inst 0).value)
        (reg_of (op_at inst 1).value)

unfoldable pub emit_x86_inst : LinkCtx → (ℕ → ℕ) → ℕ → X86Inst → Emitted
emit_x86_inst ctx offs size inst = run_writes ctx offs size (writes inst)
