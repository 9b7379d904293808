-- ===== src/Mir/Tests.antt =====
-- The theorems on the peephole pass of src/backend/x86_mir.c at concrete inputs.

use scorivm.Base.{ℕ, ◌≡◌, ◌≢◌, some, true, false, List, [], ◌∷◌, arith}
use scorivm.Mir.Peephole.Branch.{Flags, Machine}
use scorivm.Mir.Peephole.Clean.{AreClean, mir_peephole_optimize-AreClean}
use scorivm.Mir.Peephole.{mir_peephole_optimize}
use scorivm.Mir.Build.{get_phys_reg, get_phys_reg-injective}
use scorivm.Mir.{
  x86_reg_rax, x86_reg_rcx, x86_reg_rdx, x86_reg_rsp, x86_reg_rbp, op_reg, op_imm, op_block,
  X86Operand, X86Opcode, x86_inst_mov, x86_inst_movzx, x86_inst_add, x86_inst_test, x86_inst_jcc,
  x86_inst_setcc, X86Condition, x86_cond_e, x86_cond_l, x86_cond_ge, x86_cond_none, X86Inst,
  X86Function,
}

abbrev inst : X86Opcode → X86Condition → List X86Operand → X86Inst
inst opcode cond ops = record { opcode = opcode; cond = cond; ops = ops }

abbrev rax : ℕ → X86Operand
rax size = record { size = size; value = op_reg 0 }

abbrev set_less : X86Inst
set_less = inst x86_inst_setcc x86_cond_l (rax 1 ∷ [])

abbrev jump_if_zero : X86Inst
jump_if_zero = inst x86_inst_jcc x86_cond_e (record { size = 0; value = op_block 4 } ∷ [])

abbrev widen : X86Inst
widen = inst x86_inst_movzx x86_cond_none (rax 8 ∷ rax 1 ∷ [])

abbrev test_it : X86Inst
test_it = inst x86_inst_test x86_cond_none (rax 8 ∷ rax 8 ∷ [])

abbrev jump_if_not_less : X86Inst
jump_if_not_less = inst x86_inst_jcc x86_cond_ge (record { size = 0; value = op_block 4 } ∷ [])

abbrev flags : Flags
flags = record { zero_flag = false; sign_flag = true; overflow_flag = false; carry_flag = false }

abbrev machine : Machine
machine = record { regs = λ r. 1000; flags = flags }

get_phys_reg-injective_example :
    (get_phys_reg (some 7) ≡ get_phys_reg (some 3) → ◌≡◌ {A = ℕ} 7 3)
    × (get_phys_reg (some 7) ≢ x86_reg_rax)
    × (get_phys_reg (some 7) ≢ x86_reg_rcx)
    × (get_phys_reg (some 7) ≢ x86_reg_rdx)
    × (get_phys_reg (some 7) ≢ x86_reg_rsp)
    × (get_phys_reg (some 7) ≢ x86_reg_rbp)
get_phys_reg-injective_example = get_phys_reg-injective 7 3 (omega arith) (omega arith)

-- A copy onto itself goes, and so does an addition of 0.
abbrev example_func : X86Function
example_func = record {
  name = [];
  blocks =
      record {
        address = 1;
        id = 1;
        insts =
            inst x86_inst_mov x86_cond_none (rax 8 ∷ rax 8 ∷ [])
            ∷ inst x86_inst_add x86_cond_none (rax 8 ∷ record { size = 8; value = op_imm 0 } ∷ [])
            ∷ set_less
            ∷ widen
            ∷ test_it
            ∷ jump_if_zero
            ∷ [];
      }
      ∷ [];
}

mir_peephole_optimize-AreClean_example : AreClean (mir_peephole_optimize example_func).blocks
mir_peephole_optimize-AreClean_example = mir_peephole_optimize-AreClean example_func
