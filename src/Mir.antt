-- ===== src/Mir.antt =====
-- Machine instructions: src/backend/x86_mir.h. Registers are numbered as in the enumeration; an
-- immediate is its 64-bit pattern, a displacement its 32-bit pattern. A pointer to a block is the
-- block's `address`, which no other block has; its `id` may be that of another block. `global_id` and
-- `name`, which this code does not read, are left out. A C string is its bytes.
pub mod Peephole
pub mod Build
mod Tests
use scorivm.Base.Lists.{length, get_elem?}
use scorivm.Base.Logic.{Bytes}
use scorivm.Base.{ℕ, ◌%◌, ◌^◌, Option, none, some, List}

abbrev pub x86_reg_rax : ℕ
x86_reg_rax = 0

abbrev pub x86_reg_rcx : ℕ
x86_reg_rcx = 1

abbrev pub x86_reg_rdx : ℕ
x86_reg_rdx = 2

abbrev pub x86_reg_rbx : ℕ
x86_reg_rbx = 3

abbrev pub x86_reg_rsp : ℕ
x86_reg_rsp = 4

abbrev pub x86_reg_rbp : ℕ
x86_reg_rbp = 5

abbrev pub x86_reg_rsi : ℕ
x86_reg_rsi = 6

abbrev pub x86_reg_rdi : ℕ
x86_reg_rdi = 7

abbrev pub x86_reg_r8 : ℕ
x86_reg_r8 = 8

abbrev pub x86_reg_r9 : ℕ
x86_reg_r9 = 9

abbrev pub x86_reg_r10 : ℕ
x86_reg_r10 = 10

abbrev pub x86_reg_r11 : ℕ
x86_reg_r11 = 11

abbrev pub x86_reg_r12 : ℕ
x86_reg_r12 = 12

abbrev pub x86_reg_r13 : ℕ
x86_reg_r13 = 13

abbrev pub x86_reg_r14 : ℕ
x86_reg_r14 = 14

abbrev pub x86_reg_r15 : ℕ
x86_reg_r15 = 15

abbrev pub x86_reg_xmm0 : ℕ
x86_reg_xmm0 = 16

abbrev pub x86_reg_xmm1 : ℕ
x86_reg_xmm1 = 17

abbrev pub x86_reg_xmm2 : ℕ
x86_reg_xmm2 = 18

abbrev pub x86_reg_xmm3 : ℕ
x86_reg_xmm3 = 19

abbrev pub x86_reg_xmm4 : ℕ
x86_reg_xmm4 = 20

abbrev pub x86_reg_xmm5 : ℕ
x86_reg_xmm5 = 21

abbrev pub x86_reg_xmm6 : ℕ
x86_reg_xmm6 = 22

abbrev pub x86_reg_xmm7 : ℕ
x86_reg_xmm7 = 23

-- `X86OperandKind` with the member of the union that it selects.
pub data X86Value : Type 0 where
  op_none : X86Value
  op_reg op_imm op_block : ℕ → X86Value
  mem_base_disp : (base disp : ℕ) → X86Value
  mem_sib : (base index scale disp : ℕ) → X86Value
  mem_rip op_label op_string : Bytes → X86Value

-- `as.reg`, which in an operand of another kind is what overlaps with it in the union; the bits of a
-- pointer are taken as 0.
abbrev pub reg_of : X86Value → ℕ
reg_of (op_reg r) = r
reg_of (op_imm i) = i % 2 ^ 32
reg_of (mem_base_disp base disp) = base
reg_of (mem_sib base index scale disp) = base
reg_of _ = 0

pub record X86Operand : Type 0 where
  pub size : ℕ
  pub value : X86Value

pub data X86Opcode : Type 0 where
  x86_inst_mov x86_inst_movsx x86_inst_movzx x86_inst_lea x86_inst_add x86_inst_sub : X86Opcode
  x86_inst_imul x86_inst_idiv x86_inst_div x86_inst_and x86_inst_or x86_inst_xor : X86Opcode
  x86_inst_shl x86_inst_shr x86_inst_sar x86_inst_neg x86_inst_not x86_inst_inc : X86Opcode
  x86_inst_dec x86_inst_cmp x86_inst_test x86_inst_jmp x86_inst_jcc x86_inst_call : X86Opcode
  x86_inst_ret x86_inst_push x86_inst_pop x86_inst_cqo x86_inst_cdq x86_inst_xchg : X86Opcode
  x86_inst_setcc x86_inst_cmovcc x86_inst_movd x86_inst_movq x86_inst_movss : X86Opcode
  x86_inst_movsd x86_inst_cvtsi2ss x86_inst_cvtsi2sd x86_inst_cvttss2si : X86Opcode
  x86_inst_cvttsd2si x86_inst_cvtss2sd x86_inst_cvtsd2ss x86_inst_addss x86_inst_addsd : X86Opcode
  x86_inst_subss x86_inst_subsd x86_inst_mulss x86_inst_mulsd x86_inst_divss : X86Opcode
  x86_inst_divsd x86_inst_ucomiss x86_inst_ucomisd x86_inst_rep_movsb x86_inst_cld : X86Opcode
  x86_inst_ud2 : X86Opcode

pub data X86Condition : Type 0 where
  x86_cond_e x86_cond_ne x86_cond_l x86_cond_le x86_cond_g x86_cond_ge x86_cond_b : X86Condition
  x86_cond_be x86_cond_a x86_cond_ae x86_cond_none : X86Condition

-- `num_ops` is the length of `ops`.
pub record X86Inst : Type 0 where
  pub opcode : X86Opcode
  pub cond : X86Condition
  pub ops : List X86Operand

-- Operands that an instruction does not have are zero, which is `X86_OP_NONE`.
abbrev pub op_at : X86Inst → ℕ → X86Operand
op_at inst i = elim (get_elem? inst.ops i) [
  | some o ↦ o
  | none ↦ record { size = 0; value = op_none }
]

pub record X86Block : Type 0 where
  pub address : ℕ
  pub id : ℕ
  pub insts : List X86Inst

pub record X86Function : Type 0 where
  pub name : Bytes
  pub blocks : List X86Block
