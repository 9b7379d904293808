-- ===== src/Mir/Peephole.antt =====
-- `mir_peephole_optimize` of src/backend/x86_mir.c. Unlinking an instruction is dropping it from the list
-- of its block. A register is read from an operand as in the union.
pub mod Branch
pub mod Clean
use scorivm.Base.Lists.{length, set}
use scorivm.Base.Logic.{◌==◌, if◌then◌else◌}
use scorivm.Base.{
  ℕ, zero, suc, ◌%◌, ◌^◌, Bool, true, false, ◌&&◌, ◌||◌, Option, none, some, List, [], ◌∷◌,
}
use scorivm.Mir.{
  X86Value, op_reg, op_imm, op_block, mem_base_disp, reg_of, X86Opcode, x86_inst_mov,
  x86_inst_movzx, x86_inst_lea, x86_inst_add, x86_inst_sub, x86_inst_imul, x86_inst_xor,
  x86_inst_test, x86_inst_jmp, x86_inst_jcc, x86_inst_setcc, X86Condition, x86_cond_e, x86_cond_ne,
  x86_cond_l, x86_cond_le, x86_cond_g, x86_cond_ge, x86_cond_b, x86_cond_be, x86_cond_a,
  x86_cond_ae, x86_cond_none, X86Inst, op_at, X86Block, X86Function,
}

unfoldable pub invert_cond : X86Condition → X86Condition
invert_cond x86_cond_e = x86_cond_ne
invert_cond x86_cond_ne = x86_cond_e
invert_cond x86_cond_l = x86_cond_ge
invert_cond x86_cond_le = x86_cond_g
invert_cond x86_cond_g = x86_cond_le
invert_cond x86_cond_ge = x86_cond_l
invert_cond x86_cond_b = x86_cond_ae
invert_cond x86_cond_be = x86_cond_a
invert_cond x86_cond_a = x86_cond_be
invert_cond x86_cond_ae = x86_cond_b
invert_cond x86_cond_none = x86_cond_none

abbrev pub first_reg : X86Inst → ℕ
first_reg inst = reg_of (op_at inst 0).value

abbrev pub same_regs : X86Value → X86Value → Bool
same_regs (op_reg r) (op_reg q) = r == q
same_regs _ _ = false

abbrev pub is_value : ℕ → X86Value → Bool
is_value i (op_imm j) = j == i
is_value i _ = false

abbrev pub is_next : Option ℕ → X86Value → Bool
is_next (some next) (op_block b) = next == b
is_next _ _ = false

-- `disp == 0` with the base.
abbrev pub bare_base : X86Value → Option ℕ
bare_base (mem_base_disp base disp) = if disp == 0 then some base else none
bare_base _ = none

-- What the tests in front of the fusion do: an instruction goes, or is written again.
abbrev pub with_op1 : X86Opcode → X86Inst → ℕ → X86Inst
with_op1 opcode inst r = record {
  opcode = opcode;
  cond = inst.cond;
  ops = set inst.ops 1 (record { size = (op_at inst 1).size; value = op_reg r });
}

abbrev pub simplify_lea : X86Inst → Option ℕ → Option X86Inst
simplify_lea inst none = some inst
simplify_lea inst (some base) =
    if first_reg inst == base then none else some (with_op1 x86_inst_mov inst base)

abbrev pub simplify_case : X86Opcode → Option ℕ → X86Inst → Option X86Inst
simplify_case x86_inst_mov next inst =
    if same_regs (op_at inst 0).value (op_at inst 1).value then none else some inst
simplify_case x86_inst_jmp next inst = if is_next next (op_at inst 0).value then none else some inst
simplify_case x86_inst_add next inst = if is_value 0 (op_at inst 1).value then none else some inst
simplify_case x86_inst_sub next inst = if is_value 0 (op_at inst 1).value then none else some inst
simplify_case x86_inst_imul next inst =
    if is_value 1 (op_at inst 1).value
    then none
    else if is_value 0 (op_at inst 1).value
    then some (with_op1 x86_inst_xor inst (first_reg inst))
    else some inst
simplify_case x86_inst_lea next inst = simplify_lea inst (bare_base (op_at inst 1).value)
simplify_case opcode next inst = some inst

unfoldable pub simplify_inst : Option ℕ → X86Inst → Option X86Inst
simplify_inst next inst = simplify_case inst.opcode next inst

abbrev pub is_setcc : X86Opcode → Bool
is_setcc x86_inst_setcc = true
is_setcc _ = false

abbrev pub is_movzx : X86Opcode → Bool
is_movzx x86_inst_movzx = true
is_movzx _ = false

abbrev pub is_test : X86Opcode → Bool
is_test x86_inst_test = true
is_test _ = false

abbrev pub is_jcc : X86Opcode → Bool
is_jcc x86_inst_jcc = true
is_jcc _ = false

-- The condition of the jump after the fusion with a `SETCC`.
abbrev pub fuse_cond : X86Condition → X86Condition → Option X86Condition
fuse_cond set_cond x86_cond_ne = some set_cond
fuse_cond set_cond x86_cond_e = some (invert_cond set_cond)
fuse_cond set_cond _ = none

abbrev pub with_cond : X86Inst → X86Condition → X86Inst
with_cond inst cond = record { opcode = inst.opcode; cond = cond; ops = inst.ops }

-- The four instructions follow on each other, the first three on one register.
abbrev pub matches : X86Inst → X86Inst → X86Inst → X86Inst → Bool
matches i1 i2 i3 i4 =
    is_setcc i1.opcode
    && (is_movzx i2.opcode
        && (first_reg i2 == first_reg i1
            && (is_test i3.opcode && (first_reg i3 == first_reg i1 && is_jcc i4.opcode))))

-- The jump that the four instructions become, and what is behind it.
unfoldable pub fuse : X86Inst → List X86Inst → Option (X86Inst × List X86Inst)
fuse i1 (i2 ∷ i3 ∷ i4 ∷ tail) =
    if matches i1 i2 i3 i4
    then elim (fuse_cond i1.cond i4.cond) [
      | some cond ↦ some (with_cond i4 cond, tail)
      | none ↦ none
    ]
    else none
fuse i1 _ = none

-- The walk over a block; `next` is the block behind it. Fuel is for the instructions that are left: the
-- walk goes on at the jump after a fusion.
unfoldable pub optimize_insts : ℕ → Option ℕ → List X86Inst → List X86Inst
optimize_insts zero next insts = insts
optimize_insts (suc fuel) next [] = []
optimize_insts (suc fuel) next (inst ∷ insts) = elim (simplify_inst next inst) [
  | none ↦ optimize_insts fuel next insts
  | some inst ↦ elim (fuse inst insts) [
    | some (jump, tail) ↦ optimize_insts fuel next (jump ∷ tail)
    | none ↦ inst ∷ optimize_insts fuel next insts
  ]
]

abbrev pub next_block : List X86Block → Option ℕ
next_block [] = none
next_block (b ∷ blocks) = some b.address

unfoldable pub optimize_blocks : List X86Block → List X86Block
optimize_blocks [] = []
optimize_blocks (b ∷ blocks) =
    record {
      address = b.address;
      id = b.id;
      insts = optimize_insts (length b.insts) (next_block blocks) b.insts;
    }
    ∷ optimize_blocks blocks

pub mir_peephole_optimize : X86Function → X86Function
mir_peephole_optimize func = record { name = func.name; blocks = optimize_blocks func.blocks }
