-- ===== src/Encode/Instruction.antt =====
-- `emit_x86_inst` of src/backend/pe_linker.c. A register is read from an operand as in the union.
pub mod Scalar
use scorivm.Base.Lists.{length}
use scorivm.Base.Logic.{Bytes, ltb, leb, ◌==◌, if◌then◌else◌}
use scorivm.Base.{
  ℕ, ◌+◌, ◌-◌, ◌*◌, ◌/◌, ◌%◌, ◌^◌, Bool, true, false, ◌&&◌, ◌||◌, List, [], ◌∷◌, ◌++◌,
}
use scorivm.Encode.Memory.{LinkCtx, Emitted, get_mem_rex}
use scorivm.Encode.Write.{Write, literal, mem_op, rel_to, call_to}
use scorivm.Encode.{emit8, emit32, bit, emit_modrm, emit_mov_reg_imm32, emit_mov_reg_imm64, high}
use scorivm.Mir.{
  X86Value, op_none, op_reg, op_imm, op_block, mem_rip, op_label, reg_of, X86Operand, X86Opcode,
  x86_inst_add, x86_inst_sub, x86_inst_and, x86_inst_or, x86_inst_xor, x86_inst_cmp, x86_inst_test,
  X86Condition, x86_cond_e, x86_cond_ne, x86_cond_l, x86_cond_le, x86_cond_g, x86_cond_ge,
  x86_cond_b, x86_cond_be, x86_cond_a, x86_cond_ae, x86_cond_none, X86Inst, op_at,
}

abbrev pub is_reg : X86Value → Bool
is_reg (op_reg r) = true
is_reg _ = false

-- `kind >= X86_OP_MEM_BASE_DISP`.
abbrev pub is_mem : X86Value → Bool
is_mem op_none = false
is_mem (op_reg r) = false
is_mem (op_imm i) = false
is_mem _ = true

-- A 64-bit pattern from -128 to 127.
abbrev pub is_imm8 : ℕ → Bool
is_imm8 i = ltb i 128 || leb (2 ^ 64 - 128) i

abbrev pub emit16 : ℕ → Bytes
emit16 v = emit8 v ++ emit8 (v / 2 ^ 8)

-- An immediate of one, two or four bytes.
abbrev pub emit_imm : ℕ → ℕ → Bytes
emit_imm size i = if size == 1 then emit8 i else if size == 2 then emit16 i else emit32 i

-- A register that is a byte of its own only behind a prefix.
abbrev pub needs_rex : X86Operand → Bool
needs_rex o = is_reg o.value && (o.size == 1 && (leb 4 (reg_of o.value) && leb (reg_of o.value) 7))

abbrev pub force_rex : X86Inst → Bool
force_rex inst =
    (ltb 0 (length inst.ops) && needs_rex (op_at inst 0))
    || (ltb 1 (length inst.ops) && needs_rex (op_at inst 1))

-- `w`.
abbrev pub is_wide : X86Inst → Bool
is_wide inst = ltb 0 (length inst.ops) && leb 8 (op_at inst 0).size

-- The macro `emit_rex`.
abbrev pub rex : Bool → Bool → Bool → Bool → Bool → Bytes
rex force w r x b =
    if w || r || x || b || force then emit8 (64 + bit w 8 + bit r 4 + bit x 2 + bit b 1) else []

abbrev pub byte_or : ℕ → ℕ → ℕ → ℕ
byte_or size narrow wide = if size == 1 then narrow else wide

-- What is added to the first opcode of a family.
abbrev pub cond_code : X86Condition → ℕ
cond_code x86_cond_b = 2
cond_code x86_cond_ae = 3
cond_code x86_cond_e = 4
cond_code x86_cond_ne = 5
cond_code x86_cond_be = 6
cond_code x86_cond_a = 7
cond_code x86_cond_l = 12
cond_code x86_cond_ge = 13
cond_code x86_cond_le = 14
cond_code x86_cond_g = 15
cond_code x86_cond_none = 0

-- A prefix, an opcode and a register with an address.
abbrev pub with_mem : Bool → Bool → ℕ → X86Value → Bytes → List Write
with_mem force w reg m opcode =
    let (x, b) : Bool × Bool = get_mem_rex m in
    literal (rex force w (high reg) x b ++ opcode) ∷ mem_op reg m ∷ []

abbrev pub two_regs : Bool → Bool → ℕ → ℕ → Bytes → List Write
two_regs force w reg rm opcode =
    literal (rex force w (high reg) false (high rm) ++ (opcode ++ emit_modrm 3 (reg % 8) (rm % 8)))
    ∷ []

-- An extended opcode on a register.
abbrev pub one_reg : Bool → Bool → ℕ → ℕ → Bytes → Bytes → List Write
one_reg force w ext rm opcode imm =
    literal (rex force w false false (high rm) ++ (opcode ++ (emit_modrm 3 ext (rm % 8) ++ imm)))
    ∷ []

abbrev pub write_mov : Bool → Bool → ℕ → ℕ → X86Value → X86Value → List Write
write_mov f w s0 s1 (op_reg r) (op_imm i) =
    literal (
      if s0 == 1
      then rex f false false false (high r) ++ (emit8 (0xB0 + r % 8) ++ emit8 i)
      else if s0 == 2
      then rex f false false false (high r) ++ (emit8 (0xB8 + r % 8) ++ emit16 i)
      else if s0 == 4
      then emit_mov_reg_imm32 r (i % 2 ^ 32)
      else emit_mov_reg_imm64 r i)
    ∷ []
write_mov f w s0 s1 (op_reg r) (op_reg q) =
    if r == q
    then []
    else two_regs f (if s0 == 1 then false else w) q r (emit8 (byte_or s0 0x88 0x89))
write_mov f w s0 s1 (op_reg r) m =
    if is_mem m
    then with_mem f (if s0 == 1 then false else w) r m (emit8 (byte_or s0 0x8A 0x8B))
    else []
write_mov f w s0 s1 m (op_reg q) =
    if is_mem m
    then with_mem f (if s1 == 1 then false else w) q m (emit8 (byte_or s1 0x88 0x89))
    else []
write_mov f w s0 s1 m (op_imm i) =
    if is_mem m
    then with_mem f w 0 m (emit8 (byte_or s0 0xC6 0xC7)) ++ (literal (emit_imm s0 i) ∷ [])
    else []
write_mov f w s0 s1 _ _ = []

-- `MOVSX` and `MOVZX`.
abbrev pub write_extend : Bool → Bool → Bool → ℕ → ℕ → X86Value → List Write
write_extend signed f w r s1 v =
    let double = signed && s1 == 4 in
    let opcode =
      if double
      then emit8 0x63
      else emit8 0x0F ++ emit8 (if signed then byte_or s1 0xBE 0xBF else byte_or s1 0xB6 0xB7) in
    let wide = if double then true else w in
    if is_reg v then two_regs f wide r (reg_of v) opcode else with_mem f wide r v opcode

-- The opcode of a family and what extends it.
abbrev pub binary_code : X86Opcode → ℕ × ℕ
binary_code x86_inst_add = (0x01, 0)
binary_code x86_inst_sub = (0x29, 5)
binary_code x86_inst_and = (0x21, 4)
binary_code x86_inst_or = (0x09, 1)
binary_code x86_inst_xor = (0x31, 6)
binary_code x86_inst_cmp = (0x39, 7)
binary_code x86_inst_test = (0x85, 0)
binary_code _ = (0, 0)

abbrev pub is_test_opcode : X86Opcode → Bool
is_test_opcode x86_inst_test = true
is_test_opcode _ = false

abbrev pub write_binary : X86Opcode → Bool → Bool → ℕ → ℕ → X86Value → List Write
write_binary opc f w s0 r (op_reg q) =
    two_regs f w q r (emit8 (if s0 == 1 then (binary_code opc).0 - 1 else (binary_code opc).0))
write_binary opc f w s0 r (op_imm i) =
    let ext : ℕ = (binary_code opc).1 in
    if is_test_opcode opc
    then one_reg f w 0 r (emit8 (byte_or s0 0xF6 0xF7)) (emit_imm s0 i)
    else if s0 == 1
    then one_reg f w ext r (emit8 0x80) (emit8 i)
    else if is_imm8 i
    then one_reg f w ext r (emit8 0x83) (emit8 i)
    else one_reg f w ext r (emit8 0x81) (if s0 == 2 then emit16 i else emit32 i)
write_binary opc f w s0 r _ = []

abbrev pub write_imul : Bool → Bool → ℕ → ℕ → X86Value → List Write
write_imul f w s0 r (op_reg q) = two_regs f w r q (emit8 0x0F ++ emit8 0xAF)
write_imul f w s0 r (op_imm i) =
    let wide : Bytes = if s0 == 2 then emit16 i else emit32 i in
    literal (
      rex f w (high r) false (high r)
      ++ (emit8 (if is_imm8 i then 0x6B else 0x69)
          ++ (emit_modrm 3 (r % 8) (r % 8) ++ (if is_imm8 i then emit8 i else wide))))
    ∷ []
write_imul f w s0 r _ = []

abbrev pub write_shift : Bool → Bool → ℕ → ℕ → ℕ → ℕ → X86Value → List Write
write_shift f w count s0 ext r (op_imm i) =
    if count == 2
    then (if i == 1
        then one_reg f w ext r (emit8 (byte_or s0 0xD0 0xD1)) []
        else one_reg f w ext r (emit8 (byte_or s0 0xC0 0xC1)) (emit8 i))
    else one_reg f w ext r (emit8 (byte_or s0 0xD2 0xD3)) []
write_shift f w count s0 ext r _ = one_reg f w ext r (emit8 (byte_or s0 0xD2 0xD3)) []

-- What is not the address of a block is not followed.
abbrev pub write_jump : Bytes → X86Value → List Write
write_jump opcode (op_block b) = literal opcode ∷ rel_to b ∷ []
write_jump opcode _ = []

abbrev pub write_call : Bool → X86Value → List Write
write_call f (op_label name) = literal (emit8 0xE8) ∷ call_to name ∷ []
write_call f (op_reg r) = one_reg f true 2 r (emit8 0xFF) []
write_call f (mem_rip name) = literal (emit8 0xFF) ∷ mem_op 2 (mem_rip name) ∷ []
write_call f _ = []

abbrev pub write_xchg : Bool → Bool → ℕ → ℕ → List Write
write_xchg f w r q =
    if r == 0
    then literal (rex f w false false (high q) ++ emit8 (0x90 + q % 8)) ∷ []
    else if q == 0
    then literal (rex f w false false (high r) ++ emit8 (0x90 + r % 8)) ∷ []
    else two_regs f w q r (emit8 0x87)

abbrev pub write_push_pop : Bool → ℕ → ℕ → List Write
write_push_pop f opcode r =
    literal ((if high r then rex f false false false true else []) ++ emit8 (opcode + r % 8)) ∷ []
