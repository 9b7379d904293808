-- ===== src/Mir/Build.antt =====
-- How src/backend/x86_mir.c appends instructions to a block, and the register of a colour.
use scorivm.Base.Lists.{get_elem?}
use scorivm.Base.Logic.{ltb, ◌==◌, if◌then◌else◌}
use scorivm.Base.{
  ℕ, zero, suc, ◌-◌, ◌<◌, ◌≡◌, ◌≢◌, refl, sym, ap, ◌∙◌, Option, none, some, List, [], ◌∷◌, ◌++◌,
  arith,
}
use scorivm.Mir.{
  x86_reg_rax, x86_reg_rcx, x86_reg_rdx, x86_reg_rbx, x86_reg_rsp, x86_reg_rbp, x86_reg_rsi,
  x86_reg_rdi, x86_reg_r8, x86_reg_r9, x86_reg_r10, x86_reg_r11, x86_reg_r12, x86_reg_r13,
  x86_reg_r14, x86_reg_r15, X86Value, X86Operand, X86Opcode, x86_cond_none, X86Block,
}

abbrev pub operand : ℕ → X86Value → X86Operand
operand size value = record { size = size; value = value }

abbrev pub append_op : X86Block → X86Opcode → List X86Operand → X86Block
append_op block opcode ops = record {
  address = block.address;
  id = block.id;
  insts = block.insts ++ (record { opcode = opcode; cond = x86_cond_none; ops = ops } ∷ []);
}

pub emit_inst0 : X86Block → X86Opcode → X86Block
emit_inst0 block opcode = append_op block opcode []

pub emit_inst1 : X86Block → X86Opcode → X86Operand → X86Block
emit_inst1 block opcode op1 = append_op block opcode (op1 ∷ [])

pub emit_inst2 : X86Block → X86Opcode → X86Operand → X86Operand → X86Block
emit_inst2 block opcode op1 op2 = append_op block opcode (op1 ∷ op2 ∷ [])

abbrev pub phys_regs : List ℕ
phys_regs =
    x86_reg_rbx ∷ x86_reg_rsi ∷ x86_reg_rdi ∷ x86_reg_r12 ∷ x86_reg_r13 ∷ x86_reg_r14 ∷ x86_reg_r15
    ∷ x86_reg_r8 ∷ x86_reg_r9 ∷ x86_reg_r10 ∷ x86_reg_r11 ∷ []

-- A colour that is none of the eleven, or none at all, stands for `rax`.
abbrev pub reg_or_rax : Option ℕ → ℕ
reg_or_rax none = x86_reg_rax
reg_or_rax (some r) = r

unfoldable pub get_phys_reg : Option ℕ → ℕ
get_phys_reg none = x86_reg_rax
get_phys_reg (some color) = reg_or_rax (get_elem? phys_regs color)

-- The place of a register among the eleven.
abbrev color_of : ℕ → ℕ
color_of r =
    if r == 3
    then 0
    else if r == 6
    then 1
    else if r == 7
    then 2
    else if ltb r 12
    then r - 1
    else r - 9

get_phys_reg-color_of :
    (color : ℕ)
    → color < 11
    → (color_of (get_phys_reg (some color)) ≡ color)
      × (get_phys_reg (some color) ≢ x86_reg_rax)
      × (get_phys_reg (some color) ≢ x86_reg_rcx)
      × (get_phys_reg (some color) ≢ x86_reg_rdx)
      × (get_phys_reg (some color) ≢ x86_reg_rsp)
      × (get_phys_reg (some color) ≢ x86_reg_rbp)
unfolding get_phys_reg
get_phys_reg-color_of zero h = (refl, λ e. cc, λ e. cc, λ e. cc, λ e. cc, λ e. cc)
get_phys_reg-color_of (suc zero) h = (refl, λ e. cc, λ e. cc, λ e. cc, λ e. cc, λ e. cc)
get_phys_reg-color_of (suc (suc zero)) h = (refl, λ e. cc, λ e. cc, λ e. cc, λ e. cc, λ e. cc)
get_phys_reg-color_of (suc (suc (suc zero))) h = (refl, λ e. cc, λ e. cc, λ e. cc, λ e. cc, λ e. cc)
get_phys_reg-color_of (suc (suc (suc (suc zero)))) h =
    (refl, λ e. cc, λ e. cc, λ e. cc, λ e. cc, λ e. cc)
get_phys_reg-color_of (suc (suc (suc (suc (suc zero))))) h =
    (refl, λ e. cc, λ e. cc, λ e. cc, λ e. cc, λ e. cc)
get_phys_reg-color_of (suc (suc (suc (suc (suc (suc zero)))))) h =
    (refl, λ e. cc, λ e. cc, λ e. cc, λ e. cc, λ e. cc)
get_phys_reg-color_of (suc (suc (suc (suc (suc (suc (suc zero))))))) h =
    (refl, λ e. cc, λ e. cc, λ e. cc, λ e. cc, λ e. cc)
get_phys_reg-color_of (suc (suc (suc (suc (suc (suc (suc (suc zero)))))))) h =
    (refl, λ e. cc, λ e. cc, λ e. cc, λ e. cc, λ e. cc)
get_phys_reg-color_of (suc (suc (suc (suc (suc (suc (suc (suc (suc zero))))))))) h =
    (refl, λ e. cc, λ e. cc, λ e. cc, λ e. cc, λ e. cc)
get_phys_reg-color_of (suc (suc (suc (suc (suc (suc (suc (suc (suc (suc zero)))))))))) h =
    (refl, λ e. cc, λ e. cc, λ e. cc, λ e. cc, λ e. cc)
get_phys_reg-color_of (suc (suc (suc (suc (suc (suc (suc (suc (suc (suc (suc n))))))))))) h =
    absurd (omega arith)

-- Colours below 11 that get the same register are the same, and none gets a register that the code around
-- an instruction uses for itself: `rax`, `rcx`, `rdx`, `rsp` and `rbp`.
pub get_phys_reg-injective :
    (c d : ℕ)
    → c < 11
    → d < 11
    → (get_phys_reg (some c) ≡ get_phys_reg (some d) → c ≡ d)
      × (get_phys_reg (some c) ≢ x86_reg_rax)
      × (get_phys_reg (some c) ≢ x86_reg_rcx)
      × (get_phys_reg (some c) ≢ x86_reg_rdx)
      × (get_phys_reg (some c) ≢ x86_reg_rsp)
      × (get_phys_reg (some c) ≢ x86_reg_rbp)
get_phys_reg-injective c d h k =
    let (c_again, rax, rcx, rdx, rsp, rbp) = get_phys_reg-color_of c h in
    let d_again = (get_phys_reg-color_of d k).0 in
    (λ e. sym c_again ∙ (ap color_of e ∙ d_again), rax, rcx, rdx, rsp, rbp)
