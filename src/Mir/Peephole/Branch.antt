-- ===== src/Mir/Peephole/Branch.antt =====
-- The conditions of src/backend/x86_mir.c on the flags of the processor, and the jump that a comparison
-- with a boolean in between becomes.
use scorivm.Base.Logic.{leb, ◌==◌, if◌then◌else◌}
use scorivm.Base.{
  ℕ, ◌+◌, ◌-◌, ◌/◌, ◌%◌, ◌^◌, bit_and, ◌≡◌, ◌≢◌, refl, sym, ap, ◌∙◌, Bool, true, false, not, ◌&&◌,
  ◌||◌,
}
use scorivm.Mir.Peephole.{invert_cond}
use scorivm.Mir.{
  X86Condition, x86_cond_e, x86_cond_ne, x86_cond_l, x86_cond_le, x86_cond_g, x86_cond_ge,
  x86_cond_b, x86_cond_be, x86_cond_a, x86_cond_ae, x86_cond_none, X86Inst, X86Operand, op_at,
  reg_of,
}

pub record Flags : Type 0 where
  pub zero_flag : Bool
  pub sign_flag : Bool
  pub overflow_flag : Bool
  pub carry_flag : Bool

abbrev pub signed_less : Flags → Bool
signed_less f = if f.sign_flag then not f.overflow_flag else f.overflow_flag

-- When the processor takes a condition to hold.
abbrev pub holds : X86Condition → Flags → Bool
holds x86_cond_e f = f.zero_flag
holds x86_cond_ne f = not f.zero_flag
holds x86_cond_l f = signed_less f
holds x86_cond_ge f = not (signed_less f)
holds x86_cond_le f = f.zero_flag || signed_less f
holds x86_cond_g f = not f.zero_flag && not (signed_less f)
holds x86_cond_b f = f.carry_flag
holds x86_cond_ae f = not f.carry_flag
holds x86_cond_be f = f.carry_flag || f.zero_flag
holds x86_cond_a f = not f.carry_flag && not f.zero_flag
holds x86_cond_none f = false

-- A processor with its registers of 64 bits.
pub record Machine : Type 0 where
  pub regs : ℕ → ℕ
  pub flags : Flags

abbrev pub put_reg : (ℕ → ℕ) → ℕ → ℕ → ℕ → ℕ
put_reg regs r v q = if q == r then v else regs q

-- The values of an operand of a size in bytes.
abbrev pub size_values : ℕ → ℕ
size_values n =
    if n == 1 then 2 ^ 8 else if n == 2 then 2 ^ 16 else if n == 4 then 2 ^ 32 else 2 ^ 64

-- An operand that is a register, as a number of its size.
abbrev pub read_reg : Machine → X86Operand → ℕ
read_reg s o = s.regs (reg_of o.value) % size_values o.size

abbrev pub bit_of : Bool → ℕ
bit_of b = if b then 1 else 0

-- `SETCC` on a register writes its lowest byte.
abbrev pub run_setcc : X86Inst → Machine → Machine
run_setcc inst s =
    let r = reg_of (op_at inst 0).value in
    record {
      regs = put_reg s.regs r (s.regs r - s.regs r % 2 ^ 8 + bit_of (holds inst.cond s.flags));
      flags = s.flags;
    }

-- `MOVZX` fills the first register with the second.
abbrev pub run_movzx : X86Inst → Machine → Machine
run_movzx inst s = record {
  regs = put_reg s.regs (reg_of (op_at inst 0).value) (read_reg s (op_at inst 1));
  flags = s.flags;
}

-- `TEST` sets the flags as its two registers have bits in common.
abbrev pub run_test : X86Inst → Machine → Machine
run_test inst s =
    let common = bit_and (read_reg s (op_at inst 0)) (read_reg s (op_at inst 1)) in
    record {
      regs = s.regs;
      flags = record {
        zero_flag = common == 0;
        sign_flag = leb (size_values (op_at inst 0).size / 2) common;
        overflow_flag = false;
        carry_flag = false;
      };
    }

either_not : (a b : Bool) → (not a && not b) ≡ not (a || b)
either_not true b = refl
either_not false b = refl

not-not : (a : Bool) → not (not a) ≡ a
not-not true = refl
not-not false = refl

pub invert_cond-holds :
    (c : X86Condition) (f : Flags) → c ≢ x86_cond_none → holds (invert_cond c) f ≡ not (holds c f)
unfolding invert_cond
invert_cond-holds x86_cond_e f h = refl
invert_cond-holds x86_cond_ne f h = sym (not-not f.zero_flag)
invert_cond-holds x86_cond_l f h = refl
invert_cond-holds x86_cond_ge f h = sym (not-not (signed_less f))
invert_cond-holds x86_cond_le f h = either_not f.zero_flag (signed_less f)
invert_cond-holds x86_cond_g f h =
    sym (ap not (either_not f.zero_flag (signed_less f)) ∙ not-not (f.zero_flag || signed_less f))
invert_cond-holds x86_cond_b f h = refl
invert_cond-holds x86_cond_ae f h = sym (not-not f.carry_flag)
invert_cond-holds x86_cond_be f h = either_not f.carry_flag f.zero_flag
invert_cond-holds x86_cond_a f h =
    sym (ap not (either_not f.carry_flag f.zero_flag) ∙ not-not (f.carry_flag || f.zero_flag))
invert_cond-holds x86_cond_none f h = absurd (h refl)
