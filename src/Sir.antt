-- ===== src/Sir.antt =====
-- Instructions of the intermediate form: src/ir/sir.h. A value that names a block holds its id, which
-- is all that is read of it; a block has the list of its instructions.
use scorivm.Base.Logic.{Bytes}
use scorivm.Base.{ℕ, Bool, Option, List}

pub data SirOpcode : Type 0 where
  sir_add sir_sub sir_mul sir_div sir_mod sir_fadd sir_fsub sir_fmul sir_fdiv : SirOpcode
  sir_and sir_or sir_xor sir_shl sir_shr : SirOpcode
  sir_icmp_eq sir_icmp_ne sir_icmp_lt sir_icmp_le sir_icmp_gt sir_icmp_ge : SirOpcode
  sir_fcmp_eq sir_fcmp_ne sir_fcmp_lt sir_fcmp_le sir_fcmp_gt sir_fcmp_ge : SirOpcode
  sir_alloca sir_load sir_store sir_gep sir_memcpy : SirOpcode
  sir_jmp sir_br sir_switch sir_call sir_ret sir_trap : SirOpcode
  sir_sys_alloc sir_sys_free sir_sys_write sir_sys_read sir_sys_exit : SirOpcode
  sir_cast sir_get_param sir_select : SirOpcode

-- `SirValueKind` with the member of the union that it selects; numbers by their bits.
pub data SirValue : Type 0 where
  vreg const_int const_float block : ℕ → SirValue
  const_bool : Bool → SirValue
  const_string global : Bytes → SirValue

-- A null operand is `none`.
pub record SirInst : Type 0 where
  pub opcode : SirOpcode
  pub dest : Option SirValue
  pub operands : List (Option SirValue)

pub record SirBlock : Type 0 where
  pub id : ℕ
  pub insts : List SirInst
