-- ===== src/Builder/Control.antt =====
-- Jumps, branches, `ret`, `trap` and `select` of src/ir/ir_builder.c.
pub mod Goes
use scorivm.Base.Logic.{◌==◌, if◌then◌else◌}
use scorivm.Base.{ℕ, Bool, true, false, Option, none, some, List, [], ◌∷◌, ◌++◌}
use scorivm.Builder.Instructions.{create_value, append_inst, with_dest, BasicTypes}
use scorivm.Builder.{Value, IrBuilder}
use scorivm.Sir.{
  sir_jmp, sir_br, sir_switch, sir_ret, sir_trap, sir_select, SirValue, const_int, const_bool,
  block,
}
use scorivm.Types.{Ref}

module _ (types : BasicTypes) where
  abbrev pub block_value : IrBuilder → ℕ → Value × IrBuilder
  block_value b target = create_value b types.unknown_type (block target)

  unfoldable pub ir_build_jmp : IrBuilder → ℕ → IrBuilder
  ir_build_jmp b target =
      let (v, b1) : Value × IrBuilder = block_value b target in
      append_inst b1 sir_jmp none (some v ∷ [])

  abbrev pub build_br_inst : IrBuilder → Value → ℕ → ℕ → IrBuilder
  build_br_inst b cond true_block false_block =
      let (t, b1) : Value × IrBuilder = block_value b true_block in
      let (f, b2) : Value × IrBuilder = block_value b1 false_block in
      append_inst b2 sir_br none (some cond ∷ some t ∷ some f ∷ [])

  abbrev pub build_br_open : IrBuilder → Value → ℕ → ℕ → IrBuilder
  build_br_open b cond true_block false_block =
      if true_block == false_block
      then ir_build_jmp b true_block
      else build_br_inst b cond true_block false_block

  unfoldable pub build_br_on : IrBuilder → Value → SirValue → ℕ → ℕ → IrBuilder
  build_br_on b cond (const_bool v) true_block false_block =
      ir_build_jmp b (if v then true_block else false_block)
  build_br_on b cond _ true_block false_block = build_br_open b cond true_block false_block

  unfoldable pub ir_build_br : IrBuilder → Option Value → ℕ → ℕ → IrBuilder
  ir_build_br b none true_block false_block = b
  ir_build_br b (some cond) true_block false_block =
      build_br_on b cond cond.content true_block false_block

  -- The values of the cases with their blocks.
  unfoldable pub find_case : ℕ → ℕ → List (Value × ℕ) → ℕ
  find_case n default_block [] = default_block
  find_case n default_block ((v, target) ∷ cases) = elim v.content [
    | const_int m ↦ if m == n then target else find_case n default_block cases
    | _ ↦ find_case n default_block cases
  ]

  unfoldable pub case_operands : List (Value × ℕ) → IrBuilder → List (Option Value) × IrBuilder
  case_operands [] b = ([], b)
  case_operands ((v, target) ∷ cases) b =
      let (t, b1) : Value × IrBuilder = block_value b target in
      let (rest, b2) : List (Option Value) × IrBuilder = case_operands cases b1 in
      (some v ∷ some t ∷ rest, b2)

  abbrev pub build_switch_inst : IrBuilder → Option Value → ℕ → List (Value × ℕ) → IrBuilder
  build_switch_inst b cond default_block cases =
      let (d, b1) : Value × IrBuilder = block_value b default_block in
      let (operands, b2) : List (Option Value) × IrBuilder = case_operands cases b1 in
      append_inst b2 sir_switch none (cond ∷ some d ∷ operands)

  unfoldable pub build_switch_on : IrBuilder → Value → SirValue → ℕ → List (Value × ℕ) → IrBuilder
  build_switch_on b cond (const_int n) default_block cases =
      ir_build_jmp b (find_case n default_block cases)
  build_switch_on b cond _ default_block cases = build_switch_inst b (some cond) default_block cases

  unfoldable pub ir_build_switch : IrBuilder → Option Value → ℕ → List (Value × ℕ) → IrBuilder
  ir_build_switch b none default_block cases = build_switch_inst b none default_block cases
  ir_build_switch b (some cond) default_block cases =
      build_switch_on b cond cond.content default_block cases

unfoldable pub ir_build_ret : IrBuilder → Option Value → IrBuilder
ir_build_ret b (some v) = append_inst b sir_ret none (some v ∷ [])
ir_build_ret b none = append_inst b sir_ret none []

unfoldable pub ir_build_trap : IrBuilder → IrBuilder
ir_build_trap b = append_inst b sir_trap none []

unfoldable pub build_select_on :
    IrBuilder → SirValue → Value → Value → Value → Option Value × IrBuilder
build_select_on b (const_bool v) cond true_val false_val =
    (some (if v then true_val else false_val), b)
build_select_on b _ cond true_val false_val =
    let (dest, b1) : Value × IrBuilder =
      with_dest b sir_select (some cond ∷ some true_val ∷ some false_val ∷ []) true_val.type in
    (some dest, b1)

unfoldable pub ir_build_select :
    IrBuilder → Option Value → Option Value → Option Value → Option Value × IrBuilder
ir_build_select b (some cond) (some true_val) (some false_val) =
    build_select_on b cond.content cond true_val false_val
ir_build_select b _ _ _ = (none, b)
