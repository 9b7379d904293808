-- ===== src/Builder/Instructions.antt =====
-- Values and instructions: `create_value`, `create_inst` and the calls of src/ir/ir_builder.c that append one
-- instruction.
pub mod Open
pub mod Forward
use scorivm.Base.Logic.{Bytes, ◌==◌, if◌then◌else◌}
use scorivm.Base.{ℕ, ◌+◌, Bool, true, false, Option, none, some, List, [], ◌∷◌, ◌++◌}
use scorivm.Builder.{Value, Inst, BasicBlock, IrBuilder, with_blocks, block_of}
use scorivm.Sir.{
  SirOpcode, sir_ret, sir_jmp, sir_br, sir_switch, sir_trap, sir_alloca, sir_store, sir_load,
  sir_gep, sir_memcpy, sir_call, sir_select, sir_get_param, SirValue, vreg, const_int, const_float,
  const_bool, const_string, block,
}
use scorivm.Types.{Ref}

-- A value at the next address.
abbrev pub create_value : IrBuilder → Ref → SirValue → Value × IrBuilder
create_value b type content = (
  record { address = b.next_address; type = type; content = content },
  record {
    contents = b.contents;
    current_func = b.current_func;
    current_block = b.current_block;
    blocks = b.blocks;
    next_vreg = b.next_vreg;
    next_block_id = b.next_block_id;
    next_address = b.next_address + 1;
  },
)

abbrev pub create_vreg : IrBuilder → Ref → Value × IrBuilder
create_vreg b type = (
  record { address = b.next_address; type = type; content = vreg b.next_vreg },
  record {
    contents = b.contents;
    current_func = b.current_func;
    current_block = b.current_block;
    blocks = b.blocks;
    next_vreg = b.next_vreg + 1;
    next_block_id = b.next_block_id;
    next_address = b.next_address + 1;
  },
)

abbrev pub ir_const_int : IrBuilder → Ref → ℕ → Value × IrBuilder
ir_const_int b type n = create_value b type (const_int n)

abbrev pub ir_const_float : IrBuilder → Ref → ℕ → Value × IrBuilder
ir_const_float b type bits = create_value b type (const_float bits)

abbrev pub is_terminator : SirOpcode → Bool
is_terminator sir_ret = true
is_terminator sir_jmp = true
is_terminator sir_br = true
is_terminator sir_switch = true
is_terminator sir_trap = true
is_terminator _ = false

-- The last instruction of a block closes it.
unfoldable pub is_closed : List Inst → Bool
is_closed [] = false
is_closed (inst ∷ []) = is_terminator inst.opcode
is_closed (inst ∷ next ∷ insts) = is_closed (next ∷ insts)

unfoldable pub push_inst : List Inst → Inst → List Inst
push_inst insts inst = if is_closed insts then insts else insts ++ (inst ∷ [])

unfoldable pub push_to : List BasicBlock → ℕ → Inst → List BasicBlock
push_to [] id inst = []
push_to (x ∷ blocks) id inst =
    if x.id == id
    then record { id = x.id; name = x.name; insts = push_inst x.insts inst } ∷ blocks
    else x ∷ push_to blocks id inst

-- `create_inst` together with the operands and the result that are filled in behind the call: behind a
-- terminator the instruction is dropped.
abbrev pub append_inst : IrBuilder → SirOpcode → Option Value → List (Option Value) → IrBuilder
append_inst b opcode dest operands = elim b.current_block [
  | none ↦ b
  | some id ↦
      with_blocks b
        (push_to b.blocks id (record { opcode = opcode; dest = dest; operands = operands }))
]

-- An instruction with a result of its own.
abbrev pub with_dest : IrBuilder → SirOpcode → List (Option Value) → Ref → Value × IrBuilder
with_dest b opcode operands type =
    let (dest, b1) : Value × IrBuilder = create_vreg b type in
    (dest, append_inst b1 opcode (some dest) operands)

unfoldable pub ir_build_unary : IrBuilder → SirOpcode → Option Value → Option Value × IrBuilder
ir_build_unary b opcode none = (none, b)
ir_build_unary b opcode (some v) =
    let (dest, b1) : Value × IrBuilder = with_dest b opcode (some v ∷ []) v.type in (some dest, b1)

-- The types that are built in, and what `type_get_via` gives.
pub record BasicTypes : Type 0 where
  pub int32_type : Ref
  pub bool_type : Ref
  pub unknown_type : Ref
  pub via_of : Ref → Ref
  pub inner_of : Ref → Option Ref
  pub is_void : Ref → Bool

module _ (types : BasicTypes) where
  unfoldable pub ir_build_alloca : IrBuilder → Ref → ℕ → Value × IrBuilder
  ir_build_alloca b type size =
      let (n, b1) : Value × IrBuilder = ir_const_int b types.int32_type size in
      with_dest b1 sir_alloca (some n ∷ []) (types.via_of type)

  unfoldable pub ir_build_store : IrBuilder → Option Value → Option Value → IrBuilder
  ir_build_store b (some v) (some ptr) = append_inst b sir_store none (some v ∷ some ptr ∷ [])
  ir_build_store b _ _ = b

  unfoldable pub ir_build_gep :
      IrBuilder → Option Value → Option Value → ℕ → Ref → Option Value × IrBuilder
  ir_build_gep b (some ptr) (some index) element_size type =
      let (n, b1) : Value × IrBuilder = ir_const_int b types.int32_type element_size in
      let (dest, b2) : Value × IrBuilder =
        with_dest b1 sir_gep (some ptr ∷ some index ∷ some n ∷ []) type in
      (some dest, b2)
  ir_build_gep b _ _ element_size type = (none, b)

  unfoldable pub ir_build_memcpy : IrBuilder → Option Value → Option Value → ℕ → IrBuilder
  ir_build_memcpy b (some to) (some from) size =
      let (n, b1) : Value × IrBuilder = ir_const_int b types.int32_type size in
      append_inst b1 sir_memcpy none (some to ∷ some from ∷ some n ∷ [])
  ir_build_memcpy b _ _ size = b

  -- A call without a type, or of the type of nothing, has no result.
  unfoldable pub build_call_on :
      IrBuilder → Bool → List (Option Value) → Ref → Option Value × IrBuilder
  build_call_on b true operands type = (none, append_inst b sir_call none operands)
  build_call_on b false operands type =
      let (dest, b1) : Value × IrBuilder = with_dest b sir_call operands type in (some dest, b1)

  unfoldable pub ir_build_call :
      IrBuilder → Option Value → List (Option Value) → Ref → Option Value × IrBuilder
  ir_build_call b none args type = (none, b)
  ir_build_call b (some callee) args type =
      build_call_on b (types.is_void type) (some callee ∷ args) type

  unfoldable pub ir_get_param : IrBuilder → ℕ → Ref → Value × IrBuilder
  ir_get_param b index type =
      let (n, b1) : Value × IrBuilder = ir_const_int b types.int32_type index in
      with_dest b1 sir_get_param (some n ∷ []) type

abbrev pub is_store : SirOpcode → Bool
is_store sir_store = true
is_store _ = false

abbrev pub is_barrier : SirOpcode → Bool
is_barrier sir_call = true
is_barrier sir_memcpy = true
is_barrier _ = false

-- The value of a store through a pointer.
abbrev pub stored_value : List (Option Value) → Value → Option (Option Value)
stored_value (v ∷ some q ∷ rest) ptr = if q.address == ptr.address then some v else none
stored_value _ ptr = none

-- What a backwards scan over a block finds. The list starts with the last instruction.
unfoldable pub forward_store : List Inst → Value → Option (Option Value)
forward_store [] ptr = none
forward_store (inst ∷ earlier) ptr =
    if is_store inst.opcode
    then stored_value inst.operands ptr
    else if is_barrier inst.opcode
    then none
    else forward_store earlier ptr

abbrev pub backwards : List Inst → List Inst → List Inst
backwards [] done = done
backwards (inst ∷ insts) done = backwards insts (inst ∷ done)

abbrev pub current_insts : IrBuilder → List Inst
current_insts b = elim b.current_block [
  | none ↦ []
  | some id ↦ elim (block_of b.blocks id) [ none ↦ [] | some x ↦ x.insts ]
]

unfoldable pub build_load_on :
    BasicTypes → IrBuilder → Value → Option (Option Value) → Option Value × IrBuilder
build_load_on types b ptr (some v) = (v, b)
build_load_on types b ptr none =
    let type : Ref = elim (types.inner_of ptr.type) [ none ↦ types.unknown_type | some t ↦ t ] in
    let (dest, b1) : Value × IrBuilder = with_dest b sir_load (some ptr ∷ []) type in
    (some dest, b1)

unfoldable pub ir_build_load : BasicTypes → IrBuilder → Option Value → Option Value × IrBuilder
ir_build_load types b none = (none, b)
ir_build_load types b (some ptr) =
    build_load_on types b ptr (forward_store (backwards (current_insts b) []) ptr)
