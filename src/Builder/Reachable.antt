-- ===== src/Builder/Reachable.antt =====
-- The states that the calls of src/ir/ir_builder.c lead to, and what holds in all of them.
pub mod Preserved
use scorivm.Base.Logic.{Bytes, ◌==◌, if-elim}
use scorivm.Base.{
  ℕ, zero, suc, ◌+◌, ◌≡◌, refl, ap, ◌∙◌, Bool, true, false, Option, none, some, List, [], ◌∷◌, ◌++◌,
  arith,
}
use scorivm.Builder.Control.{
  ir_build_jmp, ir_build_br, ir_build_switch, ir_build_ret, ir_build_trap, ir_build_select,
  block_value, build_br_open, build_br_on, build_switch_inst, build_switch_on, build_select_on,
  case_operands,
}
use scorivm.Builder.Fold.{
  Doubles, Folded, int_result, bool_result, fold_int, Simple, left_one, right_one, constant,
  algebraic, fold_float, build_op, build_folded, build_simple, build_values, ir_build_binary,
}
use scorivm.Builder.Fold.Cast.{CastType, build_cast_on, ir_build_cast}
use scorivm.Builder.Instructions.Open.{
  AreStraight, nil, ids, append_inst-AreStraight, append_inst-ids, append_inst_next, ids-append,
  append_block-AreStraight,
}
use scorivm.Builder.Instructions.{
  BasicTypes, append_inst, with_dest, create_vreg, ir_build_unary, ir_build_alloca, ir_build_store,
  ir_build_gep, ir_build_memcpy, ir_build_call, ir_get_param, ir_build_load, build_load_on,
  build_call_on,
}
use scorivm.Builder.{
  Value, IrBuilder, ir_builder_init, ir_builder_create_global, ir_builder_add_extern,
  ir_builder_create_function, ir_builder_create_block, ir_builder_set_insert_point,
  ir_builder_get_or_create_label_block, found_or_created,
}
use scorivm.Sir.{SirOpcode, SirValue, const_int, const_float, const_bool}
use scorivm.Types.{Ref}

module _ (types : BasicTypes) (doubles : Doubles) where
  -- One call.
  pub data Step (b : IrBuilder) : IrBuilder → Type 0 where
    create_global :
        (name : Bytes) (type : Ref) (size : ℕ) (init_data : Option Bytes)
        → Step b (ir_builder_create_global b name type size init_data)
    add_extern : (name : Bytes) (dll : Option Bytes) → Step b (ir_builder_add_extern b name dll)
    create_function : (name : Bytes) (type : Ref) → Step b (ir_builder_create_function b name type)
    create_block : (name : Bytes) → Step b (ir_builder_create_block b name).1
    label_block : (name : Bytes) → Step b (ir_builder_get_or_create_label_block b name).1
    set_insert_point : (id : Option ℕ) → Step b (ir_builder_set_insert_point b id)
    binary :
        (op : SirOpcode) (l r : Option Value)
        → Step b (ir_build_binary doubles types.bool_type b op l r).1
    unary : (op : SirOpcode) (v : Option Value) → Step b (ir_build_unary b op v).1
    alloca : (type : Ref) (size : ℕ) → Step b (ir_build_alloca types b type size).1
    load : (ptr : Option Value) → Step b (ir_build_load types b ptr).1
    store : (v ptr : Option Value) → Step b (ir_build_store types b v ptr)
    gep :
        (ptr index : Option Value) (size : ℕ) (type : Ref)
        → Step b (ir_build_gep types b ptr index size type).1
    memcpy : (to from : Option Value) (size : ℕ) → Step b (ir_build_memcpy types b to from size)
    cast : (v : Option Value) (type : CastType) → Step b (ir_build_cast doubles b v type).1
    call :
        (callee : Option Value) (args : List (Option Value)) (type : Ref)
        → Step b (ir_build_call types b callee args type).1
    jmp : (target : ℕ) → Step b (ir_build_jmp types b target)
    br : (cond : Option Value) (t f : ℕ) → Step b (ir_build_br types b cond t f)
    switch :
        (cond : Option Value) (target : ℕ) (cases : List (Value × ℕ))
        → Step b (ir_build_switch types b cond target cases)
    ret : (v : Option Value) → Step b (ir_build_ret b v)
    trap : Step b (ir_build_trap b)
    select : (cond t f : Option Value) → Step b (ir_build_select b cond t f).1
    param : (index : ℕ) (type : Ref) → Step b (ir_get_param types b index type).1

  pub data Reachable : IrBuilder → Type 0 where
    start : Reachable ir_builder_init
    next : {b c : IrBuilder} → Reachable b → Step b c → Reachable c

abbrev pub numbers : ℕ → ℕ → List ℕ
numbers first zero = []
numbers first (suc count) = first ∷ numbers (first + 1) count

-- No instruction stands behind a terminator, and the blocks are numbered from 1.
unfoldable pub Valid : IrBuilder → Type 0
Valid b =
    AreStraight b.blocks
    × (count : ℕ) × (ids b.blocks ≡ numbers 1 count)
    × (b.next_block_id ≡ 1 + count)
