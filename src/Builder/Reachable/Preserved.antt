-- ===== src/Builder/Reachable/Preserved.antt =====
-- Every call of src/ir/ir_builder.c keeps what holds in all states.
use scorivm.Base.Logic.{Bytes, ◌==◌, if-elim}
use scorivm.Base.{
  ℕ, zero, suc, ◌+◌, ◌≡◌, refl, ap, ◌∙◌, Bool, true, false, Option, none, some, List, [], ◌∷◌, ◌++◌,
  arith,
}
use scorivm.Builder.Control.{
  ir_build_jmp, ir_build_br, ir_build_switch, ir_build_ret, ir_build_trap, ir_build_select,
  block_value, build_br_open, build_br_on, build_switch_inst, build_switch_on, build_select_on,
  case_operands,
}
use scorivm.Builder.Fold.{
  Doubles, Folded, int_result, bool_result, fold_int, Simple, left_one, right_one, constant,
  algebraic, fold_float, build_op, build_folded, build_simple, build_values, ir_build_binary,
}
use scorivm.Builder.Fold.Cast.{CastType, build_cast_on, ir_build_cast}
use scorivm.Builder.Instructions.Open.{
  nil, ids, append_inst-AreStraight, append_inst-ids, append_inst_next, ids-append,
  append_block-AreStraight,
}
use scorivm.Builder.Instructions.{
  BasicTypes, append_inst, with_dest, create_vreg, ir_build_unary, ir_build_alloca, ir_build_store,
  ir_build_gep, ir_build_memcpy, ir_build_call, ir_get_param, ir_build_load, build_load_on,
  build_call_on,
}
use scorivm.Builder.{
  Value, IrBuilder, ir_builder_create_global, ir_builder_add_extern, ir_builder_create_function,
  ir_builder_create_block, ir_builder_get_or_create_label_block, found_or_created,
}
use scorivm.Sir.{SirOpcode, SirValue, const_int, const_float, const_bool}
use scorivm.Types.{Ref}
use scorivm.Builder.Reachable.{
  Step, Reachable, start, next, create_global, add_extern, create_function, create_block,
  label_block, set_insert_point, binary, unary, alloca, load, store, gep, memcpy, cast, call, jmp,
  br, switch, ret, trap, select, param, numbers, Valid,
}

numbers_snoc :
    (first count : ℕ) → numbers first count ++ ((first + count) ∷ []) ≡ numbers first (suc count)
numbers_snoc first zero = ap (λ n. n ∷ []) (omega arith)
numbers_snoc first (suc count) =
    let here : first + suc count ≡ first + 1 + count = omega arith in
    rw here (ap (λ l. first ∷ l) (numbers_snoc (first + 1) count))

append-Valid :
    (b : IrBuilder) (opcode : SirOpcode) (dest : Option Value) (operands : List (Option Value))
    → Valid b
    → Valid (append_inst b opcode dest operands)
unfolding Valid
append-Valid b opcode dest operands (straight, count, numbered, upto) = (
  append_inst-AreStraight b opcode dest operands straight,
  count,
  append_inst-ids b opcode dest operands ∙ numbered,
  append_inst_next b opcode dest operands ∙ upto,
)

create_block-Valid :
    (b : IrBuilder) (name : Bytes) → Valid b → Valid (ir_builder_create_block b name).1
unfolding Valid ir_builder_create_block
create_block-Valid b name (straight, count, numbered, upto) = (
  append_block-AreStraight b.blocks _ nil straight,
  suc count,
  ids-append b.blocks _ ∙ (rw (numbered, upto) (numbers_snoc 1 count)),
  ap (λ n. n + 1) upto ∙ omega arith,
)

label-Valid :
    (b : IrBuilder) (name : Bytes) (o : Option ℕ) → Valid b → Valid (found_or_created b name o).1
unfolding found_or_created
label-Valid b name none v = create_block-Valid b name v
label-Valid b name (some id) v = v

module _ (types : BasicTypes) (doubles : Doubles) where
  dest-Valid :
      (b : IrBuilder) (op : SirOpcode) (operands : List (Option Value)) (type : Ref)
      → Valid b
      → Valid (with_dest b op operands type).1
  unfolding Valid
  dest-Valid b op operands type v = append-Valid (create_vreg b type).1 op _ operands v

  folded-Valid :
      (b : IrBuilder) (make : ℕ → SirValue) (op : SirOpcode) (l r : Value) (o : Option Folded)
      → Valid b
      → Valid (build_folded doubles types.bool_type b make op l r o).1
  unfolding build_folded build_op Valid
  folded-Valid b make op l r none v = dest-Valid b op _ _ v
  folded-Valid b make op l r (some (int_result n)) v = v
  folded-Valid b make op l r (some (bool_result t)) v = v

  simple-Valid :
      (b : IrBuilder) (op : SirOpcode) (l r : Value) (o : Option Simple)
      → Valid b
      → Valid (build_simple doubles types.bool_type b op l r o).1
  unfolding build_simple build_op Valid
  simple-Valid b op l r none v = dest-Valid b op _ _ v
  simple-Valid b op l r (some left_one) v = v
  simple-Valid b op l r (some right_one) v = v
  simple-Valid b op l r (some (constant n)) v = v

  values-Valid :
      (b : IrBuilder) (op : SirOpcode) (l r : Value) (c d : SirValue)
      → Valid b
      → Valid (build_values doubles types.bool_type b op l r c d).1
  unfolding build_values
  values-Valid b op l r (const_int m) (const_int n) v =
      folded-Valid b const_int op l r (fold_int op m n) v
  values-Valid b op l r (const_float m) (const_float n) v =
      folded-Valid b const_float op l r (fold_float doubles types.bool_type op m n) v
  values-Valid b op l r _ _ v = simple-Valid b op l r (algebraic op l r) v

  case_operands-Valid :
      (cases : List (Value × ℕ)) (b : IrBuilder) → Valid b → Valid (case_operands types cases b).1
  unfolding case_operands Valid
  case_operands-Valid [] b v = v
  case_operands-Valid ((x, target) ∷ cases) b v =
      case_operands-Valid cases (block_value types b target).1 v

  jmp-Valid : (b : IrBuilder) (target : ℕ) → Valid b → Valid (ir_build_jmp types b target)
  unfolding ir_build_jmp Valid
  jmp-Valid b target v = append-Valid (block_value types b target).1 _ _ _ v

  br_open-Valid :
      (b : IrBuilder) (cond : Value) (t f : ℕ) → Valid b → Valid (build_br_open types b cond t f)
  unfolding Valid
  br_open-Valid b cond t f v =
      if-elim Valid (t == f) _ _ (jmp-Valid b t v)
        (append-Valid (block_value types (block_value types b t).1 f).1 _ _ _ v)

  br-Valid :
      (b : IrBuilder) (cond : Value) (c : SirValue) (t f : ℕ)
      → Valid b
      → Valid (build_br_on types b cond c t f)
  unfolding build_br_on
  br-Valid b cond (const_bool x) t f v = jmp-Valid b _ v
  br-Valid b cond _ t f v = br_open-Valid b cond t f v

  switch_inst-Valid :
      (b : IrBuilder) (cond : Option Value) (target : ℕ) (cases : List (Value × ℕ))
      → Valid b
      → Valid (build_switch_inst types b cond target cases)
  unfolding Valid
  switch_inst-Valid b cond target cases v =
      append-Valid _ _ _ _ (case_operands-Valid cases (block_value types b target).1 v)

  switch-Valid :
      (b : IrBuilder) (cond : Value) (c : SirValue) (target : ℕ) (cases : List (Value × ℕ))
      → Valid b
      → Valid (build_switch_on types b cond c target cases)
  unfolding build_switch_on
  switch-Valid b cond (const_int n) target cases v = jmp-Valid b _ v
  switch-Valid b cond _ target cases v = switch_inst-Valid b (some cond) target cases v

  load-Valid :
      (b : IrBuilder) (ptr : Value) (o : Option (Option Value))
      → Valid b
      → Valid (build_load_on types b ptr o).1
  unfolding build_load_on
  load-Valid b ptr none v = dest-Valid b _ _ _ v
  load-Valid b ptr (some x) v = v

  cast-Valid :
      (b : IrBuilder) (x : Value) (type : CastType) (o : Option SirValue)
      → Valid b
      → Valid (build_cast_on doubles b x type o).1
  unfolding build_cast_on Valid
  cast-Valid b x type none v = dest-Valid b _ _ _ v
  cast-Valid b x type (some c) v = v

  call-Valid :
      (b : IrBuilder) (void : Bool) (operands : List (Option Value)) (type : Ref)
      → Valid b
      → Valid (build_call_on types b void operands type).1
  unfolding build_call_on
  call-Valid b true operands type v = append-Valid b _ _ _ v
  call-Valid b false operands type v = dest-Valid b _ _ _ v

  select-Valid :
      (b : IrBuilder) (c : SirValue) (cond t f : Value)
      → Valid b
      → Valid (build_select_on b c cond t f).1
  unfolding build_select_on
  select-Valid b (const_bool x) cond t f v = v
  select-Valid b _ cond t f v = dest-Valid b _ _ _ v

  step-Valid : {b c : IrBuilder} → Valid b → Step types doubles b c → Valid c
  unfolding Valid ir_builder_create_global ir_builder_add_extern ir_builder_create_function
      ir_builder_get_or_create_label_block ir_build_binary ir_build_unary ir_build_alloca
      ir_build_store ir_build_gep ir_build_memcpy ir_build_cast ir_build_call ir_build_br
      ir_build_switch ir_build_ret ir_build_trap ir_build_select ir_get_param ir_build_load
  step-Valid v (create_global name type size init_data) = v
  step-Valid v (add_extern name dll) = v
  step-Valid v (create_function name type) = v
  step-Valid v (create_block name) = create_block-Valid _ name v
  step-Valid v (label_block name) = label-Valid _ _ _ v
  step-Valid v (set_insert_point id) = v
  step-Valid v (binary op (some l) (some r)) = values-Valid _ op l r l.content r.content v
  step-Valid v (binary op _ _) = v
  step-Valid v (unary op none) = v
  step-Valid v (unary op (some x)) = dest-Valid _ _ _ _ v
  step-Valid v (alloca type size) = dest-Valid _ _ _ _ v
  step-Valid v (load none) = v
  step-Valid v (load (some ptr)) = load-Valid _ ptr _ v
  step-Valid v (store (some x) (some ptr)) = append-Valid _ _ _ _ v
  step-Valid v (store _ _) = v
  step-Valid v (gep (some ptr) (some index) size type) = dest-Valid _ _ _ _ v
  step-Valid v (gep _ _ size type) = v
  step-Valid v (memcpy (some to) (some from) size) = append-Valid _ _ _ _ v
  step-Valid v (memcpy _ _ size) = v
  step-Valid v (cast none type) = v
  step-Valid v (cast (some x) type) = cast-Valid _ x type _ v
  step-Valid v (call none args type) = v
  step-Valid v (call (some callee) args type) = call-Valid _ (types.is_void type) _ _ v
  step-Valid v (jmp target) = jmp-Valid _ target v
  step-Valid v (br none t f) = v
  step-Valid v (br (some cond) t f) = br-Valid _ cond cond.content t f v
  step-Valid v (switch none target cases) = switch_inst-Valid _ none target cases v
  step-Valid v (switch (some cond) target cases) = switch-Valid _ cond cond.content target cases v
  step-Valid v (ret none) = append-Valid _ _ _ _ v
  step-Valid v (ret (some x)) = append-Valid _ _ _ _ v
  step-Valid v trap = append-Valid _ _ _ _ v
  step-Valid v (select (some cond) (some t) (some f)) = select-Valid _ cond.content cond t f v
  step-Valid v (select _ _ _) = v
  step-Valid v (param index type) = dest-Valid _ _ _ _ v

  -- Whatever calls were made on a new builder, no instruction stands behind a terminator in its
  -- block, and the blocks are numbered from 1 in the order in which they were created.
  pub reachable-Valid : (b : IrBuilder) → Reachable types doubles b → Valid b
  unfolding Valid ids
  reachable-Valid b start = (nil, 0, refl, refl)
  reachable-Valid b (next r s) = step-Valid (reachable-Valid _ r) s
