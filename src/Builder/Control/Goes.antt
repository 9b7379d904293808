-- ===== src/Builder/Control/Goes.antt =====
-- Where a block that src/ir/ir_builder.c ends with a branch or a switch goes to in a run.
use mathlib.Core.Path.{subst}
use mathlib.Core.Option.{some-injective}
use scorivm.Base.Logic.{◌==◌, if◌then◌else◌, Bool-cases}
use scorivm.Base.{
  ℕ, ◌≡◌, refl, ap, ◌∙◌, inl, inr, Bool, true, false, Option, none, some, List, [], ◌∷◌, ◌++◌,
  arith,
}
use scorivm.Builder.Control.{
  block_value, ir_build_jmp, build_br_open, build_br_inst, build_br_on, ir_build_br,
}
use scorivm.Builder.Instructions.{BasicTypes, append_inst, is_closed, push_inst, push_to}
use scorivm.Builder.{Value, Inst, BasicBlock, IrBuilder, block_of}
use scorivm.Sir.{SirOpcode, sir_jmp, sir_br, sir_switch, SirValue, block, const_bool}

abbrev pub block_id : SirValue → Option ℕ
block_id (block id) = some id
block_id _ = none

-- The cases in their order, each a value and a block.
abbrev pub take_case : (SirValue → ℕ) → ℕ → Option ℕ → List (Option Value) → Option ℕ
take_case m n default_block (some v ∷ some t ∷ rest) =
    if m v.content == n then block_id t.content else take_case m n default_block rest
take_case m n default_block _ = default_block

-- Where an instruction goes to when the values of a run are those of `m`.
abbrev pub leads_to : (SirValue → ℕ) → SirOpcode → List (Option Value) → Option ℕ
leads_to m sir_jmp (some t ∷ []) = block_id t.content
leads_to m sir_br (some c ∷ some t ∷ some f ∷ []) =
    if m c.content == 0 then block_id f.content else block_id t.content
leads_to m sir_switch (some c ∷ some d ∷ cases) =
    take_case m (m c.content) (block_id d.content) cases
leads_to m _ _ = none

unfoldable pub goes : (SirValue → ℕ) → List Inst → Option ℕ
goes m [] = none
goes m (inst ∷ []) = leads_to m inst.opcode inst.operands
goes m (inst ∷ next ∷ insts) = goes m (next ∷ insts)

goes-append :
    (m : SirValue → ℕ) (insts : List Inst) (inst : Inst)
    → goes m (insts ++ (inst ∷ [])) ≡ leads_to m inst.opcode inst.operands
unfolding goes
goes-append m [] inst = refl
goes-append m (x ∷ []) inst = refl
goes-append m (x ∷ y ∷ insts) inst = goes-append m (y ∷ insts) inst

-- The current block, which is not ended, with its instructions.
unfoldable pub IsOpen : IrBuilder → ℕ → BasicBlock → Type 0
IsOpen b id x =
    (b.current_block ≡ some id) × (block_of b.blocks id ≡ some x) × (is_closed x.insts ≡ false)

unfoldable pub GoesTo : (SirValue → ℕ) → IrBuilder → ℕ → ℕ → Type 0
GoesTo m b id to = (y : BasicBlock) × (block_of b.blocks id ≡ some y) × (goes m y.insts ≡ some to)

push_to-block_of :
    (blocks : List BasicBlock) (id : ℕ) (x : BasicBlock) (inst : Inst)
    → block_of blocks id ≡ some x
    → (y : BasicBlock) × (block_of (push_to blocks id inst) id ≡ some y)
      × (y.insts ≡ push_inst x.insts inst)
unfolding block_of push_to
push_to-block_of (z ∷ blocks) id x inst e = elim (Bool-cases (z.id == id)) [
  | inl here ↦
      let same = some-injective _ _ (rw here at e) in
      rw here (
        record { id = z.id; name = z.name; insts = push_inst z.insts inst },
        (rw here refl),
        ap (λ w. push_inst w.insts inst) same,
      )
  | inr there ↦
      let (y, found, pushed) = push_to-block_of blocks id x inst (rw there at e) in
      rw there (y, (rw there found), pushed)
]
push_to-block_of [] id x inst e = cc

module _ (m : SirValue → ℕ) (id : ℕ) (x : BasicBlock) where
  append-GoesTo :
      (b : IrBuilder) (op : SirOpcode) (operands : List (Option Value)) (to : ℕ)
      → IsOpen b id x
      → leads_to m op operands ≡ some to
      → GoesTo m (append_inst b op none operands) id to
  unfolding IsOpen GoesTo push_inst
  append-GoesTo b op operands to (inside, found, unended) e =
      let inst : Inst = record { opcode = op; dest = none; operands = operands } in
      let (y, stored, pushed) = push_to-block_of b.blocks id x inst found in
      let longer : y.insts ≡ x.insts ++ (inst ∷ []) = pushed ∙ (rw unended refl) in
      rw inside (y, stored, ap (goes m) longer ∙ (goes-append m x.insts inst ∙ e))

  module _ (types : BasicTypes) (b : IrBuilder) (opened : IsOpen b id x) where
    jmp-GoesTo : (to : ℕ) → GoesTo m (ir_build_jmp types b to) id to
    unfolding ir_build_jmp IsOpen
    jmp-GoesTo to = append-GoesTo (block_value types b to).1 sir_jmp _ to opened refl

    br_inst-GoesTo :
        (cond : Value) (t f : ℕ)
        → GoesTo m (build_br_inst types b cond t f) id (if m cond.content == 0 then f else t)
    unfolding IsOpen
    br_inst-GoesTo cond t f =
        append-GoesTo (block_value types (block_value types b t).1 f).1 sir_br _ _ opened
          (either (m cond.content == 0))
      where
        either : (c : Bool) → (if c then some f else some t) ≡ some (if c then f else t)
        either true = refl
        either false = refl

    br_open-GoesTo :
        (cond : Value) (t f : ℕ)
        → GoesTo m (build_br_open types b cond t f) id (if m cond.content == 0 then f else t)
    br_open-GoesTo cond t f = elim (Bool-cases (t == f)) [
      | inl joined ↦
          let same : t ≡ f = ground arith in
          rw joined (
            subst (GoesTo m (ir_build_jmp types b t) id) (if_same (m cond.content == 0) same)
              (jmp-GoesTo t))
      | inr apart ↦ rw apart (br_inst-GoesTo cond t f)
    ]
      where
        if_same : (c : Bool) → t ≡ f → t ≡ (if c then f else t)
        if_same true e = e
        if_same false e = refl

    br_on-GoesTo :
        ((v : Bool) → m (const_bool v) ≡ (if v then 1 else 0))
        → (cond : Value) (c : SirValue) (t f : ℕ) → cond.content ≡ c
        → GoesTo m (build_br_on types b cond c t f) id (if m cond.content == 0 then f else t)
    unfolding build_br_on
    br_on-GoesTo m_bool cond (const_bool true) t f e = rw (e, m_bool true) (jmp-GoesTo t)
    br_on-GoesTo m_bool cond (const_bool false) t f e = rw (e, m_bool false) (jmp-GoesTo f)
    br_on-GoesTo m_bool cond _ t f e = br_open-GoesTo cond t f

    -- After ir_build_br on a condition in a current block without a terminator, that block goes to
    -- the second block in a run where the condition is 0 and to the first otherwise, also where
    -- the branch became a jump.
    pub ir_build_br-GoesTo :
        ((v : Bool) → m (const_bool v) ≡ (if v then 1 else 0))
        → (cond : Value) (t f : ℕ)
        → GoesTo m (ir_build_br types b (some cond) t f) id (if m cond.content == 0 then f else t)
    unfolding ir_build_br
    ir_build_br-GoesTo m_bool cond t f = br_on-GoesTo m_bool cond cond.content t f refl
