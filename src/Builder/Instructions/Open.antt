-- ===== src/Builder/Instructions/Open.antt =====
-- The instructions behind a terminator are dropped in src/ir/ir_builder.c.
use scorivm.Base.Logic.{◌==◌, Bool-cases, Option-cases}
use scorivm.Base.{ℕ, ◌≡◌, refl, ap, inl, inr, false, Option, List, [], ◌∷◌, ◌++◌}
use scorivm.Builder.Instructions.{is_terminator, is_closed, push_inst, push_to, append_inst}
use scorivm.Builder.{Value, Inst, BasicBlock, IrBuilder}
use scorivm.Sir.{SirOpcode}

-- Only the last instruction of a block ends it.
pub data IsStraight : List Inst → Type 0 where
  nil : IsStraight []
  last : (inst : Inst) → IsStraight (inst ∷ [])
  cons :
      {inst next : Inst} {insts : List Inst}
      → is_terminator inst.opcode ≡ false
      → IsStraight (next ∷ insts)
      → IsStraight (inst ∷ next ∷ insts)

pub data AreStraight : List BasicBlock → Type 0 where
  nil : AreStraight []
  cons :
      {x : BasicBlock} {blocks : List BasicBlock}
      → IsStraight x.insts
      → AreStraight blocks
      → AreStraight (x ∷ blocks)

append-IsStraight :
    (insts : List Inst) (inst : Inst)
    → is_closed insts ≡ false
    → IsStraight insts
    → IsStraight (insts ++ (inst ∷ []))
unfolding is_closed
append-IsStraight [] inst h s = last inst
append-IsStraight (x ∷ []) inst h s = cons h (last inst)
append-IsStraight (x ∷ y ∷ insts) inst h (cons straight s) =
    cons straight (append-IsStraight (y ∷ insts) inst h s)

pub push_inst-IsStraight :
    (insts : List Inst) (inst : Inst) → IsStraight insts → IsStraight (push_inst insts inst)
unfolding push_inst
push_inst-IsStraight insts inst s = elim (Bool-cases (is_closed insts)) [
  | inl closed ↦ rw closed s
  | inr free ↦ rw free (append-IsStraight insts inst free s)
]

push_to-AreStraight :
    (blocks : List BasicBlock) (id : ℕ) (inst : Inst)
    → AreStraight blocks
    → AreStraight (push_to blocks id inst)
unfolding push_to
push_to-AreStraight [] id inst s = nil
push_to-AreStraight (x ∷ blocks) id inst (cons first rest) = elim (Bool-cases (x.id == id)) [
  | inl here ↦ rw here (cons (push_inst-IsStraight x.insts inst first) rest)
  | inr there ↦ rw there (cons first (push_to-AreStraight blocks id inst rest))
]

pub append_inst-AreStraight :
    (b : IrBuilder) (opcode : SirOpcode) (dest : Option Value) (operands : List (Option Value))
    → AreStraight b.blocks
    → AreStraight (append_inst b opcode dest operands).blocks
append_inst-AreStraight b opcode dest operands s = elim (Option-cases b.current_block) [
  | inl outside ↦ rw outside s
  | inr (id, inside) ↦ rw inside (push_to-AreStraight b.blocks id _ s)
]

unfoldable pub ids : List BasicBlock → List ℕ
ids [] = []
ids (x ∷ blocks) = x.id ∷ ids blocks

push_to-ids :
    (blocks : List BasicBlock) (id : ℕ) (inst : Inst) → ids (push_to blocks id inst) ≡ ids blocks
unfolding push_to ids
push_to-ids [] id inst = refl
push_to-ids (x ∷ blocks) id inst = elim (Bool-cases (x.id == id)) [
  | inl here ↦ rw here refl
  | inr there ↦ rw there (ap (λ l. x.id ∷ l) (push_to-ids blocks id inst))
]

pub append_inst-ids :
    (b : IrBuilder) (opcode : SirOpcode) (dest : Option Value) (operands : List (Option Value))
    → ids (append_inst b opcode dest operands).blocks ≡ ids b.blocks
append_inst-ids b opcode dest operands = elim (Option-cases b.current_block) [
  | inl outside ↦ rw outside refl
  | inr (id, inside) ↦ rw inside (push_to-ids b.blocks id _)
]

pub append_inst_next :
    (b : IrBuilder) (opcode : SirOpcode) (dest : Option Value) (operands : List (Option Value))
    → (append_inst b opcode dest operands).next_block_id ≡ b.next_block_id
append_inst_next b opcode dest operands = elim (Option-cases b.current_block) [
  | inl outside ↦ rw outside refl
  | inr (id, inside) ↦ rw inside refl
]

pub ids-append :
    (blocks : List BasicBlock) (x : BasicBlock)
    → ids (blocks ++ (x ∷ [])) ≡ ids blocks ++ (x.id ∷ [])
unfolding ids
ids-append [] x = refl
ids-append (y ∷ blocks) x = ap (λ l. y.id ∷ l) (ids-append blocks x)

pub append_block-AreStraight :
    (blocks : List BasicBlock) (x : BasicBlock)
    → IsStraight x.insts
    → AreStraight blocks
    → AreStraight (blocks ++ (x ∷ []))
append_block-AreStraight [] x h s = cons h nil
append_block-AreStraight (y ∷ blocks) x h (cons first rest) =
    cons first (append_block-AreStraight blocks x h rest)
