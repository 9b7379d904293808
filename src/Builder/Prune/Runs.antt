-- ===== src/Builder/Prune/Runs.antt =====
-- The blocks that a run goes to are among those that `prune_dead_blocks` of src/ir/ir_builder.c looks at.
use mathlib.Core.Path.{subst}
use mathlib.Core.Option.{some-injective}
use scorivm.Base.Logic.{◌==◌, if◌then◌else◌, Bool-cases}
use scorivm.Base.{ℕ, ◌≡◌, sym, ap, ◌∙◌, ◌⊎◌, inl, inr, Option, none, some, List, [], ◌∷◌, arith}
use scorivm.Builder.Control.Goes.{block_id, take_case, leads_to, goes}
use scorivm.Builder.Prune.Visit.{Has, Has-here, Has-there}
use scorivm.Builder.Prune.{
  content_target, target_of, case_targets, operand_targets, targets, targets_at,
}
use scorivm.Builder.{Value, Inst, BasicBlock}
use scorivm.Sir.{SirOpcode, sir_jmp, sir_br, sir_switch, SirValue, block}

content-Has :
    (c : SirValue) (rest : List ℕ) (to : ℕ) → block_id c ≡ some to → Has (content_target c rest) to
content-Has (block id) rest to e =
    subst (λ y. Has (id ∷ rest) y) (some-injective id to e) (Has-here id rest)
content-Has _ rest to e = ground arith

content-keeps :
    (c : SirValue) (rest : List ℕ) (to : ℕ) → Has rest to → Has (content_target c rest) to
content-keeps (block id) rest to h = Has-there id rest to h
content-keeps _ rest to h = h

target_of-Has :
    (v : Value) (rest : List ℕ) (to : ℕ)
    → block_id v.content ≡ some to
    → Has (target_of (some v) rest) to
unfolding target_of
target_of-Has v rest to e = content-Has v.content rest to e

target_of-keeps :
    (v : Option Value) (rest : List ℕ) (to : ℕ) → Has rest to → Has (target_of v rest) to
unfolding target_of
target_of-keeps none rest to h = h
target_of-keeps (some v) rest to h = content-keeps v.content rest to h

case_targets-Has :
    (m : SirValue → ℕ) (n : ℕ) (d : Option ℕ) (cases : List (Option Value)) (to : ℕ)
    → take_case m n d cases ≡ some to
    → (d ≡ some to) ⊎ Has (case_targets cases) to
unfolding case_targets
case_targets-Has m n d (some v ∷ some t ∷ rest) to e = elim (Bool-cases (m v.content == n)) [
  | inl q ↦ inr (
      target_of-Has t (case_targets rest) to
        (sym (ap (λ b. if b then block_id t.content else take_case m n d rest) q) ∙ e))
  | inr q ↦
      elim (case_targets-Has m n d rest to
        (sym (ap (λ b. if b then block_id t.content else take_case m n d rest) q) ∙ e)) [
          | inl k ↦ inl k
          | inr h ↦ inr (target_of-keeps (some t) (case_targets rest) to h)
        ]
]
case_targets-Has m n d _ to e = inl e

operand_targets-Has :
    (m : SirValue → ℕ) (op : SirOpcode) (operands : List (Option Value)) (to : ℕ)
    → leads_to m op operands ≡ some to
    → Has (operand_targets op operands) to
unfolding operand_targets
operand_targets-Has m sir_jmp (some t ∷ []) to e = target_of-Has t [] to e
operand_targets-Has m sir_br (some c ∷ some t ∷ some f ∷ []) to e =
    elim (Bool-cases (m c.content == 0)) [
      | inl q ↦ target_of-keeps (some t) (target_of (some f) []) to (
          target_of-Has f [] to
            (sym (ap (λ b. if b then block_id f.content else block_id t.content) q) ∙ e))
      | inr q ↦
          target_of-Has t (target_of (some f) []) to
            (sym (ap (λ b. if b then block_id f.content else block_id t.content) q) ∙ e)
    ]
operand_targets-Has m sir_switch (some c ∷ some d ∷ cases) to e =
    elim (case_targets-Has m (m c.content) (block_id d.content) cases to e) [
      | inl q ↦ target_of-Has d (case_targets cases) to q
      | inr h ↦ target_of-keeps (some d) (case_targets cases) to h
    ]
operand_targets-Has m _ _ to e = ground arith

-- Where a block goes to in a run is one of the blocks that its last instruction leads to.
goes-Has :
    (m : SirValue → ℕ) (insts : List Inst) (to : ℕ)
    → goes m insts ≡ some to
    → Has (targets insts) to
unfolding goes targets
goes-Has m [] to e = ground arith
goes-Has m (inst ∷ []) to e = operand_targets-Has m inst.opcode inst.operands to e
goes-Has m (inst ∷ next ∷ insts) to e = goes-Has m (next ∷ insts) to e

unfoldable pub GoesIn : (SirValue → ℕ) → Option BasicBlock → ℕ → Type 0
GoesIn m x to = (y : BasicBlock) × (x ≡ some y) × (goes m y.insts ≡ some to)

pub GoesIn-Has :
    (m : SirValue → ℕ) (x : Option BasicBlock) (to : ℕ) → GoesIn m x to → Has (targets_at x) to
unfolding GoesIn targets_at
GoesIn-Has m x to (y, e, g) = subst (λ z. Has (targets_at z) to) (sym e) (goes-Has m y.insts to g)
