-- ===== src/Builder/Prune.antt =====
-- The removal of unreachable blocks, `prune_dead_blocks` of src/ir/ir_builder.c. The array `reachable` is the
-- list of the ids that are set; allocation does not fail. A pointer that is null or -1 is no block.
pub mod Keeps
mod Runs
pub mod Visit
use scorivm.Base.Lists.{length}
use scorivm.Base.Logic.{◌==◌, if◌then◌else◌}
use scorivm.Base.{ℕ, zero, suc, Bool, false, ◌||◌, Option, none, some, List, [], ◌∷◌}
use scorivm.Builder.{Value, Inst, BasicBlock, block_of}
use scorivm.Sir.{SirOpcode, sir_jmp, sir_br, sir_switch, SirValue, block}

unfoldable pub is_set : List ℕ → ℕ → Bool
is_set [] id = false
is_set (x ∷ reachable) id = x == id || is_set reachable id

-- The block of an operand, where it is one.
abbrev pub content_target : SirValue → List ℕ → List ℕ
content_target (block id) rest = id ∷ rest
content_target _ rest = rest

unfoldable pub target_of : Option Value → List ℕ → List ℕ
target_of (some v) rest = content_target v.content rest
target_of none rest = rest

-- The blocks of the cases, of which an odd one at the end is none.
unfoldable pub case_targets : List (Option Value) → List ℕ
case_targets (v ∷ t ∷ cases) = target_of t (case_targets cases)
case_targets _ = []

unfoldable pub operand_targets : SirOpcode → List (Option Value) → List ℕ
operand_targets sir_jmp (t ∷ rest) = target_of t []
operand_targets sir_br (c ∷ t ∷ f ∷ rest) = target_of t (target_of f [])
operand_targets sir_switch (c ∷ d ∷ cases) = target_of d (case_targets cases)
operand_targets _ _ = []

-- The blocks that the last instruction leads to.
unfoldable pub targets : List Inst → List ℕ
targets [] = []
targets (inst ∷ []) = operand_targets inst.opcode inst.operands
targets (inst ∷ next ∷ insts) = targets (next ∷ insts)

unfoldable pub targets_at : Option BasicBlock → List ℕ
targets_at none = []
targets_at (some x) = targets x.insts

-- The array with the stack, whose top stands first.
unfoldable pub visit : List ℕ → List ℕ × List ℕ → List ℕ × List ℕ
visit [] (reachable, stack) = (reachable, stack)
visit (id ∷ ids) (reachable, stack) =
    visit ids (if is_set reachable id then (reachable, stack) else (id ∷ reachable, id ∷ stack))

unfoldable pub walk : ℕ → List BasicBlock → List ℕ × List ℕ → Option (List ℕ)
walk fuel blocks (reachable, []) = some reachable
walk zero blocks (reachable, id ∷ stack) = none
walk (suc fuel) blocks (reachable, id ∷ stack) =
    walk fuel blocks (visit (targets_at (block_of blocks id)) (reachable, stack))

unfoldable pub keep : List ℕ → List ℕ → List ℕ
keep reachable [] = []
keep reachable (id ∷ ids) =
    if is_set reachable id then id ∷ keep reachable ids else keep reachable ids

unfoldable pub keep_walked : List ℕ → Option (List ℕ) → Option (List ℕ)
keep_walked ids none = none
keep_walked ids (some reachable) = some (keep reachable ids)

unfoldable pub entry_of : Option ℕ → ℕ → ℕ
entry_of none first = first
entry_of (some id) first = id

-- The ids of the blocks that are left of a function, each of which is taken from the stack once at most.
unfoldable pub prune_dead_blocks : List BasicBlock → List ℕ → Option ℕ → Option (List ℕ)
prune_dead_blocks blocks [] new_entry = some []
prune_dead_blocks blocks (first ∷ ids) new_entry =
    let entry : ℕ = entry_of new_entry first in
    keep_walked (first ∷ ids) (walk (length (first ∷ ids)) blocks (entry ∷ [], entry ∷ []))
