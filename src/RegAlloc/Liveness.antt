-- ===== src/RegAlloc/Liveness.antt =====
-- Uses, definitions and live registers of each block: the first two parts of
-- `reg_alloc_build_and_color` of src/backend/reg_alloc.c.
use scorivm.Base.Lists.{get_elem?, length}
use scorivm.Base.Logic.{leb, ◌==◌, if◌then◌else◌}
use scorivm.Base.{
  ℕ, zero, suc, ◌+◌, ◌*◌, ◌-◌, ◌/◌, Bool, true, false, not, ◌&&◌, ◌||◌, Option, none, some, List,
  [], ◌∷◌, ◌++◌,
}
use scorivm.RegAlloc.{put, vregs, any, fold, reverse}
use scorivm.Sir.{SirOpcode, sir_jmp, sir_br, sir_switch, SirValue, vreg, block, SirInst, SirBlock}

pub record BlockLiveness : Type 0 where
  pub uses : List ℕ
  pub defs : List ℕ
  pub live_in : ℕ → Bool
  pub live_out : ℕ → Bool

-- The array of the records, by the id of the block.
abbrev pub Liveness : Type 0
Liveness = ℕ → BlockLiveness

abbrev pub no_liveness : Liveness
no_liveness id = record { uses = []; defs = []; live_in = λ v. false; live_out = λ v. false }

-- The virtual register that an operand is, if it is one that the allocator knows.
abbrev pub known_vreg : ℕ → Option SirValue → Option ℕ
known_vreg max_vreg (some (vreg v)) = if leb v max_vreg then some v else none
known_vreg max_vreg _ = none

abbrev among : List ℕ → ℕ → Bool
among xs v = any (λ x. x == v) xs

-- What the first part counts: how often a register occurs, and the sets of the block.
abbrev Counts : Type 0
Counts = (ℕ → ℕ) × BlockLiveness

unfoldable pub count_operand : ℕ → Counts → Option SirValue → Counts
count_operand max_vreg (use_count, bl) operand = elim (known_vreg max_vreg operand) [
  | none ↦ (use_count, bl)
  | some v ↦ (
    put use_count v (use_count v + 1),
    (if among bl.defs v || among bl.uses v then bl else record bl { uses = bl.uses ++ v ∷ [] }),
  )
]

unfoldable pub count_dest : ℕ → Counts → Option SirValue → Counts
count_dest max_vreg (use_count, bl) dest = elim (known_vreg max_vreg dest) [
  | none ↦ (use_count, bl)
  | some v ↦ (
    put use_count v (use_count v + 1),
    (if among bl.defs v then bl else record bl { defs = bl.defs ++ v ∷ [] }),
  )
]

unfoldable pub count_inst : ℕ → Counts → SirInst → Counts
count_inst max_vreg c inst =
    count_dest max_vreg (fold (count_operand max_vreg) c inst.operands) inst.dest

unfoldable pub count_block : ℕ → (ℕ → ℕ) × Liveness → SirBlock → (ℕ → ℕ) × Liveness
count_block max_vreg (use_count, live) b =
    let (counts, bl) = fold (count_inst max_vreg) (use_count, live b.id) b.insts in
    (counts, put live b.id bl)

-- The block that an operand names; the code reads operands that name one.
abbrev target_of : Option (Option SirValue) → List ℕ
target_of (some (some (block id))) = id ∷ []
target_of _ = []

abbrev target : List (Option SirValue) → ℕ → List ℕ
target operands i = target_of (get_elem? operands i)

-- The targets of the first `n` cases of a switch.
abbrev case_targets : List (Option SirValue) → ℕ → List ℕ
case_targets operands zero = []
case_targets operands (suc n) = case_targets operands n ++ target operands (2 + n * 2 + 1)

unfoldable pub inst_successors : SirOpcode → List (Option SirValue) → List ℕ
inst_successors sir_jmp operands = target operands 0
inst_successors sir_br operands = target operands 1 ++ target operands 2
inst_successors sir_switch operands =
    target operands 1 ++ case_targets operands ((length operands - 2) / 2)
inst_successors _ operands = []

-- The successors by the last instruction of a block.
unfoldable pub successors : List SirInst → List ℕ
successors [] = []
successors (inst ∷ []) = inst_successors inst.opcode inst.operands
successors (first ∷ inst ∷ rest) = successors (inst ∷ rest)

-- The loops write the places from 1 to `max_vreg`.
abbrev in_range : ℕ → ℕ → Bool
in_range max_vreg v = leb 1 v && leb v max_vreg

-- `LiveOut` takes in the `LiveIn` of every successor.
unfoldable pub flow_out : ℕ → Liveness → SirBlock → ℕ → Bool
flow_out max_vreg live b v =
    let here = live b.id in
    here.live_out v || (in_range max_vreg v && any (λ id. (live id).live_in v) (successors b.insts))

-- `LiveIn = Use ∪ (LiveOut - Def)`
unfoldable pub flow_in : ℕ → BlockLiveness → ℕ → Bool
flow_in max_vreg bl v =
    if in_range max_vreg v
    then among bl.uses v || (bl.live_out v && not (among bl.defs v))
    else bl.live_in v

abbrev bool_differs : Bool → Bool → Bool
bool_differs true b = not b
bool_differs false b = b

-- The body of the loop over the blocks, with the flag `changed`.
unfoldable pub flow_block : ℕ → Bool × Liveness → SirBlock → Bool × Liveness
flow_block max_vreg (changed, live) b =
    let here = live b.id in
    let out : BlockLiveness = record here { live_out = flow_out max_vreg live b } in
    let new_in = flow_in max_vreg out in
    (
      changed || any (λ v. bool_differs (new_in v) (out.live_in v)) (vregs max_vreg),
      put live b.id (record out { live_in = new_in }),
    )

-- One turn of `while (changed)`.
unfoldable pub flow_pass : ℕ → List SirBlock → Liveness → Bool × Liveness
flow_pass max_vreg blocks live = fold (flow_block max_vreg) (false, live) (reverse blocks)

-- The loop on fuel; `none` if it has not ended after so many turns.
unfoldable pub solve : ℕ → ℕ → List SirBlock → Liveness → Option Liveness
solve zero max_vreg blocks live = none
solve (suc f) max_vreg blocks live =
    let (changed, next) = flow_pass max_vreg blocks live in
    elim changed [ true ↦ solve f max_vreg blocks next | false ↦ some next ]
