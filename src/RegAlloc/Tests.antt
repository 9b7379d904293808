-- ===== src/RegAlloc/Tests.antt =====
-- Allocations for a small function, and the theorems at them.
use scorivm.Base.Logic.{if◌then◌else◌, ◌==◌}
use scorivm.Base.{
  ℕ, ◌≡◌, refl, Bool, true, false, Option, none, some, List, [], ◌∷◌, ◌++◌, map, arith,
}
use scorivm.RegAlloc.Build.{
  Weights, reg_alloc_build_and_color, best_node, better, simplify, lower_degrees, unused,
}
use scorivm.RegAlloc.Coloring.{IsGraph, IsColored}
use scorivm.RegAlloc.Interference.Graph.{visit_inst-Interferes, select-visit_blocks-IsColored}
use scorivm.RegAlloc.Interference.{visit_inst, visit_block, is_call, define, add_edge, cross_call}
use scorivm.RegAlloc.Liveness.{
  no_liveness, solve, flow_pass, flow_block, flow_in, flow_out, successors, inst_successors,
  count_block, count_inst, count_operand, count_dest,
}
use scorivm.RegAlloc.Simplify.{times, is_left, simplify-Returns}
use scorivm.RegAlloc.Slots.{IsWithin, HasSlot, get_offset-HasSlot}
use scorivm.RegAlloc.{
  RegAllocator, fold, reg_alloc_init, select, select_node, reg_alloc_get_color,
  reg_alloc_get_offset, choose_color, first_free, used_color,
}
use scorivm.Sir.{vreg, const_int, SirInst, SirBlock, sir_add, sir_call, sir_ret, sir_load}

-- %1 := load; %2 := load; call; %3 := add %1, %2; ret %3
abbrev insts : List SirInst
insts =
    record { opcode = sir_load; dest = some (vreg 1); operands = some (const_int 0) ∷ [] }
    ∷ record { opcode = sir_load; dest = some (vreg 2); operands = some (const_int 8) ∷ [] }
    ∷ record { opcode = sir_call; dest = none; operands = none ∷ [] }
    ∷ record {
      opcode = sir_add;
      dest = some (vreg 3);
      operands = some (vreg 1) ∷ some (vreg 2) ∷ [];
    }
    ∷ record { opcode = sir_ret; dest = none; operands = some (vreg 3) ∷ [] }
    ∷ []

abbrev blocks : List SirBlock
blocks = record { id = 0; insts = insts } ∷ []

abbrev weights : Weights
weights = record { less = λ m n p q. false; same = λ m n p q. true }

program : Unit {0}
unfolding reg_alloc_build_and_color best_node better simplify lower_degrees unused visit_inst
    visit_block is_call define add_edge cross_call solve flow_pass flow_block flow_in flow_out
    successors inst_successors count_block count_inst count_operand count_dest reg_alloc_init select
    select_node reg_alloc_get_color reg_alloc_get_offset choose_color first_free used_color
program = tt

abbrev colors : Option RegAllocator → List (Option ℕ)
colors none = []
colors (some a) = map (reg_alloc_get_color a) (1 ∷ 2 ∷ 3 ∷ [])

-- The two registers that cross the call get different colours that calls preserve.
colors_run :
    colors (reg_alloc_build_and_color weights 3 (reg_alloc_init 3) blocks 1)
    ≡ some 1 ∷ some 0 ∷ some 7 ∷ []
unfolding program
colors_run = refl

select-visit_blocks-IsColored_example :
    IsGraph (fold (visit_block no_liveness) (reg_alloc_init 3) blocks)
    × IsColored (select (fold (visit_block no_liveness) (reg_alloc_init 3) blocks) (1 ∷ 2 ∷ []))
select-visit_blocks-IsColored_example =
    select-visit_blocks-IsColored no_liveness 3 blocks (1 ∷ 2 ∷ [])

abbrev call : SirInst
call = record { opcode = sir_call; dest = some (vreg 2); operands = none ∷ [] }

abbrev live : ℕ → Bool
live v = v == 1

visit_inst-Interferes_example :
    ((visit_inst (reg_alloc_init 3, live) call).0.adj_matrix 2 1 ≡ true)
    × (is_call sir_call ≡ true → (visit_inst (reg_alloc_init 3, live) call).0.crosses_call 1 ≡ true)
visit_inst-Interferes_example =
    visit_inst-Interferes (reg_alloc_init 3) live call 2 1 (unfold program in refl)
      (unfold program in omega arith) refl (omega arith)

init-IsWithin : IsWithin (reg_alloc_init 3)
unfolding reg_alloc_init IsWithin
init-IsWithin v = omega arith

get_offset-HasSlot_example :
    HasSlot
      (reg_alloc_init 3)
      2
      16
      (reg_alloc_get_offset (reg_alloc_init 3) 2 16).0
      (reg_alloc_get_offset (reg_alloc_init 3) 2 16).1
get_offset-HasSlot_example =
    get_offset-HasSlot (reg_alloc_init 3) 2 16 init-IsWithin (unfold program in omega arith)

abbrev third : ℕ → Bool
third v = v == 3

simplify-Returns_example :
    (b : RegAllocator) × (taken : List ℕ) × (simplify weights 2 (reg_alloc_init 3) third []
      ≡ some (b, taken ++ []))
    × ((v : ℕ) → times v taken ≡ (if is_left third 3 v then 1 else 0))
    × (b.adj_matrix ≡ (reg_alloc_init 3).adj_matrix)
    × (b.vreg_colors ≡ (reg_alloc_init 3).vreg_colors)
unfolding reg_alloc_init
simplify-Returns_example =
    simplify-Returns weights 2 (reg_alloc_init 3) third [] (unfold program in refl)
