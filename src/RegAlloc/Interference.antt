-- ===== src/RegAlloc/Interference.antt =====
-- The interference graph: the third part of `reg_alloc_build_and_color` of src/backend/reg_alloc.c.
pub mod Graph
use scorivm.Base.Logic.{leb, ◌==◌, if◌then◌else◌}
use scorivm.Base.{
  ℕ, zero, suc, ◌+◌, Bool, true, false, not, ◌&&◌, ◌||◌, Option, none, some, List, [], ◌∷◌,
}
use scorivm.RegAlloc.Liveness.{Liveness, known_vreg}
use scorivm.RegAlloc.{RegAllocator, put, vregs, fold, reverse}
use scorivm.Sir.{
  SirOpcode, sir_call, sir_sys_alloc, sir_sys_free, sir_sys_write, sir_sys_read, sir_sys_exit,
  SirValue, SirInst, SirBlock,
}

-- `adj_matrix` at (v, w) and at (w, v), and both degrees.
unfoldable pub add_edge : RegAllocator → ℕ → ℕ → RegAllocator
add_edge a v w =
    if a.adj_matrix v w
    then a
    else (let degree = put a.degree v (a.degree v + 1) in
        record a {
          adj_matrix = λ i j. (i == v && j == w) || ((i == w && j == v) || a.adj_matrix i j);
          degree = put degree w (degree w + 1);
        })

-- A definition interferes with every other register that is live behind it.
unfoldable pub define : (ℕ → Bool) → RegAllocator → ℕ → RegAllocator
define live a d =
    fold (λ (b : RegAllocator) w. if live w && not (w == d) then add_edge b d w else b) a
      (vregs a.max_vreg)

unfoldable pub is_call : SirOpcode → Bool
is_call sir_call = true
is_call sir_sys_alloc = true
is_call sir_sys_free = true
is_call sir_sys_write = true
is_call sir_sys_read = true
is_call sir_sys_exit = true
is_call _ = false

abbrev pub State : Type 0
State = RegAllocator × (ℕ → Bool)

unfoldable pub cross_call : State → RegAllocator
cross_call (a, live) = record a {
  crosses_call = λ v. a.crosses_call v || (leb 1 v && leb v a.max_vreg && live v);
}

abbrev pub use_operand : ℕ → (ℕ → Bool) → Option SirValue → ℕ → Bool
use_operand max_vreg live operand = elim (known_vreg max_vreg operand) [
  | none ↦ live
  | some v ↦ put live v true
]

-- The body of the loop over the instructions, from the last to the first.
unfoldable pub visit_inst : State → SirInst → State
visit_inst (a, live) inst =
    let defined : State = elim (known_vreg a.max_vreg inst.dest) [
      | none ↦ (a, live)
      | some d ↦ (define live a d, put live d false)
    ] in
    (
      (if is_call inst.opcode then cross_call defined else defined.0),
      fold (use_operand a.max_vreg) defined.1 inst.operands,
    )

unfoldable pub visit_block : Liveness → RegAllocator → SirBlock → RegAllocator
visit_block live a b = (fold visit_inst (a, (live b.id).live_out) (reverse b.insts)).0
