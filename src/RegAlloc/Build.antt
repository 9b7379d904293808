-- ===== src/RegAlloc/Build.antt =====
-- The simplify phase, and `reg_alloc_build_and_color` of src/backend/reg_alloc.c as a whole. The
-- quotients in `double` are compared by the parameter `Weights`.
use scorivm.Base.Logic.{ltb, leb, ◌==◌, if◌then◌else◌, ◌>>=◌}
use scorivm.Base.{
  ℕ, zero, suc, ◌+◌, ◌-◌, Bool, true, false, not, ◌&&◌, ◌||◌, Option, none, some, List, [], ◌∷◌,
}
use scorivm.RegAlloc.Interference.{visit_block}
use scorivm.RegAlloc.Liveness.{no_liveness, count_block, solve}
use scorivm.RegAlloc.{RegAllocator, num_phys_regs, put, vregs, fold, select}
use scorivm.Sir.{SirBlock}

-- `(double)m / n < (double)p / q` and `==` for positive `n` and `q`.
pub record Weights : Type 0 where
  pub less : ℕ → ℕ → ℕ → ℕ → Bool
  pub same : ℕ → ℕ → ℕ → ℕ → Bool

-- Whether `i` takes the place of the best node so far.
unfoldable pub better : Weights → RegAllocator → ℕ → ℕ → Bool
better w a i best =
    let (di, db) : ℕ × ℕ = (a.degree i, a.degree best) in
    if ltb di num_phys_regs && leb num_phys_regs db
    then true
    else if ltb di num_phys_regs && ltb db di
    then true
    else if leb num_phys_regs di && leb num_phys_regs db
    then w.less (a.use_count i) di (a.use_count best) db
      || (w.same (a.use_count i) di (a.use_count best) db && ltb db di)
    else false

abbrev pub consider : Weights → RegAllocator → (ℕ → Bool) → Option ℕ → ℕ → Option ℕ
consider w a removed none i = if removed i then none else some i
consider w a removed (some best) i =
    if not (removed i) && better w a i best then some i else some best

-- The search for the node to remove; `none` is -1.
unfoldable pub best_node : Weights → RegAllocator → (ℕ → Bool) → Option ℕ
best_node w a removed = fold (consider w a removed) none (vregs a.max_vreg)

-- The neighbours that are left lose a degree.
unfoldable pub lower_degrees : RegAllocator → ℕ → (ℕ → Bool) → RegAllocator
lower_degrees a node removed = record a {
  degree = λ j.
      if leb 1 j && leb j a.max_vreg && a.adj_matrix node j && not (removed j)
      then a.degree j - 1
      else a.degree j;
}

-- The loop on `remaining`, which gives the stack with its top first; `none` where the code would
-- write at -1.
unfoldable pub simplify :
    Weights → ℕ → RegAllocator → (ℕ → Bool) → List ℕ → Option (RegAllocator × List ℕ)
simplify w zero a removed stack = some (a, stack)
simplify w (suc remaining) a removed stack = elim (best_node w a removed) [
  | none ↦ none
  | some node ↦
      let gone = put removed node true in
      simplify w remaining (lower_degrees a node gone) gone (node ∷ stack)
]

-- Registers that no instruction names are left out.
unfoldable pub unused : RegAllocator → ℕ → Bool
unused a v = leb 1 v && leb v a.max_vreg && a.use_count v == 0

abbrev pub count_if : (ℕ → Bool) → List ℕ → ℕ
count_if p [] = 0
count_if p (x ∷ xs) = (if p x then 1 else 0) + count_if p xs

-- `fuel` bounds the turns of the search for live registers.
unfoldable pub reg_alloc_build_and_color :
    Weights → ℕ → RegAllocator → List SirBlock → ℕ → Option RegAllocator
reg_alloc_build_and_color w fuel a blocks opt_level =
    if opt_level == 0
    then some a
    else (let (use_count, counted) =
          fold (count_block a.max_vreg) (a.use_count, no_liveness) blocks in
        do
          live ← solve fuel a.max_vreg blocks counted
          let graph : RegAllocator =
              fold (visit_block live) (record a { use_count = use_count }) blocks
          let remaining = count_if (λ v. not (unused graph v)) (vregs graph.max_vreg)
          (b, stack) ← simplify w remaining graph (unused graph) []
          some (select b stack))
