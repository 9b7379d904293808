-- ===== src/RegAlloc/Interference/Graph.antt =====
-- The interference graph that src/backend/reg_alloc.c builds.
use scorivm.Base.Logic.{◌==◌, if◌then◌else◌, Bool-cases, Option-cases}
use scorivm.Base.{
  ℕ, zero, suc, ◌≤◌, ◌≡◌, ◌≢◌, refl, sym, ap, ◌∙◌, inl, inr, Bool, true, false, not, ◌&&◌, Option,
  none, some, List, [], ◌∷◌, ◌++◌, arith,
}
use scorivm.RegAlloc.Coloring.{IsGraph, IsColored, InRange, select-IsColored}
use scorivm.RegAlloc.Interference.{
  add_edge, define, is_call, cross_call, visit_inst, visit_block, State,
}
use scorivm.RegAlloc.Liveness.{Liveness, known_vreg}
use scorivm.RegAlloc.{RegAllocator, put, vregs, fold, reverse, reg_alloc_init, select}
use scorivm.Sir.{SirInst, SirBlock}

-- The graph grows by edges between different registers, and no colour is touched.
pub record Grows (a b : RegAllocator) : Type 0 where
  pub same_max : b.max_vreg ≡ a.max_vreg
  pub same_colors : b.vreg_colors ≡ a.vreg_colors
  pub keeps : (v w : ℕ) → a.adj_matrix v w ≡ true → b.adj_matrix v w ≡ true
  pub crossed : (v : ℕ) → a.crosses_call v ≡ true → b.crosses_call v ≡ true
  pub graph : IsGraph a → IsGraph b

Grows-refl : (a : RegAllocator) → Grows a a
Grows-refl a = record {
  same_max = refl;
  same_colors = refl;
  keeps = λ v w h. h;
  crossed = λ v h. h;
  graph = λ g. g;
}

Grows-trans : (a b c : RegAllocator) → Grows a b → Grows b c → Grows a c
Grows-trans a b c p q = record {
  same_max = q.same_max ∙ p.same_max;
  same_colors = q.same_colors ∙ p.same_colors;
  keeps = λ v w h. q.keeps v w (p.keeps v w h);
  crossed = λ v h. q.crossed v (p.crossed v h);
  graph = λ g. q.graph (p.graph g);
}

add_edge-Grows : (a : RegAllocator) (v w : ℕ) → v ≢ w → Grows a (add_edge a v w)
unfolding add_edge
add_edge-Grows a v w ne = elim (Bool-cases (a.adj_matrix v w)) [
  | inl old ↦ rw (old, add_edge) (Grows-refl a)
  | inr new ↦
      rw (new, add_edge)
        (record {
          same_max = refl;
          same_colors = refl;
          keeps = λ i j h. ground arith;
          crossed = λ i h. h;
          graph = λ g. record {
            symmetric = λ i j. ground (arith, g.symmetric i j);
            irreflexive = λ i. ground (arith, g.irreflexive i);
          };
        })
]

add_edge-edge : (a : RegAllocator) (v w : ℕ) → (add_edge a v w).adj_matrix v w ≡ true
unfolding add_edge
add_edge-edge a v w = elim (Bool-cases (a.adj_matrix v w)) [
  | inl old ↦ rw (old, add_edge) old
  | inr new ↦ rw (new, add_edge) (ground arith)
]

-- The turns of the loop of a definition of `d`.
abbrev edge_to : (ℕ → Bool) → ℕ → RegAllocator → ℕ → RegAllocator
edge_to live d b w = if live w && not (w == d) then add_edge b d w else b

edge_to-Grows : (live : ℕ → Bool) (d : ℕ) (b : RegAllocator) (w : ℕ) → Grows b (edge_to live d b w)
edge_to-Grows live d b w = elim (Bool-cases (live w && not (w == d))) [
  | inl go ↦ rw go (add_edge-Grows b d w (λ e. ground arith))
  | inr skip ↦ rw skip (Grows-refl b)
]

fold-Grows :
    {A : Type 0} (f : RegAllocator → A → RegAllocator) (xs : List A)
    → ((b : RegAllocator) (x : A) → Grows b (f b x))
    → (a : RegAllocator) → Grows a (fold f a xs)
fold-Grows f [] h a = Grows-refl a
fold-Grows f (x ∷ xs) h a = Grows-trans a (f a x) _ (h a x) (fold-Grows f xs h (f a x))

define-Grows : (live : ℕ → Bool) (a : RegAllocator) (d : ℕ) → Grows a (define live a d)
unfolding define
define-Grows live a d = fold-Grows (edge_to live d) (vregs a.max_vreg) (edge_to-Grows live d) a

fold-append :
    {A : Type 0} (f : RegAllocator → A → RegAllocator) (xs : List A) (y : A) (a : RegAllocator)
    → fold f a (xs ++ y ∷ []) ≡ f (fold f a xs) y
fold-append f [] y a = refl
fold-append f (x ∷ xs) y a = fold-append f xs y (f a x)

edges-to :
    (live : ℕ → Bool) (d n w : ℕ) (a : RegAllocator)
    → 1 ≤ w
    → w ≤ n
    → live w ≡ true
    → w ≢ d
    → (fold (edge_to live d) a (vregs n)).adj_matrix d w ≡ true
edges-to live d zero w a l u h ne = absurd (omega arith)
edges-to live d (suc n) w a l u h ne =
    let b = fold (edge_to live d) a (vregs n) in
    rw (fold-append (edge_to live d) (vregs n) (suc n) a) (elim (Bool-cases (w == suc n)) [
      | inl last ↦
          let here : w ≡ suc n = ground arith in
          let go : (live (suc n) && not (suc n == d)) ≡ true = rw (sym here) (ground arith) in
          rw (go, here) (add_edge-edge b d (suc n))
      | inr before ↦
          (edge_to-Grows live d b (suc n)).keeps d w (edges-to live d n w a l (ground arith) h ne)
    ])

define-Interferes :
    (live : ℕ → Bool) (a : RegAllocator) (d w : ℕ)
    → InRange a w
    → live w ≡ true
    → w ≢ d
    → (define live a d).adj_matrix d w ≡ true
unfolding define
define-Interferes live a d w r h ne = edges-to live d a.max_vreg w a r.0 r.1 h ne

cross_call-Grows : (a : RegAllocator) (live : ℕ → Bool) → Grows a (cross_call (a, live))
unfolding cross_call
cross_call-Grows a live = record {
  same_max = refl;
  same_colors = refl;
  keeps = λ v w h. h;
  crossed = λ v h. ground arith;
  graph = λ g. record { symmetric = g.symmetric; irreflexive = g.irreflexive };
}

-- The state behind the definition of an instruction, before its call and its operands.
at_dest : State → SirInst → State
at_dest (a, live) inst = elim (known_vreg a.max_vreg inst.dest) [
  | none ↦ (a, live)
  | some d ↦ (define live a d, put live d false)
]

at_dest-Grows :
    (a : RegAllocator) (live : ℕ → Bool) (inst : SirInst) → Grows a (at_dest (a, live) inst).0
unfolding at_dest
at_dest-Grows a live inst = elim (Option-cases (known_vreg a.max_vreg inst.dest)) [
  | inl other ↦ rw (other, at_dest) (Grows-refl a)
  | inr (d, known) ↦ rw (known, at_dest) (define-Grows live a d)
]

call-Grows : (s : State) (b : Bool) → Grows s.0 (if b then cross_call s else s.0)
call-Grows (a, live) true = cross_call-Grows a live
call-Grows (a, live) false = Grows-refl a

visit_inst-Grows : (s : State) (inst : SirInst) → Grows s.0 (visit_inst s inst).0
unfolding visit_inst at_dest
visit_inst-Grows (a, live) inst =
    Grows-trans a (at_dest (a, live) inst).0 _ (at_dest-Grows a live inst)
      (call-Grows (at_dest (a, live) inst) (is_call inst.opcode))

insts-Grows : (s : State) (is : List SirInst) → Grows s.0 (fold visit_inst s is).0
insts-Grows s [] = Grows-refl s.0
insts-Grows s (inst ∷ is) =
    Grows-trans s.0 (visit_inst s inst).0 _ (visit_inst-Grows s inst)
      (insts-Grows (visit_inst s inst) is)

visit_block-Grows :
    (live : Liveness) (a : RegAllocator) (b : SirBlock) → Grows a (visit_block live a b)
unfolding visit_block
visit_block-Grows live a b = insts-Grows (a, (live b.id).live_out) (reverse b.insts)

crosses :
    (a : RegAllocator) (live : ℕ → Bool) (w : ℕ)
    → InRange a w
    → live w ≡ true
    → (cross_call (a, live)).crosses_call w ≡ true
unfolding cross_call
crosses a live w r h = ground arith

-- The register that an instruction defines interferes with every other one that is live behind the
-- instruction; if it is a call, each of those crosses it.
pub visit_inst-Interferes :
    (a : RegAllocator) (live : ℕ → Bool) (inst : SirInst) (d w : ℕ)
    → known_vreg a.max_vreg inst.dest ≡ some d
    → InRange a w
    → live w ≡ true
    → w ≢ d
    → let b = (visit_inst (a, live) inst).0 in
      (b.adj_matrix d w ≡ true) × (is_call inst.opcode ≡ true → b.crosses_call w ≡ true)
unfolding visit_inst
visit_inst-Interferes a live inst d w known r h ne =
    let max = (define-Grows live a d).same_max in
    let edge = define-Interferes live a d w r h ne in
    rw (known, visit_inst)
      (
        (call-Grows (define live a d, put live d false) (is_call inst.opcode)).keeps d w edge,
        λ c. rw c (
            crosses (define live a d) (put live d false) w (r.0, omega (arith, r, max))
              (ground arith)),
      )

init-IsGraph : (n : ℕ) → IsGraph (reg_alloc_init n)
unfolding reg_alloc_init
init-IsGraph n = record { symmetric = λ v w. refl; irreflexive = λ v. refl }

uncolored :
    (n : ℕ) (a : RegAllocator) → a.vreg_colors ≡ (reg_alloc_init n).vreg_colors → IsColored a
unfolding reg_alloc_init
uncolored n a e =
    let none_has : (v c : ℕ) → a.vreg_colors v ≢ some c =
      λ v c h. ground (arith, ap (λ (f : ℕ → Option ℕ). f v) e) in
    record {
      apart = λ v w c d x y adj ev ew. absurd (none_has v c ev);
      physical = λ v c e. absurd (none_has v c e);
      preserved = λ v c h e. absurd (none_has v c e);
      recorded = λ v c e. absurd (none_has v c e);
    }

-- The graph built from all blocks is symmetric and without loops, and whatever stack the select
-- phase is given, it colours it so that registers that interfere have different colours.
pub select-visit_blocks-IsColored :
    (live : Liveness) (n : ℕ) (blocks : List SirBlock) (stack : List ℕ)
    → let a = fold (visit_block live) (reg_alloc_init n) blocks in
      IsGraph a × IsColored (select a stack)
select-visit_blocks-IsColored live n blocks stack =
    let a = fold (visit_block live) (reg_alloc_init n) blocks in
    let grown = fold-Grows (visit_block live) blocks (visit_block-Grows live) (reg_alloc_init n) in
    let graph = grown.graph (init-IsGraph n) in
    (graph, select-IsColored a stack graph (uncolored n a grown.same_colors))
