-- ===== src/Builder/Prune/Keeps.antt =====
-- What `prune_dead_blocks` of src/ir/ir_builder.c leaves of a function.
use mathlib.Core.Path.{subst}
use scorivm.Base.Lists.{length}
use scorivm.Base.{
  ℕ, zero, suc, ◌+◌, ◌≤◌, ◌≡◌, refl, sym, ap, ◌⊎◌, ◌↔◌, inl, inr, Option, some, List, [], ◌∷◌,
  arith,
}
use scorivm.Builder.Prune.{
  is_set, targets_at, visit, walk, keep, keep_walked, entry_of, prune_dead_blocks,
}
use scorivm.Sir.{SirValue}
use scorivm.Builder.{BasicBlock, block_of}
use scorivm.Builder.Prune.Runs.{GoesIn, GoesIn-Has}
use scorivm.Builder.Prune.Visit.{
  Has-keep_reached, Has-keep, Has, Has-here, Has-there, Has-split, unset, unset-lt, visit-keeps,
  visit-grows, visit-covers, Visited, push-Visited,
}

-- The blocks that the last instructions lead to from the entry.
pub data Leads (blocks : List BasicBlock) (entry : ℕ) : ℕ → Type 0 where
  at_entry : Leads blocks entry entry
  onward :
      (id to : ℕ)
      → Leads blocks entry id
      → Has (targets_at (block_of blocks id)) to
      → Leads blocks entry to

-- The blocks that a run gets to, with any values at each of its branches.
pub data Gets (blocks : List BasicBlock) (entry : ℕ) : ℕ → Type 0 where
  begins : Gets blocks entry entry
  goes_on :
      (m : SirValue → ℕ) (id to : ℕ)
      → Gets blocks entry id
      → GoesIn m (block_of blocks id) to
      → Gets blocks entry to

Gets-Leads :
    (blocks : List BasicBlock) (entry : ℕ) (id : ℕ) → Gets blocks entry id → Leads blocks entry id
Gets-Leads blocks entry id begins = at_entry
Gets-Leads blocks entry id (goes_on m from to g e) =
    onward from to (Gets-Leads blocks entry from g) (GoesIn-Has m (block_of blocks from) to e)

-- Every block that is set was led to, and is on the stack or has been visited.
record Walked (blocks : List BasicBlock) (entry : ℕ) (r s : List ℕ) : Type 0 where
  led : (id : ℕ) → Has r id → Leads blocks entry id
  visited :
      (id : ℕ)
      → Has r id
      → Has s id ⊎ ((to : ℕ) → Has (targets_at (block_of blocks id)) to → Has r to)
  reached : (id : ℕ) → Has s id → Has r id

module _ (blocks : List BasicBlock) (ids : List ℕ) (entry : ℕ)
    (within : (id to : ℕ) → Has ids id → Has (targets_at (block_of blocks id)) to → Has ids to)
    (inside : Has ids entry) where
  Leads-within : (id : ℕ) → Leads blocks entry id → Has ids id
  Leads-within id at_entry = inside
  Leads-within id (onward from to l h) = within from id (Leads-within from l) h

  visit-Walked :
      (p : ℕ) (r s : List ℕ)
      → Walked blocks entry r (p ∷ s)
      → (Walked blocks entry
          (visit (targets_at (block_of blocks p)) (r, s)).0
          (visit (targets_at (block_of blocks p)) (r, s)).1)
        × (unset ids (visit (targets_at (block_of blocks p)) (r, s)).0
              + length (visit (targets_at (block_of blocks p)) (r, s)).1
            ≤ unset ids r + length s)
  visit-Walked p r s w =
      let ts : List ℕ = targets_at (block_of blocks p) in
      let lp : Leads blocks entry p = w.led p (w.reached p (Has-here p s)) in
      let v =
        visit-keeps (Visited ids ts r s (unset ids r + length s)) ts r s
          (push-Visited ids ts r s (unset ids r + length s)
            (λ id h. within p id (Leads-within p lp) h))
          (record {
            old_or_new = λ id h. inl h;
            stacked = λ id h. h;
            reached = λ id h. w.reached id (Has-there p s id h);
            bounded = omega arith;
          }) in
      (
        record {
          led =
              λ id h. elim (v.old_or_new id h) [ inl o ↦ w.led id o | inr n ↦ onward p id lp n.0 ];
          visited = λ id h. elim (v.old_or_new id h) [
            | inl o ↦ elim (w.visited id o) [
              | inl k ↦ elim (Has-split p s id k) [
                | inl q ↦ inr (λ to k.
                    visit-covers ts r s to
                      (subst (λ y. Has (targets_at (block_of blocks y)) to) (sym q) k))
                | inr k ↦ inl (v.stacked id k)
              ]
              | inr all ↦ inr (λ to k. visit-grows ts r s to (all to k))
            ]
            | inr n ↦ inl n.1
          ];
          reached = v.reached;
        },
        v.bounded,
      )

  walk-Walked :
      (fuel : ℕ) (r s : List ℕ)
      → Walked blocks entry r s
      → unset ids r + length s ≤ fuel
      → (result : List ℕ) × (walk fuel blocks (r, s) ≡ some result)
        × Walked blocks entry result []
        × ((id : ℕ) → Has r id → Has result id)
  unfolding walk
  walk-Walked fuel r [] w h = (r, refl, w, λ id k. k)
  walk-Walked zero r (p ∷ s) w h = ground arith
  walk-Walked (suc fuel) r (p ∷ s) w h =
      let (w', l) = visit-Walked p r s w in
      let (result, e, done, grows) = walk-Walked fuel _ _ w' (omega arith) in
      (result, e, done, λ id k. grows id (visit-grows _ r s id k))

Leads-set :
    (blocks : List BasicBlock) (entry : ℕ) (r : List ℕ)
    → Walked blocks entry r []
    → Has r entry
    → (id : ℕ) → Leads blocks entry id
    → Has r id
unfolding is_set
Leads-set blocks entry r w h id at_entry = h
Leads-set blocks entry r w h id (onward from to l k) =
    elim (w.visited from (Leads-set blocks entry r w h from l)) [
      | inl never ↦ ground arith
      | inr all ↦ all to k
    ]

start-Walked :
    (blocks : List BasicBlock) (entry : ℕ) → Walked blocks entry (entry ∷ []) (entry ∷ [])
unfolding is_set
start-Walked blocks entry = record {
  led = λ id h. elim (Has-split entry [] id h) [
    | inl q ↦ subst (λ y. Leads blocks entry y) q at_entry
    | inr never ↦ ground arith
  ];
  visited = λ id h. inl h;
  reached = λ id h. h;
}

unset-nil : (ids : List ℕ) → unset ids [] ≡ length ids
unfolding unset is_set
unset-nil [] = refl
unset-nil (id ∷ ids) = ap suc (unset-nil ids)

start_fuel : (ids : List ℕ) (entry : ℕ) → Has ids entry → unset ids (entry ∷ []) + 1 ≤ length ids
unfolding is_set
start_fuel ids entry h =
    let l = unset-lt ids [] entry h refl in let e = unset-nil ids in omega arith

-- When every branch of a function's blocks goes to one of them and the entry is one of them,
-- prune_dead_blocks returns, the blocks it keeps are those of the function that the operands of the last
-- instructions lead to from the entry, and among them is every block that a run gets to.
pub prune_dead_blocks-Keeps :
    (blocks : List BasicBlock) (first : ℕ) (ids : List ℕ) (new_entry : Option ℕ)
    → ((id to : ℕ)
        → Has (first ∷ ids) id
        → Has (targets_at (block_of blocks id)) to
        → Has (first ∷ ids) to)
    → Has (first ∷ ids) (entry_of new_entry first)
    → (kept : List ℕ) × (prune_dead_blocks blocks (first ∷ ids) new_entry ≡ some kept)
      × ((id : ℕ)
          → Has kept id ↔ (Has (first ∷ ids) id × Leads blocks (entry_of new_entry first) id))
      × ((id : ℕ) → Gets blocks (entry_of new_entry first) id → Has kept id)
unfolding prune_dead_blocks keep_walked
prune_dead_blocks-Keeps blocks first ids new_entry within inside =
    let entry : ℕ = entry_of new_entry first in
    let all : List ℕ = first ∷ ids in
    let (r, e, w, grows) =
      walk-Walked blocks all entry within inside (length all) (entry ∷ []) (entry ∷ [])
        (start-Walked blocks entry) (start_fuel all entry inside) in
    let set_of = Leads-set blocks entry r w (grows entry (Has-here entry [])) in
    (
      keep r all,
      ap (keep_walked all) e,
      (λ id. (
        (λ h. ((Has-keep_reached r all id h).1, w.led id (Has-keep_reached r all id h).0)),
        (λ h. Has-keep r all id (set_of id h.1) h.0),
      )),
      λ id g.
          let l : Leads blocks entry id = Gets-Leads blocks entry id g in
          Has-keep r all id (set_of id l) (Leads-within blocks all entry within inside id l),
    )
