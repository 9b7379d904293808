-- ===== src/Builder/Labels.antt =====
-- A label of src/ir/ir_builder.c stands for one block of its function.

use scorivm.Base.Lists.{get_elem?, get_elem?-set, lt_of_get_elem?}
use scorivm.Base.Logic.{
  Bytes, bytes_eq, bytes_eq_iff, codes, ◌==◌, if◌then◌else◌, Bool-cases, Option-cases,
}
use scorivm.Base.{
  ℕ, zero, suc, ◌+◌, ◌≤◌, ◌≡◌, refl, ap, inl, inr, true, false, none, some, List, [], ◌∷◌, ◌++◌,
  arith,
}
use scorivm.Builder.Instructions.Open.{ids}
use scorivm.Builder.Reachable.{Valid, numbers}
use scorivm.Builder.{
  BasicBlock, Function, IrBuilder, block_of, find_label, current_ids, found_or_created,
  ir_builder_create_block, ir_builder_get_or_create_label_block,
}

block_of_more :
    (blocks : List BasicBlock) (x : BasicBlock) (id : ℕ)
    → block_of (blocks ++ (x ∷ [])) id
      ≡ elim (block_of blocks id) [ some y ↦ some y | none ↦ if x.id == id then some x else none ]
unfolding block_of
block_of_more [] x id = refl
block_of_more (y ∷ blocks) x id = elim (Bool-cases (y.id == id)) [
  | inl here ↦ rw here refl
  | inr there ↦ rw there (block_of_more blocks x id)
]

same_name : (name : Bytes) → bytes_eq name name ≡ true
same_name name = (bytes_eq_iff name name).1 refl

module _ (blocks : List BasicBlock) (x : BasicBlock) (fresh : block_of blocks x.id ≡ none) where
  find_label_new :
      (list : List ℕ)
      → find_label blocks list x.name ≡ none
      → find_label (blocks ++ (x ∷ [])) (list ++ (x.id ∷ [])) x.name ≡ some x.id
  unfolding find_label
  find_label_new [] e =
      let here : (x.id == x.id) ≡ true = ground arith in
      rw (block_of_more blocks x x.id, fresh, here, same_name x.name) refl
  find_label_new (id ∷ list) e = elim (Option-cases (block_of blocks id)) [
    | inr (y, known) ↦ elim (Bool-cases (bytes_eq y.name x.name)) [
      | inl named ↦ absurd (cc (rw (known, named) at e))
      | inr other ↦
          rw (block_of_more blocks x id, known, other)
            (find_label_new list (rw (known, other) at e))
    ]
    | inl unknown ↦ elim (Bool-cases (x.id == id)) [
      | inl here ↦
          let same : id ≡ x.id = ground arith in
          rw (block_of_more blocks x id, unknown, here, same_name x.name) (ap (λ n. some n) same)
      | inr there ↦
          rw (block_of_more blocks x id, unknown, there) (find_label_new list (rw unknown at e))
    ]
  ]

head_or : ℕ → List ℕ → ℕ
head_or n [] = n
head_or n (x ∷ xs) = x

rest_of : List ℕ → List ℕ
rest_of [] = []
rest_of (x ∷ xs) = xs

-- An id above those of the blocks is not among them.
above_fresh :
    (blocks : List BasicBlock) (first count id : ℕ)
    → ids blocks ≡ numbers first count
    → first + count ≤ id
    → block_of blocks id ≡ none
unfolding block_of ids head_or rest_of
above_fresh [] first count id e h = refl
above_fresh (x ∷ blocks) first zero id e h = cc
above_fresh (x ∷ blocks) first (suc count) id e h =
    let here : x.id ≡ first = ap (head_or 0) e in
    let apart : (x.id == id) ≡ false = ground arith in
    rw apart (above_fresh blocks (first + 1) count id (ap rest_of e) (omega arith))

Valid-fresh : (b : IrBuilder) → Valid b → block_of b.blocks b.next_block_id ≡ none
unfolding Valid
Valid-fresh b (straight, count, numbered, upto) =
    above_fresh b.blocks 1 count b.next_block_id numbered (omega (arith, upto))

module _ (b : IrBuilder) (i : ℕ) (f : Function) (inside : b.current_func ≡ some i)
    (known : get_elem? b.contents.funcs i ≡ some f) where
  ids_before : current_ids b ≡ f.blocks
  ids_before = rw (inside, known) refl

  ids_after :
      (name : Bytes)
      → current_ids (ir_builder_create_block b name).1 ≡ f.blocks ++ (b.next_block_id ∷ [])
  unfolding ir_builder_create_block
  ids_after name =
      let small = lt_of_get_elem? b.contents.funcs i f known in
      let here : (i == i) ≡ true = ground arith in
      rw (inside, known) (rw (get_elem?-set b.contents.funcs i i _ small, here) refl)

  found_again :
      (name : Bytes)
      → Valid b
      → find_label b.blocks (current_ids b) name ≡ none
      → let made = (ir_builder_create_block b name).1 in
        find_label made.blocks (current_ids made) name ≡ some b.next_block_id
  unfolding ir_builder_create_block
  found_again name v missing =
      let new : BasicBlock = record { id = b.next_block_id; name = name; insts = [] } in
      rw (ids_after name)
        (find_label_new b.blocks new (Valid-fresh b v) f.blocks (rw ids_before at missing))

  -- A label that was asked for once gives the same block again, and creates none.
  pub label_block-twice :
      (name : Bytes)
      → Valid b
      → let first = ir_builder_get_or_create_label_block b name in
        ir_builder_get_or_create_label_block first.1 name ≡ first
  unfolding ir_builder_get_or_create_label_block found_or_created ir_builder_create_block
  label_block-twice name v =
      let label : Bytes = codes "lbl_" ++ name in
      elim (Option-cases (find_label b.blocks (current_ids b) label)) [
        | inl missing ↦ rw (missing, found_again label v missing) refl
        | inr (id, found) ↦ rw (found, found) refl
      ]
