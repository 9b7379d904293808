-- ===== src/Builder/Instructions/Forward.antt =====
-- The store whose value `ir_build_load` of src/ir/ir_builder.c takes over.
use mathlib.Core.List.{append_assoc, append-nil}
use mathlib.Core.Option.{some-injective}
use scorivm.Base.Logic.{◌==◌, Bool-cases, Option-cases}
use scorivm.Base.{
  ℕ, ◌≡◌, refl, sym, ap, ◌∙◌, ◌⊎◌, inl, inr, Bool, true, false, Option, some, List, [], ◌∷◌, ◌++◌,
  arith,
}
use scorivm.Builder.Instructions.{
  BasicTypes, is_store, is_barrier, stored_value, forward_store, backwards, current_insts,
  build_load_on, ir_build_load, create_vreg, append_inst,
}
use scorivm.Sir.{SirOpcode, sir_store, sir_call, sir_memcpy, sir_load}
use scorivm.Types.{Ref}
use scorivm.Builder.{Value, Inst, BasicBlock, IrBuilder, block_of}

-- What changes or may change memory: a store, a call and a copy.
abbrev pub writes_memory : SirOpcode → Bool
writes_memory sir_store = true
writes_memory sir_call = true
writes_memory sir_memcpy = true
writes_memory _ = false

pub data AreQuiet : List Inst → Type 0 where
  nil : AreQuiet []
  cons :
      {inst : Inst} {insts : List Inst}
      → writes_memory inst.opcode ≡ false
      → AreQuiet insts
      → AreQuiet (inst ∷ insts)

passed_quiet :
    (op : SirOpcode) → is_store op ≡ false → is_barrier op ≡ false → writes_memory op ≡ false
passed_quiet sir_store p q = cc
passed_quiet sir_call p q = cc
passed_quiet sir_memcpy p q = cc
passed_quiet _ p q = refl

store_opcode : (op : SirOpcode) → is_store op ≡ true → op ≡ sir_store
store_opcode sir_store p = refl
store_opcode _ p = cc

AreQuiet-backwards :
    (xs done : List Inst) → AreQuiet xs → AreQuiet done → AreQuiet (backwards xs done)
AreQuiet-backwards [] done nil q = q
AreQuiet-backwards (x ∷ xs) done (cons h p) q = AreQuiet-backwards xs (x ∷ done) p (cons h q)

stored_lem :
    (operands : List (Option Value)) (ptr : Value) (v : Option Value)
    → stored_value operands ptr ≡ some v
    → (q : Value) × (rest : List (Option Value)) × (operands ≡ v ∷ some q ∷ rest)
      × (q.address ≡ ptr.address)
stored_lem (w ∷ some q ∷ rest) ptr v e = elim (Bool-cases (q.address == ptr.address)) [
  | inl same ↦
      (q, rest, ap (λ u. u ∷ some q ∷ rest) (some-injective _ _ (rw same at e)), ground arith)
  | inr other ↦ absurd (cc (rw other at e))
]
stored_lem _ ptr v e = cc

-- In a scan the nearest store goes through the same pointer and stores the value.
forward_store_finds :
    (insts : List Inst) (ptr : Value) (v : Option Value)
    → forward_store insts ptr ≡ some v
    → (later : List Inst) × (inst : Inst) × (earlier : List Inst) × (q : Value) × (rest : List
        (Option Value))
      × (insts ≡ later ++ (inst ∷ earlier))
      × AreQuiet later
      × (is_store inst.opcode ≡ true)
      × (inst.operands ≡ v ∷ some q ∷ rest)
      × (q.address ≡ ptr.address)
unfolding forward_store
forward_store_finds [] ptr v e = cc
forward_store_finds (inst ∷ insts) ptr v e = elim (Bool-cases (is_store inst.opcode)) [
  | inl store ↦
      let (q, rest, operands, same) = stored_lem inst.operands ptr v (rw store at e) in
      ([], inst, insts, q, rest, refl, nil, store, operands, same)
  | inr passed ↦ elim (Bool-cases (is_barrier inst.opcode)) [
    | inl stopped ↦ absurd (cc (rw (passed, stopped) at e))
    | inr quiet ↦
        let (later, found, earlier, q, rest, whole, calm, store, operands, same) =
          forward_store_finds insts ptr v (rw (passed, quiet) at e) in
        (
          inst ∷ later,
          found,
          earlier,
          q,
          rest,
          ap (λ l. inst ∷ l) whole,
          cons (passed_quiet inst.opcode passed quiet) calm,
          store,
          operands,
          same,
        )
  ]
]

-- Reversing a list twice.
backwards-append :
    (xs ys done : List Inst) → backwards (xs ++ ys) done ≡ backwards ys (backwards xs done)
backwards-append [] ys done = refl
backwards-append (x ∷ xs) ys done = backwards-append xs ys (x ∷ done)

backwards-backwards :
    (xs done more : List Inst) → backwards (backwards xs done) more ≡ backwards done (xs ++ more)
backwards-backwards [] done more = refl
backwards-backwards (x ∷ xs) done more = backwards-backwards xs (x ∷ done) more

backwards-into : (xs done : List Inst) → backwards xs done ≡ backwards xs [] ++ done
backwards-into [] done = refl
backwards-into (x ∷ xs) done =
    backwards-into xs (x ∷ done)
    ∙ (sym (append_assoc (backwards xs []) (x ∷ []) done)
        ∙ ap (λ l. l ++ done) (sym (backwards-into xs (x ∷ []))))

unreversed :
    (xs later earlier : List Inst) (inst : Inst)
    → backwards xs [] ≡ later ++ (inst ∷ earlier)
    → xs ≡ backwards earlier [] ++ (inst ∷ backwards later [])
unreversed xs later earlier inst e =
    sym (backwards-backwards xs [] [] ∙ append-nil xs)
    ∙ (ap (λ l. backwards l []) e
        ∙ (backwards-append later (inst ∷ earlier) []
            ∙ backwards-into earlier (inst ∷ backwards later [])))

-- The block in which the builder stands has a store of `v` through the pointer's value, and nothing behind
-- it writes to memory.
pub record IsStored (b : IrBuilder) (ptr : Value) (v : Option Value) : Type 0 where
  pub id : ℕ
  pub x : BasicBlock
  pub current : b.current_block ≡ some id
  pub found : block_of b.blocks id ≡ some x
  pub earlier : List Inst
  pub store : Inst
  pub later : List Inst
  pub pointer : Value
  pub rest : List (Option Value)
  pub whole : x.insts ≡ earlier ++ (store ∷ later)
  pub quiet : AreQuiet later
  pub is_a_store : store.opcode ≡ sir_store
  pub operands : store.operands ≡ v ∷ some pointer ∷ rest
  pub same_pointer : pointer.address ≡ ptr.address

current-block :
    (b : IrBuilder) (inst : Inst) (before after : List Inst)
    → current_insts b ≡ before ++ (inst ∷ after)
    → (id : ℕ) × (x : BasicBlock) × (b.current_block ≡ some id)
      × (block_of b.blocks id ≡ some x)
      × (x.insts ≡ before ++ (inst ∷ after))
current-block b inst before after e = elim (Option-cases b.current_block) [
  | inl outside ↦ absurd (no_insts before (rw (outside, current_insts) at e))
  | inr (id, current) ↦ elim (Option-cases (block_of b.blocks id)) [
    | inl missing ↦ absurd (no_insts before (rw missing at (rw (current, current_insts) at e)))
    | inr (x, found) ↦ (id, x, current, found, rw found at (rw (current, current_insts) at e))
  ]
]
  where
    no_insts : (before : List Inst) → [] ≡ before ++ (inst ∷ after) → ⊥
    no_insts [] e = cc
    no_insts (y ∷ before) e = cc

-- A load either appends a load of the pointer into a new register, or changes nothing and returns the
-- value of a store through the same pointer value in the current block, behind which there is no store,
-- call or copy in that block.
pub ir_build_load-Loads :
    (types : BasicTypes) (b : IrBuilder) (ptr : Value)
    → let r = ir_build_load types b (some ptr) in
      ((type : Ref) × (r ≡ (
        some (create_vreg b type).0,
        append_inst (create_vreg b type).1 sir_load (some (create_vreg b type).0) (some ptr ∷ []),
      )))
      ⊎ ((r.1 ≡ b) × IsStored b ptr r.0)
unfolding ir_build_load build_load_on
ir_build_load-Loads types b ptr =
    elim (Option-cases (forward_store (backwards (current_insts b) []) ptr)) [
      | inl none_found ↦ rw none_found (inl (_, refl))
      | inr (v, forwarded) ↦
          let (later, inst, earlier, q, rest, whole, calm, store, operands, same) =
            forward_store_finds (backwards (current_insts b) []) ptr v forwarded in
          let (id, x, current, found, split) =
            current-block b inst (backwards earlier []) (backwards later [])
              (unreversed (current_insts b) later earlier inst whole) in
          rw forwarded (
            inr (
              refl,
              record {
                id = id;
                x = x;
                current = current;
                found = found;
                earlier = backwards earlier [];
                store = inst;
                later = backwards later [];
                pointer = q;
                rest = rest;
                whole = split;
                quiet = AreQuiet-backwards later [] calm nil;
                is_a_store = store_opcode inst.opcode store;
                operands = operands;
                same_pointer = same;
              },
            ))
    ]
