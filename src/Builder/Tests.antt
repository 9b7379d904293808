-- ===== src/Builder/Tests.antt =====
-- The theorems on src/ir/ir_builder.c at concrete inputs.
use scorivm.Base.Logic.{codes, ◌==◌, if◌then◌else◌}
use scorivm.Base.{
  ℕ, ◌%◌, ◌^◌, ◌<◌, ◌≡◌, refl, ◌⊎◌, ◌↔◌, Bool, true, false, none, some, List, [], ◌∷◌, arith,
}
use scorivm.Builder.Control.Goes.{IsOpen, GoesTo, ir_build_br-GoesTo}
use scorivm.Builder.Control.{ir_build_br}
use scorivm.Builder.Fold.Built.{IsWord, Agrees, ir_build_binary-Agrees}
use scorivm.Builder.Fold.{Doubles, ir_build_binary}
use scorivm.Builder.Instructions.Forward.{IsStored, ir_build_load-Loads}
use scorivm.Builder.Instructions.{
  BasicTypes, is_closed, forward_store, create_vreg, append_inst, push_to, push_inst, build_load_on,
  ir_build_load, ir_build_store,
}
use scorivm.Builder.Fold.Meaning.{Gives}
use scorivm.Types.{Ref}
use scorivm.Builder.Labels.{label_block-twice}
use scorivm.Builder.Prune.Keeps.{Leads, Gets, prune_dead_blocks-Keeps}
use scorivm.Builder.Prune.Visit.{Has}
use scorivm.Builder.Prune.{
  is_set, target_of, operand_targets, targets, targets_at, visit, walk, keep, keep_walked, entry_of,
  prune_dead_blocks,
}
use scorivm.Builder.Reachable.Preserved.{reachable-Valid}
use scorivm.Builder.Reachable.{create_block, create_function, Reachable, start, next, Valid}
use scorivm.Builder.{
  Value, BasicBlock, IrBuilder, ir_builder_init, block_of, ir_builder_create_block,
  ir_builder_create_function, ir_builder_set_insert_point, ir_builder_get_or_create_label_block,
}
use scorivm.Sir.{sir_load, sir_add, sir_jmp, SirValue, vreg, const_int, const_bool, block}

abbrev types : BasicTypes
types = record {
  int32_type = some 5;
  bool_type = some 13;
  unknown_type = some 0;
  via_of = λ t. t;
  inner_of = λ t. none;
  is_void = λ t. false;
}

-- Bits that are compared and kept as they are.
abbrev doubles : Doubles
doubles = record {
  add = λ l r. l;
  sub = λ l r. l;
  mul = λ l r. l;
  div = λ l r. l;
  eq = λ l r. l == r;
  lt = λ l r. false;
  le = λ l r. true;
  of_int = λ n. n;
  to_int = λ n. n;
}

-- A run in which every register holds 7.
abbrev values : SirValue → ℕ
values (const_int n) = n % 2 ^ 64
values (const_bool true) = 1
values (const_bool false) = 0
values _ = 7

values_const : (n : ℕ) → n < 2 ^ 64 → values (const_int n) ≡ n
values_const n h = omega arith

values_word : (v : SirValue) → values v < 2 ^ 64
values_word (const_int n) = omega arith
values_word (const_bool true) = omega arith
values_word (const_bool false) = omega arith
values_word _ = omega arith

values_bool : (v : Bool) → values (const_bool v) ≡ (if v then 1 else 0)
values_bool true = refl
values_bool false = refl

abbrev register : Value
register = record { address = 90; type = some 6; content = vreg 3 }

abbrev zero_const : Value
zero_const = record { address = 91; type = some 6; content = const_int 0 }

-- A register and 0 add up to the register.
ir_build_binary-Agrees_example :
    (v : Value) × (b1 : IrBuilder) × (ir_build_binary doubles
        (some 13)
        ir_builder_init
        sir_add
        (some register)
        (some zero_const)
      ≡ (some v, b1))
    × Agrees doubles
        (some 13)
        values
        values_const
        values_word
        ir_builder_init
        sir_add
        register
        zero_const
        (λ e. absurd (omega (arith, e)))
        7
        (v, b1)
unfolding IsWord Gives
ir_build_binary-Agrees_example =
    ir_build_binary-Agrees doubles (some 13) values values_const values_word ir_builder_init sir_add
      register zero_const (λ e. absurd (omega (arith, e))) 7 (omega arith) (omega arith)
      (omega arith) refl refl

-- A function with a block that is ended at once.
abbrev opened : IrBuilder
opened =
    (ir_builder_create_block (ir_builder_create_function ir_builder_init (codes "f") (some 21))
      (codes "entry")).1

opened-Reachable : Reachable types doubles opened
opened-Reachable =
    next (next start (create_function (codes "f") (some 21))) (create_block (codes "entry"))

reachable-Valid_example : Valid opened
reachable-Valid_example = reachable-Valid types doubles opened opened-Reachable

label_block-twice_example :
    ir_builder_get_or_create_label_block
      (ir_builder_get_or_create_label_block opened (codes "a")).1
      (codes "a")
    ≡ ir_builder_get_or_create_label_block opened (codes "a")
unfolding ir_builder_create_block ir_builder_create_function
label_block-twice_example =
    label_block-twice opened 0 (record { name = codes "f"; type = some 21; blocks = 1 ∷ [] }) refl
      refl (codes "a") (reachable-Valid types doubles opened opened-Reachable)

abbrev inserting : IrBuilder
inserting = ir_builder_set_insert_point opened (some 1)

abbrev entry : BasicBlock
entry = record { id = 1; name = codes "entry"; insts = [] }

inserting-IsOpen : IsOpen inserting 1 entry
unfolding IsOpen ir_builder_create_block ir_builder_create_function block_of is_closed
inserting-IsOpen = (refl, refl, refl)

-- The register holds 7, so the branch goes to the first of its blocks.
ir_build_br-GoesTo_example : GoesTo values (ir_build_br types inserting (some register) 2 3) 1 2
ir_build_br-GoesTo_example =
    ir_build_br-GoesTo values 1 entry types inserting inserting-IsOpen values_bool register 2 3

-- The current block with a store of 0 at its end.
abbrev stored : IrBuilder
stored = ir_build_store types inserting (some zero_const) (some register)

ir_build_load-Loads_example :
    let r = ir_build_load types stored (some register) in
    ((type : Ref) × (r ≡ (
      some (create_vreg stored type).0,
      append_inst
          (create_vreg stored type).1
          sir_load
          (some (create_vreg stored type).0)
          (some register ∷ []),
    )))
    ⊎ ((r.1 ≡ stored) × IsStored stored register r.0)
ir_build_load-Loads_example = ir_build_load-Loads types stored register

-- The load takes over the 0.
load_forwarded : (ir_build_load types stored (some register)).0 ≡ some zero_const
unfolding ir_build_load ir_build_store push_to push_inst is_closed forward_store build_load_on
    block_of ir_builder_create_block ir_builder_create_function
load_forwarded = refl

-- The first block jumps over the second one to the third.
abbrev jump_over : List BasicBlock
jump_over =
    record {
      id = 1;
      name = codes "a";
      insts =
          record {
            opcode = sir_jmp;
            dest = none;
            operands = some (record { address = 1; type = none; content = block 3 }) ∷ [];
          }
          ∷ [];
    }
    ∷ record { id = 2; name = codes "b"; insts = [] }
    ∷ record { id = 3; name = codes "c"; insts = [] }
    ∷ []

jump_over_within :
    (id to : ℕ)
    → Has (1 ∷ 2 ∷ 3 ∷ []) id
    → Has (targets_at (block_of jump_over id)) to
    → Has (1 ∷ 2 ∷ 3 ∷ []) to
unfolding is_set block_of targets_at targets operand_targets target_of
jump_over_within id to h k = ground arith

jump_over_pruned : prune_dead_blocks jump_over (1 ∷ 2 ∷ 3 ∷ []) none ≡ some (1 ∷ 3 ∷ [])
unfolding prune_dead_blocks entry_of keep_walked keep walk visit is_set block_of targets_at targets
    operand_targets target_of
jump_over_pruned = refl

prune_dead_blocks-Keeps_example :
    (kept : List ℕ) × (prune_dead_blocks jump_over (1 ∷ 2 ∷ 3 ∷ []) none ≡ some kept)
    × ((id : ℕ) → Has kept id ↔ (Has (1 ∷ 2 ∷ 3 ∷ []) id × Leads jump_over (entry_of none 1) id))
    × ((id : ℕ) → Gets jump_over (entry_of none 1) id → Has kept id)
unfolding is_set entry_of
prune_dead_blocks-Keeps_example =
    prune_dead_blocks-Keeps jump_over 1 (2 ∷ 3 ∷ []) none jump_over_within refl
