-- ===== src/Builder.antt =====
-- The builder of the intermediate form: src/ir/ir_builder.c and src/ir/ir_builder.h. A node of the arena is a
-- int_result that counts up, and two pointers are equal when their numbers are; allocation does not fail. A
-- block is its `id`, which no other block of the module has. The fields that only the lowering and the
-- passes behind it read are left out.
pub mod Fold
pub mod Instructions
pub mod Control
pub mod Reachable
pub mod Labels
pub mod Prune
mod Tests
use scorivm.Base.Lists.{length, set, get_elem?}
use scorivm.Base.Logic.{Bytes, bytes_eq, codes, leb, ◌==◌, if◌then◌else◌}
use scorivm.Base.{
  ℕ, zero, suc, ◌+◌, ◌-◌, Bool, true, false, ◌&&◌, ◌||◌, Option, none, some, List, [], ◌∷◌, ◌++◌,
}
use scorivm.Sir.{SirOpcode, sir_ret, sir_jmp, sir_br, sir_switch, sir_trap, SirValue}
use scorivm.Types.{Ref}

pub record Value : Type 0 where
  pub address : ℕ
  pub type : Ref
  pub content : SirValue

-- The operands that an instruction was given; a null pointer is `none`.
pub record Inst : Type 0 where
  pub opcode : SirOpcode
  pub dest : Option Value
  pub operands : List (Option Value)

pub record BasicBlock : Type 0 where
  pub id : ℕ
  pub name : Bytes
  pub insts : List Inst

-- A function with the ids of its blocks.
pub record Function : Type 0 where
  pub name : Bytes
  pub type : Ref
  pub blocks : List ℕ

pub record GlobalVar : Type 0 where
  pub name : Bytes
  pub type : Ref
  pub size : ℕ
  pub init_data : Option Bytes

pub record ExternFunc : Type 0 where
  pub name : Bytes
  pub dll_name : Bytes

pub record Module : Type 0 where
  pub funcs : List Function
  pub globals : List GlobalVar
  pub externs : List ExternFunc

-- `current_func` is a place in `funcs`; `blocks` are all that were created.
pub record IrBuilder : Type 0 where
  pub contents : Module
  pub current_func : Option ℕ
  pub current_block : Option ℕ
  pub blocks : List BasicBlock
  pub next_vreg : ℕ
  pub next_block_id : ℕ
  pub next_address : ℕ

abbrev pub ir_builder_init : IrBuilder
ir_builder_init = record {
  contents = record { funcs = []; globals = []; externs = [] };
  current_func = none;
  current_block = none;
  blocks = [];
  next_vreg = 1;
  next_block_id = 1;
  next_address = 1;
}

abbrev pub with_contents : IrBuilder → Module → IrBuilder
with_contents b contents = record {
  contents = contents;
  current_func = b.current_func;
  current_block = b.current_block;
  blocks = b.blocks;
  next_vreg = b.next_vreg;
  next_block_id = b.next_block_id;
  next_address = b.next_address;
}

abbrev pub with_blocks : IrBuilder → List BasicBlock → IrBuilder
with_blocks b blocks = record {
  contents = b.contents;
  current_func = b.current_func;
  current_block = b.current_block;
  blocks = blocks;
  next_vreg = b.next_vreg;
  next_block_id = b.next_block_id;
  next_address = b.next_address;
}

pub ir_builder_create_global : IrBuilder → Bytes → Ref → ℕ → Option Bytes → IrBuilder
ir_builder_create_global b name type size init_data = with_contents b (record {
  funcs = b.contents.funcs;
  globals =
      b.contents.globals
      ++ (record { name = name; type = type; size = size; init_data = init_data } ∷ []);
  externs = b.contents.externs;
})

take_bytes : ℕ → Bytes → Bytes
take_bytes zero bs = []
take_bytes (suc n) [] = []
take_bytes (suc n) (c ∷ bs) = c ∷ take_bytes n bs

-- The name of a library without its quotes, where it has two of them at least.
pub dll_name_of : Option Bytes → Bytes
dll_name_of (some (q ∷ c ∷ rest)) = take_bytes (length (q ∷ c ∷ rest) - 2) (c ∷ rest)
dll_name_of _ = codes "msvcrt.dll"

pub ir_builder_add_extern : IrBuilder → Bytes → Option Bytes → IrBuilder
ir_builder_add_extern b name dll = with_contents b (record {
  funcs = b.contents.funcs;
  globals = b.contents.globals;
  externs = b.contents.externs ++ (record { name = name; dll_name = dll_name_of dll } ∷ []);
})

-- Registers are counted from 1 again; the insertion point stays.
unfoldable pub ir_builder_create_function : IrBuilder → Bytes → Ref → IrBuilder
ir_builder_create_function b name type = record {
  contents = record {
    funcs = b.contents.funcs ++ (record { name = name; type = type; blocks = [] } ∷ []);
    globals = b.contents.globals;
    externs = b.contents.externs;
  };
  current_func = some (length b.contents.funcs);
  current_block = b.current_block;
  blocks = b.blocks;
  next_vreg = 1;
  next_block_id = b.next_block_id;
  next_address = b.next_address;
}

abbrev pub add_id : ℕ → Function → Function
add_id id f = record { name = f.name; type = f.type; blocks = f.blocks ++ (id ∷ []) }

abbrev pub func_at : List Function → Option ℕ → Option Function
func_at funcs none = none
func_at funcs (some i) = get_elem? funcs i

abbrev pub set_func : List Function → Option ℕ → ℕ → Option Function → List Function
set_func funcs (some i) id (some f) = set funcs i (add_id id f)
set_func funcs _ id _ = funcs

-- The functions with a block added to the current one.
abbrev pub link_block : IrBuilder → ℕ → List Function
link_block b id =
    set_func b.contents.funcs b.current_func id (func_at b.contents.funcs b.current_func)

unfoldable pub ir_builder_create_block : IrBuilder → Bytes → ℕ × IrBuilder
ir_builder_create_block b name = (
  b.next_block_id,
  record {
    contents = record {
      funcs = link_block b b.next_block_id;
      globals = b.contents.globals;
      externs = b.contents.externs;
    };
    current_func = b.current_func;
    current_block = b.current_block;
    blocks = b.blocks ++ (record { id = b.next_block_id; name = name; insts = [] } ∷ []);
    next_vreg = b.next_vreg;
    next_block_id = b.next_block_id + 1;
    next_address = b.next_address;
  },
)

abbrev pub ir_builder_set_insert_point : IrBuilder → Option ℕ → IrBuilder
ir_builder_set_insert_point b block = record {
  contents = b.contents;
  current_func = b.current_func;
  current_block = block;
  blocks = b.blocks;
  next_vreg = b.next_vreg;
  next_block_id = b.next_block_id;
  next_address = b.next_address;
}

unfoldable pub block_of : List BasicBlock → ℕ → Option BasicBlock
block_of [] id = none
block_of (x ∷ blocks) id = if x.id == id then some x else block_of blocks id

-- The first block of a function that has the name.
abbrev pub named_or : Bytes → ℕ → Option BasicBlock → Option ℕ → Option ℕ
named_or name id none later = later
named_or name id (some x) later = if bytes_eq x.name name then some id else later

unfoldable pub find_label : List BasicBlock → List ℕ → Bytes → Option ℕ
find_label blocks [] name = none
find_label blocks (id ∷ ids) name =
    named_or name id (block_of blocks id) (find_label blocks ids name)

abbrev pub ids_of : Option Function → List ℕ
ids_of none = []
ids_of (some f) = f.blocks

abbrev pub current_ids : IrBuilder → List ℕ
current_ids b = ids_of (func_at b.contents.funcs b.current_func)

unfoldable pub found_or_created : IrBuilder → Bytes → Option ℕ → ℕ × IrBuilder
found_or_created b name (some id) = (id, b)
found_or_created b name none = ir_builder_create_block b name

unfoldable pub ir_builder_get_or_create_label_block : IrBuilder → Bytes → ℕ × IrBuilder
ir_builder_get_or_create_label_block b name =
    found_or_created b (codes "lbl_" ++ name)
      (find_label b.blocks (current_ids b) (codes "lbl_" ++ name))
