-- ===== src/Types.antt =====
-- The types of src/middleend/types.c. A `ScorivmType *` is an index into the store of types, in the
-- order of creation, or `none` for the null pointer. Names are the text of their token.
pub mod Layout
mod Equality
use scorivm.Base.Lists.{length, get_elem?, set}
use scorivm.Base.Logic.{leb, Bytes, if◌then◌else◌}
use scorivm.Base.{
  ℕ, zero, suc, ◌+◌, ◌%◌, ◌^◌, Bool, true, false, ◌&&◌, Option, none, some, List, [], ◌∷◌, ◌++◌,
}

-- The kinds of `TypeKind` that have no payload.
pub data ScalarKind : Type 0 where
  unknown nihil nullus i8 i16 i32 i64 p8 p16 p32 p64 f32 f64 logica littera module_ns : ScalarKind

abbrev pub Ref : Type 0
Ref = Option ℕ

-- `bit_size` is 0 for a field that is no bit field.
pub record StructField : Type 0 where
  pub name : Bytes
  pub type : Ref
  pub bit_size : ℕ

-- `value` is the bit pattern of an `int64_t`.
pub record EnumVariant : Type 0 where
  pub name : Bytes
  pub value : ℕ

pub record FuncType : Type 0 where
  pub return_type : Ref
  pub param_types : List Ref
  pub is_variadic : Bool
  pub is_native_variadic : Bool

-- A `ScorivmType`: its kind, and the member of the union that the kind selects.
pub data TypeNode : Type 0 where
  scalar : ScalarKind → TypeNode
  via : Ref → TypeNode
  cohors : Ref → TypeNode
  acies : Ref → ℕ → TypeNode
  forma : Bytes → List StructField → Bool → TypeNode
  unio : Bytes → List StructField → Bool → TypeNode
  enumeration : Bytes → List EnumVariant → TypeNode
  actio : FuncType → TypeNode

-- All types made so far, and the pool of interned ones, the newest first.
pub record Types : Type 0 where
  pub nodes : List TypeNode
  pub interned : List ℕ

-- The singletons of `basic_types`, with a placeholder for each kind that has a payload.
abbrev pub basic_types : List TypeNode
basic_types =
    scalar unknown
    ∷ scalar nihil
    ∷ scalar nullus
    ∷ scalar i8
    ∷ scalar i16
    ∷ scalar i32
    ∷ scalar i64
    ∷ scalar p8
    ∷ scalar p16
    ∷ scalar p32
    ∷ scalar p64
    ∷ scalar f32
    ∷ scalar f64
    ∷ scalar logica
    ∷ scalar littera
    ∷ via none
    ∷ cohors none
    ∷ acies none 0
    ∷ forma [] [] false
    ∷ unio [] [] false
    ∷ enumeration [] []
    ∷ actio (record {
      return_type = none;
      param_types = [];
      is_variadic = false;
      is_native_variadic = false;
    })
    ∷ scalar module_ns
    ∷ []

pub types_init : Types
types_init = record { nodes = basic_types; interned = [] }

-- `&basic_types[kind]`; `TY_UNKNOWN` for what is no kind
pub type_get_basic : ℕ → ℕ
type_get_basic kind = if leb 0 kind && leb kind 22 then kind else 0

-- A new type that is not interned, and its pointer.
abbrev pub alloc_type : Types → TypeNode → ℕ × Types
alloc_type ts t = (length ts.nodes, record ts { nodes = ts.nodes ++ t ∷ [] })

pub type_create_forma : Types → Bytes → Bool → ℕ × Types
type_create_forma ts name is_densa = alloc_type ts (forma name [] is_densa)

pub type_create_unio : Types → Bytes → Bool → ℕ × Types
type_create_unio ts name is_densa = alloc_type ts (unio name [] is_densa)

pub type_create_enum : Types → Bytes → ℕ × Types
type_create_enum ts name = alloc_type ts (enumeration name [])

pub type_create_actio : Types → FuncType → ℕ × Types
type_create_actio ts f = alloc_type ts (actio f)

pub add_field : TypeNode → StructField → TypeNode
add_field (forma n fields d) f = forma n (fields ++ f ∷ []) d
add_field (unio n fields d) f = unio n (fields ++ f ∷ []) d
add_field t f = t

pub add_variant : TypeNode → EnumVariant → TypeNode
add_variant (enumeration n vs) v = enumeration n (vs ++ v ∷ [])
add_variant t v = t

-- The object behind a pointer is updated in place, so every holder of the pointer sees the change.
update_node : Types → ℕ → (TypeNode → TypeNode) → Types
update_node ts r f = elim (get_elem? ts.nodes r) [
  | none ↦ ts
  | some t ↦ record ts { nodes = set ts.nodes r (f t) }
]

pub type_forma_add_field : Types → ℕ → StructField → Types
unfolding add_field update_node
type_forma_add_field ts r f = update_node ts r (λ t. add_field t f)

pub type_enum_add_variant : Types → ℕ → EnumVariant → Types
unfolding add_variant update_node
type_enum_add_variant ts r v = update_node ts r (λ t. add_variant t v)

pub type_is_signed : Option TypeNode → Bool
type_is_signed (some (scalar i8)) = true
type_is_signed (some (scalar i16)) = true
type_is_signed (some (scalar i32)) = true
type_is_signed (some (scalar i64)) = true
type_is_signed (some (enumeration _ _)) = true
type_is_signed _ = false

pub type_is_unsigned : Option TypeNode → Bool
type_is_unsigned (some (scalar p8)) = true
type_is_unsigned (some (scalar p16)) = true
type_is_unsigned (some (scalar p32)) = true
type_is_unsigned (some (scalar p64)) = true
type_is_unsigned (some (scalar littera)) = true
type_is_unsigned (some (scalar logica)) = true
type_is_unsigned _ = false
