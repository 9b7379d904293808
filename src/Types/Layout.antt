-- ===== src/Types/Layout.antt =====
-- Alignment, size and the layout of fields. The recursion of the code is on the types that a type
-- contains by value; here it has fuel, and `none` means that it went deeper than the fuel.
-- A bit field's storage unit is not of size 0 (the code would divide by zero).
mod Forward
mod Fields
mod Aligned
mod Total
mod Composite
mod Tests
use scorivm.Base.Align.{align_up}
use scorivm.Base.Lists.{get_elem?}
use scorivm.Base.Logic.{◌>>=◌, ◌==◌, ltb, leb, Bytes, bytes_eq, if◌then◌else◌}
use scorivm.Base.{
  ℕ, zero, suc, ◌+◌, ◌-◌, ◌*◌, ◌/◌, ◌%◌, ◌^◌, Bool, true, false, not, ◌&&◌, Option, none, some,
  List, [], ◌∷◌,
}
use scorivm.Types.{
  ScalarKind, unknown, nihil, nullus, i8, i16, i32, i64, p8, p16, p32, p64, f32, f64, logica,
  littera, module_ns, Ref, StructField, TypeNode, scalar, via, cohors, acies, forma, unio,
  enumeration, actio,
}

pub scalar_align : ScalarKind → ℕ
scalar_align nihil = 1
scalar_align unknown = 1
scalar_align nullus = 8
scalar_align i8 = 1
scalar_align p8 = 1
scalar_align littera = 1
scalar_align logica = 1
scalar_align i16 = 2
scalar_align p16 = 2
scalar_align i32 = 4
scalar_align p32 = 4
scalar_align f32 = 4
scalar_align i64 = 8
scalar_align p64 = 8
scalar_align f64 = 8
scalar_align module_ns = 8

-- The loop over the fields that keeps the largest alignment.
pub fields_align : (Ref → Option ℕ) → List StructField → ℕ → Option ℕ
fields_align align [] max_align = some max_align
fields_align align (f ∷ fs) max_align = do
  a ← align f.type
  fields_align align fs (if ltb max_align a then a else max_align)

-- The switch of `type_get_align`, over its recursive call.
pub node_align : (Ref → Option ℕ) → TypeNode → Option ℕ
unfolding scalar_align fields_align
node_align align (scalar k) = some (scalar_align k)
node_align align (via _) = some 8
node_align align (cohors _) = some 8
node_align align (acies inner _) = align inner
node_align align (forma _ fields is_densa) =
    if is_densa then some 1 else fields_align align fields 1
node_align align (unio _ fields is_densa) = if is_densa then some 1 else fields_align align fields 1
node_align align (enumeration _ _) = some 4
node_align align (actio _) = some 8

pub type_get_align : ℕ → List TypeNode → Ref → Option ℕ
unfolding node_align
type_get_align zero nodes r = none
type_get_align (suc f) nodes none = some 1
type_get_align (suc f) nodes (some r) = do
  t ← get_elem? nodes r
  node_align (type_get_align f nodes) t

-- What the layout needs of a field: `field_size` and `field_align` of the code.
pub record Measured : Type 0 where
  pub name : Bytes
  pub size : ℕ
  pub align : ℕ
  pub bit_size : ℕ

pub measure : (Ref → Option ℕ) → (Ref → Option ℕ) → Bool → List StructField → Option (List Measured)
measure align size is_densa [] = some []
measure align size is_densa (f ∷ fs) = do
  s ← size f.type
  a ← if is_densa then some 1 else align f.type
  rest ← measure align size is_densa fs
  some (record { name = f.name; size = s; align = a; bit_size = f.bit_size } ∷ rest)

pub record Cursor : Type 0 where
  pub byte_offset : ℕ
  pub bit_offset : ℕ

abbrev pub start : Cursor
start = record { byte_offset = 0; bit_offset = 0 }

-- Bytes that a run of bit fields has filled are closed.
abbrev pub flush : Cursor → Cursor
flush c = record { byte_offset = c.byte_offset + (c.bit_offset + 7) / 8; bit_offset = 0 }

abbrev pub align_cursor : ℕ → Cursor → Cursor
align_cursor a c = record c { byte_offset = align_up 32 c.byte_offset a }

-- Where a field is put, for the cursor behind the field before it.
pub place : Bool → Measured → Cursor → Cursor
place is_densa m c =
    if ltb 0 m.bit_size
    then if is_densa
      then c
      else if ltb 0 c.bit_offset && ltb (m.size * 8) (c.bit_offset % (m.size * 8) + m.bit_size)
      then align_cursor m.align (flush c)
      else if c.bit_offset == 0
      then align_cursor m.align c
      else c
    else (let closed = if ltb 0 c.bit_offset then flush c else c in
        if is_densa then closed else align_cursor m.align closed)

-- The cursor behind a field that is put at `c`.
pub past : Measured → Cursor → Cursor
past m c =
    if ltb 0 m.bit_size
    then record c { bit_offset = c.bit_offset + m.bit_size }
    else record c { byte_offset = c.byte_offset + m.size }

-- The loop of the size of a `forma` over its fields, with the largest alignment.
pub run : Bool → List Measured → Cursor → ℕ → Cursor × ℕ
unfolding place past
run is_densa [] c max_align = (c, max_align)
run is_densa (m ∷ ms) c max_align =
    run is_densa ms (past m (place is_densa m c))
      (if ltb max_align m.align then m.align else max_align)

pub forma_size : Bool → List Measured → ℕ
unfolding run
forma_size is_densa ms =
    let (c, max_align) = run is_densa ms start 1 in
    let byte_offset =
      if ltb 0 c.bit_offset then c.byte_offset + (c.bit_offset + 7) / 8 else c.byte_offset in
    if is_densa then byte_offset else align_up 32 byte_offset max_align

-- The loop of the size of a `unio`: the largest size and the largest alignment.
pub unio_run : List Measured → ℕ → ℕ → ℕ × ℕ
unio_run [] max_size max_align = (max_size, max_align)
unio_run (m ∷ ms) max_size max_align =
    unio_run ms (if ltb max_size m.size then m.size else max_size)
      (if ltb max_align m.align then m.align else max_align)

pub unio_size : Bool → List Measured → ℕ
unfolding unio_run
unio_size is_densa ms =
    let (max_size, max_align) = unio_run ms 0 1 in
    if is_densa then max_size else align_up 32 max_size max_align

pub scalar_size : ScalarKind → ℕ
scalar_size nihil = 0
scalar_size unknown = 0
scalar_size nullus = 8
scalar_size i8 = 1
scalar_size p8 = 1
scalar_size littera = 1
scalar_size logica = 1
scalar_size i16 = 2
scalar_size p16 = 2
scalar_size i32 = 4
scalar_size p32 = 4
scalar_size f32 = 4
scalar_size i64 = 8
scalar_size p64 = 8
scalar_size f64 = 8
scalar_size module_ns = 8

-- The switch of `type_get_size`. The product of an array's length and size is a `uint32_t`.
pub node_size : (Ref → Option ℕ) → (Ref → Option ℕ) → TypeNode → Option ℕ
unfolding scalar_size measure forma_size unio_size
node_size align size (scalar k) = some (scalar_size k)
node_size align size (via _) = some 8
node_size align size (cohors _) = some 16
node_size align size (acies inner length) = do s ← size inner; some (length * s % 2 ^ 32)
node_size align size (forma _ fields is_densa) = do
  ms ← measure align size is_densa fields
  some (forma_size is_densa ms)
node_size align size (unio _ fields is_densa) = do
  ms ← measure align size is_densa fields
  some (unio_size is_densa ms)
node_size align size (enumeration _ _) = some 4
node_size align size (actio _) = some 8

pub type_get_size : ℕ → List TypeNode → Ref → Option ℕ
unfolding node_size type_get_align
type_get_size zero nodes r = none
type_get_size (suc f) nodes none = some 0
type_get_size (suc f) nodes (some r) = do
  t ← get_elem? nodes r
  node_size (type_get_align f nodes) (type_get_size f nodes) t

-- The out parameters of `type_get_field_layout`.
pub record FieldLayout : Type 0 where
  pub byte_offset : ℕ
  pub bit_offset : ℕ
  pub bit_size : ℕ

-- What is reported for a field that is put at `c`.
pub report : Bool → Measured → Cursor → FieldLayout
report is_densa m c =
    if is_densa
    then record {
      byte_offset = c.byte_offset + c.bit_offset / 8;
      bit_offset = c.bit_offset % 8;
      bit_size = m.bit_size;
    }
    else record { byte_offset = c.byte_offset; bit_offset = c.bit_offset; bit_size = m.bit_size }

-- The loop of `type_get_field_layout` over the fields of a `forma`.
pub forma_layout : Bool → List Measured → Bytes → Cursor → Option FieldLayout
unfolding place past report
forma_layout is_densa [] name c = none
forma_layout is_densa (m ∷ ms) name c =
    let at = place is_densa m c in
    if bytes_eq m.name name
    then some (report is_densa m at)
    else forma_layout is_densa ms name (past m at)

-- Its loop over the fields of a `unio`.
pub unio_layout : List StructField → Bytes → Option FieldLayout
unio_layout [] name = none
unio_layout (f ∷ fs) name =
    if bytes_eq f.name name
    then some (record { byte_offset = 0; bit_offset = 0; bit_size = f.bit_size })
    else unio_layout fs name

-- The outer option is the fuel, the inner one the result `false`. Every field is measured, also
-- those behind the one that is looked for.
pub node_layout :
    (Ref → Option ℕ) → (Ref → Option ℕ) → TypeNode → Bytes → Option (Option FieldLayout)
unfolding measure forma_layout unio_layout
node_layout align size (forma _ fields is_densa) name = do
  ms ← measure align size is_densa fields
  some (forma_layout is_densa ms name start)
node_layout align size (unio _ fields is_densa) name = some (unio_layout fields name)
node_layout align size _ name = some none

pub type_get_field_layout : ℕ → List TypeNode → Ref → Bytes → Option (Option FieldLayout)
unfolding node_layout type_get_size
type_get_field_layout f nodes none name = some none
type_get_field_layout f nodes (some r) name = do
  t ← get_elem? nodes r
  node_layout (type_get_align f nodes) (type_get_size f nodes) t name

-- The result -1 of `type_get_field_offset` is the inner `none`.
pub type_get_field_offset : ℕ → List TypeNode → Ref → Bytes → Option (Option ℕ)
unfolding type_get_field_layout
type_get_field_offset f nodes r name = do
  l ← type_get_field_layout f nodes r name
  some (elim l [ none ↦ none | some x ↦ some x.byte_offset ])
