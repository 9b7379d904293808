-- ===== src/Types/Layout/Composite.antt =====
-- The layout of a `forma` and of a `unio`, as the exported functions report it.
use mathlib.Core.Option.{some-injective}
use scorivm.Base.Align.{align_up}
use scorivm.Base.Lists.{All, All-map, get_elem?}
use scorivm.Base.Logic.{ltb, Bytes, bytes_eq, bytes_eq_iff, if◌then◌else◌, Bool-cases}
use scorivm.Base.{
  ℕ, suc, ◌+◌, ◌*◌, ◌%◌, ◌^◌, ◌≤◌, ◌<◌, ◌≡◌, ◌≢◌, refl, ◌⊎◌, inl, inr, Bool, true, false, some,
  List, [], ◌∷◌, arith,
}
use scorivm.Types.Layout.Aligned.{align-IsAlign, measure-AllAligned}
use scorivm.Types.Layout.Fields.{
  AllAligned, field_named, first_bit, forma_size-position, layout-Within, layout_apart,
}
use scorivm.Types.Layout.Forward.{IsAlign, align_up_bounds, width, Fits}
use scorivm.Types.Layout.{
  type_get_align, Measured, measure, Cursor, start, forma_size, unio_run, unio_size, node_size,
  type_get_size, FieldLayout, place, past, report, forma_layout, unio_layout, node_layout,
  type_get_field_layout,
}
use scorivm.Types.{StructField, TypeNode, forma, unio}

layout-named :
    (d : Bool) (ms : List Measured) (c : Cursor) (name : Bytes) (l : FieldLayout)
    → forma_layout d ms name c ≡ some l
    → (m : Measured) × (field_named ms name ≡ some m)
unfolding forma_layout field_named
layout-named d [] c name l e = absurd (ground arith)
layout-named d (m ∷ ms) c name l e = elim (Bool-cases (bytes_eq m.name name)) [
  | inl here ↦ (m, rw (here, field_named) refl)
  | inr later ↦
      let (k, found) =
        layout-named d ms (past m (place d m c)) name l (rw (later, forma_layout) at e) in
      (k, rw (later, field_named) found)
]

-- A field that is reported at `l` lies inside `s` bytes; one that is no bit field starts at a whole
-- byte, and at a multiple of its alignment unless the `forma` is packed.
pub record IsPlaced (d : Bool) (s : ℕ) (m : Measured) (l : FieldLayout) : Type 0 where
  pub inside : first_bit l + width m ≤ 8 * s
  pub same_bits : l.bit_size ≡ m.bit_size
  pub plain : m.bit_size ≡ 0 → (l.bit_offset ≡ 0) × (d ≡ false → l.byte_offset % m.align ≡ 0)

module _ (f : ℕ) (nodes : List TypeNode) (r : ℕ) (name : Bytes) (fs : List StructField) (d : Bool)
    (ms : List Measured) (is_forma : get_elem? nodes r ≡ some (forma name fs d))
    (measured : measure (type_get_align f nodes) (type_get_size f nodes) d fs ≡ some ms)
    (fits : Fits start ms) where
  aligned : AllAligned ms
  aligned = measure-AllAligned _ _ d fs ms (align-IsAlign f nodes) measured

  layout_of :
      (p : Bytes) (l : FieldLayout)
      → type_get_field_layout f nodes (some r) p ≡ some (some l)
      → forma_layout d ms p start ≡ some l
  unfolding type_get_field_layout node_layout
  layout_of p l e =
      some-injective _ _ (rw (measured, node_layout) at (rw (is_forma, type_get_field_layout) at e))

  forma-size : type_get_size (suc f) nodes (some r) ≡ some (forma_size d ms)
  unfolding type_get_size node_size
  forma-size = rw (is_forma, type_get_size) (rw (measured, node_size) refl)

  -- In a `forma` whose fields fit below 2 ^ 31 bytes, of two reported fields with different names each lies
  -- inside the size and has the width in bits that it was declared with; one that is no bit field begins
  -- at a whole byte, which is a multiple of its alignment unless the `forma` is packed; and the two share
  -- no bit.
  pub forma-IsPlaced :
      (p q : Bytes) (l k : FieldLayout)
      → type_get_field_layout f nodes (some r) p ≡ some (some l)
      → type_get_field_layout f nodes (some r) q ≡ some (some k)
      → p ≢ q
      → (s : ℕ) × (type_get_size (suc f) nodes (some r) ≡ some s)
        × (m : Measured) × (field_named ms p ≡ some m)
        × (n : Measured) × (field_named ms q ≡ some n)
        × IsPlaced d s m l
        × IsPlaced d s n k
        × ((first_bit l + width m ≤ first_bit k) ⊎ (first_bit k + width n ≤ first_bit l))
  forma-IsPlaced p q l k e e' ne =
      let x = layout_of p l e in
      let y = layout_of q k e' in
      let (m, at_p) = layout-named d ms start p l x in
      let (n, at_q) = layout-named d ms start q k y in
      (
        forma_size d ms,
        forma-size,
        m,
        at_p,
        n,
        at_q,
        placed p m l at_p x,
        placed q n k at_q y,
        layout_apart d ms start p q m n l k aligned fits ne at_p x at_q y,
      )
    where
      placed :
          (p : Bytes) (m : Measured) (l : FieldLayout)
          → field_named ms p ≡ some m
          → forma_layout d ms p start ≡ some l
          → IsPlaced d (forma_size d ms) m l
      placed p m l g x =
          let w = layout-Within d ms start p m l aligned fits g x in
          record {
            inside = omega (arith, w.before_end 1, forma_size-position d ms aligned fits);
            same_bits = w.same_bits;
            plain = w.plain;
          }

-- The loop of a `unio` ends with a size that no field exceeds.
unio_run-bounds :
    (ms : List Measured) (x a : ℕ)
    → AllAligned ms
    → IsAlign a
    → let r = unio_run ms x a in (x ≤ r.0) × All (λ (m : Measured). m.size ≤ r.0) ms × IsAlign r.1
unfolding unio_run
unio_run-bounds [] x a al h = (omega arith, tt, h)
unio_run-bounds (m ∷ ms) x a al h =
    let x' = if ltb x m.size then m.size else x in
    let a' = if ltb a m.align then m.align else a in
    let one : IsAlign a' = elim (Bool-cases (ltb a m.align)) [
      | inl larger ↦ rw larger al.0
      | inr not_larger ↦ rw not_larger h
    ] in
    let bound : (x ≤ x') × (m.size ≤ x') = ground arith in
    let (le, all, last) = unio_run-bounds ms x' a' al.1 one in
    (omega arith, (omega arith, all), last)

module _ (f : ℕ) (nodes : List TypeNode) (r : ℕ) (name : Bytes) (fs : List StructField) (d : Bool)
    (ms : List Measured) (is_unio : get_elem? nodes r ≡ some (unio name fs d))
    (measured : measure (type_get_align f nodes) (type_get_size f nodes) d fs ≡ some ms) where
  -- A `unio` of less than 2 ^ 31 bytes is as large as each of its fields, and every field that is
  -- reported lies at its start.
  pub unio-covers :
      (unio_run ms 0 1).0 < 2 ^ 31
      → (s : ℕ) × (type_get_size (suc f) nodes (some r) ≡ some s)
        × All (λ (m : Measured). m.size ≤ s) ms
        × ((p : Bytes) (l : FieldLayout)
            → type_get_field_layout f nodes (some r) p ≡ some (some l)
            → (l.byte_offset ≡ 0) × (l.bit_offset ≡ 0))
  unfolding type_get_size node_size type_get_field_layout node_layout unio_size
  unio-covers small =
      let al : AllAligned ms = measure-AllAligned _ _ d fs ms (align-IsAlign f nodes) measured in
      let (le, all, one) = unio_run-bounds ms 0 1 al (inl refl) in
      let u = unio_run ms 0 1 in
      let covers : u.0 ≤ unio_size d ms =
        ground (arith, align_up_bounds u.0 u.1 one (omega arith)) in
      (
        unio_size d ms,
        rw (is_unio, type_get_size) (rw (measured, node_size) refl),
        All-map (λ (m : Measured). m.size ≤ u.0) (λ (m : Measured). m.size ≤ unio_size d ms) ms
            (λ m h. omega arith) all,
        λ p l e. at_start fs p l (some-injective _ _ (rw (is_unio, type_get_field_layout) at e)),
      )
    where
      at_start :
          (fs : List StructField) (p : Bytes) (l : FieldLayout)
          → unio_layout fs p ≡ some l
          → (l.byte_offset ≡ 0) × (l.bit_offset ≡ 0)
      at_start [] p l e = absurd (ground arith)
      at_start (x ∷ fs) p l e = elim (Bool-cases (bytes_eq x.name p)) [
        | inl here ↦ ground arith
        | inr later ↦ at_start fs p l (rw (later, unio_layout) at e)
      ]

-- In a natural `forma` of two fields with different names, a bit field of `b` bits, 8 at least, and one of
-- a one-byte type of `b'` bits with `b % 8 + b'` at most 8, the second is reported at a bit offset from
-- which it ends beyond the 8 bits of its storage unit.
pub unit_overrun :
    (p q : Bytes) (s a b b' : ℕ)
    → p ≢ q
    → IsAlign a
    → 8 ≤ b
    → 0 < b'
    → b % 8 + b' ≤ 8
    → let wide : Measured = record { name = p; size = s; align = a; bit_size = b } in
      let narrow : Measured = record { name = q; size = 1; align = 1; bit_size = b' } in
      (l : FieldLayout) × (forma_layout false (wide ∷ narrow ∷ []) q start ≡ some l)
      × (8 * 1 < l.bit_offset + l.bit_size)
unfolding forma_layout place past report
unit_overrun p q s a b b' ne al h pos room =
    let differ : bytes_eq p q ≡ false = elim (Bool-cases (bytes_eq p q)) [
      | inl same ↦ absurd (ne ((bytes_eq_iff p q).0 same))
      | inr other ↦ other
    ] in
    let self : bytes_eq q q ≡ true = (bytes_eq_iff q q).1 refl in
    (
      record { byte_offset = align_up 32 0 a; bit_offset = b; bit_size = b' },
      ground arith,
      omega arith,
    )
