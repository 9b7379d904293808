-- ===== src/Types/Layout/Fields.antt =====
-- Where the fields of a `forma` lie: inside it, apart from one another, and aligned.
use mathlib.Core.Option.{some-injective}
use mathlib.Core.Path.{subst₂}
use scorivm.Base.Lists.{All}
use scorivm.Base.Logic.{ltb, Bytes, bytes_eq, bytes_eq_iff, if◌then◌else◌, Bool-cases}
use scorivm.Base.{
  ℕ, ◌+◌, ◌*◌, ◌/◌, ◌%◌, ◌^◌, ◌≤◌, ◌<◌, ◌≡◌, ◌≢◌, refl, sym, ◌∙◌, ◌⊎◌, inl, inr, Bool, false,
  Option, none, some, List, [], ◌∷◌, arith,
}
use scorivm.Types.Layout.Forward.{
  IsAlign, align_up_bounds, position, extent, width, Fits, place_forward, place_plain,
  position-past, extent-past,
}
use scorivm.Types.Layout.{
  Measured, Cursor, start, place, past, run, forma_size, FieldLayout, report, forma_layout,
}

abbrev pub AllAligned : List Measured → Type 0
AllAligned = All (λ (m : Measured). IsAlign m.align)

-- The field that a name means: the first that has it.
unfoldable pub field_named : List Measured → Bytes → Option Measured
field_named [] name = none
field_named (m ∷ ms) name = if bytes_eq m.name name then some m else field_named ms name

-- The first bit of a field, counted from the start of the `forma`.
abbrev pub first_bit : FieldLayout → ℕ
first_bit l = 8 * l.byte_offset + l.bit_offset

first_bit-report : (d : Bool) (m : Measured) (c : Cursor) → first_bit (report d m c) ≡ position c
unfolding report
first_bit-report d m c = ground arith

-- One field on: the loop goes on from a cursor that has moved past the field, and still fits.
step-Fits :
    (d : Bool) (m : Measured) (ms : List Measured) (c : Cursor)
    → IsAlign m.align
    → Fits c (m ∷ ms)
    → Fits (past m (place d m c)) ms
      × (position c ≤ position (place d m c))
      × (position (past m (place d m c)) ≡ position (place d m c) + width m)
step-Fits d m ms c al h =
    let (forward, near) = place_forward d m c al (omega arith) in
    (omega (arith, extent-past m (place d m c)), forward, position-past m (place d m c))

run-forward :
    (d : Bool) (ms : List Measured) (c : Cursor) (max_align : ℕ)
    → AllAligned ms
    → Fits c ms
    → (position c ≤ position (run d ms c max_align).0)
      × (extent (run d ms c max_align).0 + 16 < 2 ^ 31)
unfolding run
run-forward d [] c max_align al h = omega arith
run-forward d (m ∷ ms) c max_align al h =
    let (fits, forward, moved) = step-Fits d m ms c al.0 h in
    omega (arith, run-forward d ms (past m (place d m c)) _ al.1 fits)

pub run-IsAlign :
    (d : Bool) (ms : List Measured) (c : Cursor) (max_align : ℕ)
    → AllAligned ms
    → IsAlign max_align
    → IsAlign (run d ms c max_align).1
unfolding run
run-IsAlign d [] c max_align al h = h
run-IsAlign d (m ∷ ms) c max_align al h =
    run-IsAlign d ms (past m (place d m c)) _ al.1 (elim (Bool-cases (ltb max_align m.align)) [
      | inl larger ↦ rw larger al.0
      | inr not_larger ↦ rw not_larger h
    ])

-- The cursor behind the last field stays within the size.
pub forma_size-position :
    (d : Bool) (ms : List Measured)
    → AllAligned ms
    → Fits start ms
    → position (run d ms start 1).0 ≤ 8 * forma_size d ms
unfolding forma_size
forma_size-position d ms al h =
    let r = run d ms start 1 in
    let (forward, room) = run-forward d ms start 1 al h in
    let one = run-IsAlign d ms start 1 al (inl refl) in
    ground (
      arith,
      align_up_bounds r.0.byte_offset r.1 one (omega arith),
      align_up_bounds (r.0.byte_offset + (r.0.bit_offset + 7) / 8) r.1 one (omega arith),
    )

-- A field that is found starts behind the cursor and ends before the cursor of the loop's end.
pub record Within (d : Bool) (ms : List Measured) (c : Cursor) (m : Measured) (l : FieldLayout)
    : Type 0 where
  pub after_start : position c ≤ first_bit l
  pub before_end : (max_align : ℕ) → first_bit l + width m ≤ position (run d ms c max_align).0
  pub same_bits : l.bit_size ≡ m.bit_size
  pub plain : m.bit_size ≡ 0 → (l.bit_offset ≡ 0) × (d ≡ false → l.byte_offset % m.align ≡ 0)

here-Within :
    (d : Bool) (k : Measured) (ms : List Measured) (c : Cursor)
    → IsAlign k.align
    → AllAligned ms
    → Fits c (k ∷ ms)
    → Within d (k ∷ ms) c k (report d k (place d k c))
unfolding run report
here-Within d k ms c one al h =
    let at = place d k c in
    let (fits, forward, moved) = step-Fits d k ms c one h in
    let start_at = first_bit-report d k at in
    record {
      after_start = omega arith;
      before_end = λ max_align. omega (arith, run-forward d ms (past k at) _ al fits);
      same_bits = ground arith;
      plain = λ e. ground (arith, place_plain d k c one (omega arith) e);
    }

pub layout-Within :
    (d : Bool) (ms : List Measured) (c : Cursor) (name : Bytes) (m : Measured) (l : FieldLayout)
    → AllAligned ms
    → Fits c ms
    → field_named ms name ≡ some m
    → forma_layout d ms name c ≡ some l
    → Within d ms c m l
unfolding forma_layout field_named run
layout-Within d [] c name m l al h f e = absurd (ground arith)
layout-Within d (k ∷ ms) c name m l al h f e =
    let at = place d k c in
    let (fits, forward, moved) = step-Fits d k ms c al.0 h in
    elim (Bool-cases (bytes_eq k.name name)) [
      | inl here ↦
          subst₂ (Within d (k ∷ ms) c) (some-injective _ _ (rw (here, field_named) at f))
            (some-injective _ _ (rw (here, forma_layout) at e)) (here-Within d k ms c al.0 al.1 h)
      | inr later ↦
          let w =
            layout-Within d ms (past k at) name m l al.1 fits (rw (later, field_named) at f)
              (rw (later, forma_layout) at e) in
          record {
            after_start = let a = w.after_start in omega arith;
            before_end = λ max_align. w.before_end _;
            same_bits = w.same_bits;
            plain = w.plain;
          }
    ]

-- Two fields with different names share no bit, whatever is packed or a bit field.
pub layout_apart :
    (d : Bool) (ms : List Measured) (c : Cursor) (p q : Bytes) (m n : Measured) (l k : FieldLayout)
    → AllAligned ms
    → Fits c ms
    → p ≢ q
    → field_named ms p ≡ some m
    → forma_layout d ms p c ≡ some l
    → field_named ms q ≡ some n
    → forma_layout d ms q c ≡ some k
    → (first_bit l + width m ≤ first_bit k) ⊎ (first_bit k + width n ≤ first_bit l)
unfolding forma_layout field_named
layout_apart d [] c p q m n l k al h ne f e g e' = absurd (ground arith)
layout_apart d (x ∷ ms) c p q m n l k al h ne f e g e' =
    let at = place d x c in
    let (fits, forward, moved) = step-Fits d x ms c al.0 h in
    let at_x : first_bit (report d x at) ≡ position at = first_bit-report d x at in
    elim (Bool-cases (bytes_eq x.name p)) [
      | inl is_p ↦
          let q_later : bytes_eq x.name q ≡ false = elim (Bool-cases (bytes_eq x.name q)) [
            | inl is_q ↦
                absurd (ne (sym ((bytes_eq_iff x.name p).0 is_p) ∙ (bytes_eq_iff x.name q).0 is_q))
            | inr other ↦ other
          ] in
          let w =
            layout-Within d ms (past x at) q n k al.1 fits (rw (q_later, field_named) at g)
              (rw (q_later, forma_layout) at e') in
          let same_m : x ≡ m = some-injective _ _ (rw (is_p, field_named) at f) in
          let same_l : report d x at ≡ l = some-injective _ _ (rw (is_p, forma_layout) at e) in
          inl (
            subst₂ (λ (y : Measured) (r : FieldLayout). first_bit r + width y ≤ first_bit k) same_m
              same_l (let a = w.after_start in omega arith))
      | inr p_later ↦ elim (Bool-cases (bytes_eq x.name q)) [
        | inl is_q ↦
            let w =
              layout-Within d ms (past x at) p m l al.1 fits (rw (p_later, field_named) at f)
                (rw (p_later, forma_layout) at e) in
            let same_n : x ≡ n = some-injective _ _ (rw (is_q, field_named) at g) in
            let same_k : report d x at ≡ k = some-injective _ _ (rw (is_q, forma_layout) at e') in
            inr (
              subst₂ (λ (y : Measured) (r : FieldLayout). first_bit r + width y ≤ first_bit l)
                same_n same_k (let a = w.after_start in omega arith))
        | inr q_later ↦
            layout_apart d ms (past x at) p q m n l k al.1 fits ne (rw (p_later, field_named) at f)
              (rw (p_later, forma_layout) at e) (rw (q_later, field_named) at g)
              (rw (q_later, forma_layout) at e')
      ]
    ]
