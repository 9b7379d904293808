-- ===== src/Types/Layout/Tests.antt =====
-- Layouts of concrete types, and the theorems at them.
use mathlib.Core.Option.{some-injective}
use mathlib.Core.Path.{subst}
use scorivm.Base.Lists.{All}
use scorivm.Base.Align.{align_up}
use scorivm.Base.Logic.{Bytes, codes, bytes_eq, bytes_eq_iff, ◌==◌, if◌then◌else◌}
use scorivm.Base.{
  ℕ, zero, suc, ◌+◌, ◌*◌, ◌%◌, ◌≤◌, ◌<◌, ◌≡◌, ◌≢◌, refl, ◌⊎◌, inl, false, none, some, List, [], ◌∷◌,
  arith,
}
use scorivm.Types.Layout.Aligned.{size-mod-IsAlign}
use scorivm.Types.Layout.Composite.{IsPlaced, forma-IsPlaced, unio-covers, unit_overrun}
use scorivm.Types.Layout.Fields.{field_named, first_bit}
use scorivm.Types.Layout.Forward.{IsAlign, width}
use scorivm.Types.Layout.Total.{Contains, IsRanked, Returns, size-Returns, self_contained-diverges}
use scorivm.Types.Layout.{
  type_get_align, Measured, measure, start, unio_run, type_get_size, FieldLayout, forma_layout,
  type_get_field_layout, type_get_field_offset,
}
use scorivm.Types.{StructField, TypeNode, i8, i32, p8, scalar, acies, forma, unio}

abbrev field : Bytes → ℕ → ℕ → StructField
field name type bit_size = record { name = name; type = some type; bit_size = bit_size }

-- forma S { a : i8; b : i32; c : p8 (3 bits); d : p8 (7 bits) }
abbrev fields : List StructField
fields =
    field (codes "a") 1 0
    ∷ field (codes "b") 2 0
    ∷ field (codes "c") 3 3
    ∷ field (codes "d") 3 7
    ∷ []

abbrev choices : List StructField
choices = field (codes "s") 0 0 ∷ field (codes "x") 1 0 ∷ []

abbrev nodes : List TypeNode
nodes =
    forma (codes "S") fields false
    ∷ scalar i8
    ∷ scalar i32
    ∷ scalar p8
    ∷ acies (some 0) 3
    ∷ unio (codes "U") choices false
    ∷ forma (codes "R") (field (codes "r") 6 0 ∷ []) false
    ∷ []

program : Unit {0}
unfolding type_get_size type_get_align type_get_field_layout type_get_field_offset measure
    field_named unio_run bytes_eq align_up
program = tt

distinct : (p q : Bytes) → bytes_eq p q ≡ false → p ≢ q
distinct p q h e = let back = (bytes_eq_iff p q).1 e in ground arith

sizes_run :
    (type_get_size 5 nodes (some 0) ≡ some 12)
    × (type_get_align 5 nodes (some 0) ≡ some 4)
    × (type_get_size 5 nodes (some 4) ≡ some 36)
    × (type_get_size 5 nodes (some 5) ≡ some 12)
    × (type_get_field_offset 5 nodes (some 0) (codes "d") ≡ some (some 9))
    × (type_get_field_offset 5 nodes (some 0) (codes "z") ≡ some none)
unfolding program
sizes_run = (refl, refl, refl, refl, refl, refl)

abbrev measured : Bytes → ℕ → ℕ → ℕ → Measured
measured name size align bit_size = record {
  name = name;
  size = size;
  align = align;
  bit_size = bit_size;
}

abbrev ms : List Measured
ms =
    measured (codes "a") 1 1 0
    ∷ measured (codes "b") 4 4 0
    ∷ measured (codes "c") 1 1 3
    ∷ measured (codes "d") 1 1 7
    ∷ []

abbrev at : ℕ → ℕ → ℕ → FieldLayout
at byte bit bits = record { byte_offset = byte; bit_offset = bit; bit_size = bits }

forma-IsPlaced_example :
    (s : ℕ) × (type_get_size 5 nodes (some 0) ≡ some s)
    × (m : Measured) × (field_named ms (codes "c") ≡ some m)
    × (n : Measured) × (field_named ms (codes "d") ≡ some n)
    × IsPlaced false s m (at 8 0 3)
    × IsPlaced false s n (at 9 0 7)
    × ((first_bit (at 8 0 3) + width m ≤ first_bit (at 9 0 7))
        ⊎ (first_bit (at 9 0 7) + width n ≤ first_bit (at 8 0 3)))
forma-IsPlaced_example =
    forma-IsPlaced 4 nodes 0 (codes "S") fields false ms refl (unfold program in refl) (omega arith)
      (codes "c") (codes "d") (at 8 0 3) (at 9 0 7) (unfold program in refl)
      (unfold program in refl) (distinct _ _ (unfold program in refl))

unio-covers_example :
    (s : ℕ) × (type_get_size 5 nodes (some 5) ≡ some s)
    × All
        (λ (m : Measured). m.size ≤ s)
        (measured (codes "s") 12 4 0 ∷ measured (codes "x") 1 1 0 ∷ [])
    × ((p : Bytes) (l : FieldLayout)
        → type_get_field_layout 4 nodes (some 5) p ≡ some (some l)
        → (l.byte_offset ≡ 0) × (l.bit_offset ≡ 0))
unio-covers_example =
    unio-covers 4 nodes 5 (codes "U") choices false
      (measured (codes "s") 12 4 0 ∷ measured (codes "x") 1 1 0 ∷ []) refl (unfold program in refl)
      (unfold program in omega arith)

unit_overrun_example :
    (l : FieldLayout) × (forma_layout false
        (measured (codes "w") 4 4 20 ∷ measured (codes "n") 1 1 4 ∷ [])
        (codes "n")
        start
      ≡ some l)
    × (8 * 1 < l.bit_offset + l.bit_size)
unit_overrun_example =
    unit_overrun (codes "w") (codes "n") 4 4 20 4 (distinct _ _ (unfold program in refl))
      (omega arith) (omega arith) (omega arith) (omega arith)

size-mod-IsAlign_example : IsAlign 4 × (12 % 4 ≡ 0)
size-mod-IsAlign_example =
    size-mod-IsAlign 5 nodes (some 0) 12 4 (unfold program in refl) (unfold program in refl)

-- The types without the one that contains itself.
abbrev finite : List TypeNode
finite = forma (codes "S") fields false ∷ scalar i8 ∷ scalar i32 ∷ scalar p8 ∷ acies (some 0) 3 ∷ []

abbrev rank : ℕ → ℕ
rank r = if r == 4 then 2 else if r == 0 then 1 else 0

finite-IsRanked : IsRanked finite rank
finite-IsRanked zero t e =
    subst (Contains (λ j. (j < 5) × (rank j < 1))) (some-injective _ _ e) (omega arith)
finite-IsRanked (suc zero) t e =
    subst (Contains (λ j. (j < 5) × (rank j < 0))) (some-injective _ _ e) tt
finite-IsRanked (suc (suc zero)) t e =
    subst (Contains (λ j. (j < 5) × (rank j < 0))) (some-injective _ _ e) tt
finite-IsRanked (suc (suc (suc zero))) t e =
    subst (Contains (λ j. (j < 5) × (rank j < 0))) (some-injective _ _ e) tt
finite-IsRanked (suc (suc (suc (suc zero)))) t e =
    subst (Contains (λ j. (j < 5) × (rank j < 2))) (some-injective _ _ e) (omega arith)
finite-IsRanked (suc (suc (suc (suc (suc r))))) t e = absurd (ground arith)

size-Returns_example :
    Returns (type_get_size 4 finite (some 4)) × Returns (type_get_align 4 finite (some 4))
size-Returns_example = size-Returns finite rank finite-IsRanked 4 4 (omega arith) (omega arith)

self_contained-diverges_example : type_get_size 9 nodes (some 6) ≡ none
self_contained-diverges_example =
    self_contained-diverges nodes 6 (codes "R") (field (codes "r") 6 0 ∷ []) false refl (inl refl) 9
