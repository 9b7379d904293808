-- ===== src/Types/Equality/Tests.antt =====
-- Comparisons and interning of concrete types, and the theorems at them.
use mathlib.Core.Option.{some-injective}
use mathlib.Core.Path.{subst}
use scorivm.Base.Lists.{length}
use scorivm.Base.Logic.{codes, bytes_eq}
use scorivm.Base.{ℕ, zero, suc, ◌<◌, ◌≡◌, refl, true, false, some, List, [], ◌∷◌, arith}
use scorivm.Types.Equality.Intern.{IsValidPool, intern-idempotent}
use scorivm.Types.Equality.Laws.{equals-IsSymm, strict-equals}
use scorivm.Types.Equality.Pool.{Points, IsOlder}
use scorivm.Types.Equality.{type_equals, type_strict_equals, intern_type, type_get_via}
use scorivm.Types.{TypeNode, i32, nullus, scalar, via, enumeration, Types}

abbrev nodes : List TypeNode
nodes =
    scalar i32
    ∷ via (some 0)
    ∷ via (some 0)
    ∷ scalar nullus
    ∷ enumeration (codes "A") []
    ∷ enumeration (codes "B") []
    ∷ []

program : Unit {0}
unfolding type_equals type_strict_equals intern_type type_get_via bytes_eq
program = tt

compare_run :
    (type_equals 5 nodes (some 1) (some 2) ≡ some true)
    × (type_equals 5 nodes (some 3) (some 2) ≡ some true)
    × (type_equals 5 nodes (some 0) (some 2) ≡ some false)
    × (type_strict_equals 5 nodes (some 3) (some 2) ≡ some false)
unfolding program
compare_run = (refl, refl, refl, refl)

equals-IsSymm_example :
    type_equals 5 nodes (some 3) (some 2) ≡ type_equals 5 nodes (some 2) (some 3)
equals-IsSymm_example = equals-IsSymm 5 nodes (some 3) (some 2)

strict-equals_example : type_equals 5 nodes (some 1) (some 2) ≡ some true
strict-equals_example = strict-equals 5 nodes (some 1) (some 2) (unfold program in refl)

abbrev store : Types
store = record { nodes = scalar i32 ∷ via (some 0) ∷ []; interned = 1 ∷ [] }

store-IsValidPool : IsValidPool store
store-IsValidPool = record { older = older; pooled = (omega arith, tt) }
  where
    older : IsOlder (scalar i32 ∷ via (some 0) ∷ [])
    older zero t e = subst (Points (λ j. j < 0)) (some-injective _ _ e) tt
    older (suc zero) t e = subst (Points (λ j. j < 1)) (some-injective _ _ e) (omega arith)
    older (suc (suc r)) t e = absurd (ground arith)

intern_run : type_get_via store (some 0) ≡ some (1, store)
unfolding program
intern_run = refl

intern-idempotent_example :
    (r : ℕ) × (ts' : Types) × (intern_type store (via (some 1)) ≡ some (r, ts'))
    × IsValidPool ts'
    × (r < length ts'.nodes)
    × (intern_type ts' (via (some 1)) ≡ some (r, ts'))
intern-idempotent_example = intern-idempotent store (via (some 1)) store-IsValidPool (omega arith)
