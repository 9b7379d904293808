-- ===== src/Types/Equality/Pool.antt =====
-- The strict comparison of types returns.

use scorivm.Base.Lists.{All, All-map, length, get_elem?, get_elem?_of_lt}
use scorivm.Base.Logic.{◌==◌, bytes_eq, if◌then◌else◌, Bool-cases}
use scorivm.Base.{
  ℕ, zero, suc, ◌+◌, ◌<◌, ◌≡◌, refl, inl, inr, Bool, true, false, Option, none, some, List, [], ◌∷◌,
  arith,
}
use scorivm.Types.Equality.{
  kind, and_then, params_equal, func_equal, payload_equal, payload_strict, node_strict,
  type_strict_equals,
}
use scorivm.Types.{Ref, TypeNode, scalar, via, cohors, acies, forma, unio, enumeration, actio}

-- The pointer is null, or to a type with the property.
abbrev pub OnRef : (ℕ → Type 0) → Ref → Type 0
OnRef P none = Unit
OnRef P (some j) = P j

-- The pointers that a comparison of the type follows.
abbrev pub Points : (ℕ → Type 0) → TypeNode → Type 0
Points P (via x) = OnRef P x
Points P (cohors x) = OnRef P x
Points P (acies x _) = OnRef P x
Points P (actio f) = OnRef P f.return_type × All (OnRef P) f.param_types
Points P _ = Unit

-- Such a pointer is to an older type, since the types are made after what they point to. A field of
-- a `forma` may point to a newer one, but no comparison follows it.
abbrev pub IsOlder : List TypeNode → Type 0
IsOlder nodes = (r : ℕ) (t : TypeNode) → get_elem? nodes r ≡ some t → Points (λ j. j < r) t

abbrev pub Decides : Option Bool → Type 0
Decides o = (b : Bool) × (o ≡ some b)

and_then-Decides : (x y : Option Bool) → Decides x → Decides y → Decides (and_then x y)
and_then-Decides x y (true, e) h = rw e h
and_then-Decides x y (false, e) h = rw e (false, refl)

if-Decides : (b : Bool) (x : Option Bool) → Decides x → Decides (if b then x else some false)
if-Decides true x h = h
if-Decides false x h = (false, refl)

-- The comparison decides on pointers with these properties.
module _ (eq : Ref → Ref → Option Bool) (P Q : ℕ → Type 0)
    (decides : (a b : Ref) → OnRef P a → OnRef Q b → Decides (eq a b)) where
  params-Decides :
      (ps qs : List Ref) → All (OnRef P) ps → All (OnRef Q) qs → Decides (params_equal eq ps qs)
  unfolding params_equal
  params-Decides [] qs h k = (true, refl)
  params-Decides (p ∷ ps) [] h k = (true, refl)
  params-Decides (p ∷ ps) (q ∷ qs) h k =
      and_then-Decides (eq p q) _ (decides p q h.0 k.0) (params-Decides ps qs h.1 k.1)

  payload-Decides : (a b : TypeNode) → Points P a → Points Q b → Decides (payload_strict eq a b)
  unfolding payload_strict payload_equal func_equal
  payload-Decides (via x) (via y) h k = decides x y h k
  payload-Decides (cohors x) (cohors y) h k = decides x y h k
  payload-Decides (acies x n) (acies y m) h k = if-Decides (n == m) (eq x y) (decides x y h k)
  payload-Decides (forma n _ _) (forma m _ _) h k = (bytes_eq n m, refl)
  payload-Decides (unio n _ _) (unio m _ _) h k = (bytes_eq n m, refl)
  payload-Decides (enumeration n _) (enumeration m _) h k = (bytes_eq n m, refl)
  payload-Decides (actio f) (actio g) h k = if-Decides _ _ (
      and_then-Decides (eq f.return_type g.return_type) _
        (decides f.return_type g.return_type h.0 k.0)
        (params-Decides f.param_types g.param_types h.1 k.1))
  payload-Decides (scalar x) (scalar y) h k = (true, refl)
  payload-Decides _ _ h k = (true, refl)

OnRef-map : (P Q : ℕ → Type 0) (r : Ref) → ((j : ℕ) → P j → Q j) → OnRef P r → OnRef Q r
OnRef-map P Q none f h = tt
OnRef-map P Q (some j) f h = f j h

Points-map : (P Q : ℕ → Type 0) (t : TypeNode) → ((j : ℕ) → P j → Q j) → Points P t → Points Q t
Points-map P Q (via x) f h = OnRef-map P Q x f h
Points-map P Q (cohors x) f h = OnRef-map P Q x f h
Points-map P Q (acies x n) f h = OnRef-map P Q x f h
Points-map P Q (actio g) f h = (
  OnRef-map P Q g.return_type f h.0,
  All-map (OnRef P) (OnRef Q) g.param_types (λ r. OnRef-map P Q r f) h.1,
)
Points-map P Q _ f h = tt

-- In a store whose pointers are to older types the strict comparison of two types returns.
pub strict-Decides :
    (nodes : List TypeNode) (f : ℕ) (a b : Ref)
    → IsOlder nodes
    → 0 < f
    → OnRef (λ i. (i + 1 < f) × (i < length nodes)) a
    → OnRef (λ j. j < length nodes) b
    → Decides (type_strict_equals f nodes a b)
unfolding type_strict_equals node_strict
strict-Decides nodes zero a b older pos h k = absurd (omega arith)
strict-Decides nodes (suc f) none none older pos h k = (true, refl)
strict-Decides nodes (suc f) none (some j) older pos h k = (false, refl)
strict-Decides nodes (suc f) (some i) none older pos h k = (false, refl)
strict-Decides nodes (suc f) (some i) (some j) older pos h k =
    let (a, at_i) = get_elem?_of_lt nodes i h.1 in
    let (b, at_j) = get_elem?_of_lt nodes j k in
    let deep : Decides (payload_strict (type_strict_equals f nodes) a b) =
      payload-Decides (type_strict_equals f nodes) (λ x. (x + 1 < f) × (x < length nodes))
        (λ x. x < length nodes) (λ x y p q. strict-Decides nodes f x y older (omega arith) p q) a b
        (Points-map _ _ a (λ x l. (omega arith, omega arith)) (older i a at_i))
        (Points-map _ _ b (λ x l. omega arith) (older j b at_j)) in
    elim (Bool-cases (i == j)) [
      | inl same ↦ (true, rw (same, type_strict_equals) refl)
      | inr differ ↦
          rw (differ, type_strict_equals) (rw (at_i, at_j) (if-Decides (kind a == kind b) _ deep))
    ]
