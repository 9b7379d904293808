-- ===== src/Types/Equality.antt =====
-- The comparisons of types and the pool of interned types. The recursion is on the types that the
-- compared ones point to; here it has fuel, and `none` means that it went deeper than the fuel.
mod Laws
mod Pool
mod Intern
mod Tests
use scorivm.Base.Lists.{length, get_elem?}
use scorivm.Base.Logic.{◌>>=◌, ◌==◌, Bytes, bytes_eq, if◌then◌else◌}
use scorivm.Base.{
  ℕ, zero, suc, ◌+◌, Bool, true, false, ◌&&◌, ◌||◌, Option, none, some, List, [], ◌∷◌, ◌++◌,
}
use scorivm.Types.{
  ScalarKind, unknown, nihil, nullus, i8, i16, i32, i64, p8, p16, p32, p64, f32, f64, logica,
  littera, module_ns, Ref, FuncType, TypeNode, scalar, via, cohors, acies, forma, unio, enumeration,
  actio, Types,
}

-- The value of the enumeration `TypeKind`.
pub kind : TypeNode → ℕ
kind (scalar unknown) = 0
kind (scalar nihil) = 1
kind (scalar nullus) = 2
kind (scalar i8) = 3
kind (scalar i16) = 4
kind (scalar i32) = 5
kind (scalar i64) = 6
kind (scalar p8) = 7
kind (scalar p16) = 8
kind (scalar p32) = 9
kind (scalar p64) = 10
kind (scalar f32) = 11
kind (scalar f64) = 12
kind (scalar logica) = 13
kind (scalar littera) = 14
kind (via _) = 15
kind (cohors _) = 16
kind (acies _ _) = 17
kind (forma _ _ _) = 18
kind (unio _ _ _) = 19
kind (enumeration _ _) = 20
kind (actio _) = 21
kind (scalar module_ns) = 22

abbrev pub ref_eq : Ref → Ref → Bool
ref_eq none none = true
ref_eq (some i) (some j) = i == j
ref_eq none (some _) = false
ref_eq (some _) none = false

abbrev pub bool_eq : Bool → Bool → Bool
bool_eq true b = b
bool_eq false true = false
bool_eq false false = true

-- The test goes on only while it holds.
abbrev pub and_then : Option Bool → Option Bool → Option Bool
and_then none b = none
and_then (some true) b = b
and_then (some false) b = some false

-- The loop over the parameters, after their numbers were found equal.
pub params_equal : (Ref → Ref → Option Bool) → List Ref → List Ref → Option Bool
params_equal eq [] qs = some true
params_equal eq (p ∷ ps) [] = some true
params_equal eq (p ∷ ps) (q ∷ qs) = and_then (eq p q) (params_equal eq ps qs)

-- The case `TY_ACTIO` of both comparisons.
pub func_equal : (Ref → Ref → Option Bool) → FuncType → FuncType → Option Bool
unfolding params_equal
func_equal eq a b =
    if length a.param_types == length b.param_types
      && bool_eq a.is_variadic b.is_variadic
      && bool_eq a.is_native_variadic b.is_native_variadic
    then and_then (eq a.return_type b.return_type) (params_equal eq a.param_types b.param_types)
    else some false

-- The switch of `type_equals` on two types of one kind.
pub payload_equal : (Ref → Ref → Option Bool) → TypeNode → TypeNode → Option Bool
unfolding func_equal
payload_equal eq (via x) (via y) = eq x y
payload_equal eq (cohors x) (cohors y) = eq x y
payload_equal eq (acies x n) (acies y m) = if n == m then eq x y else some false
payload_equal eq (forma n _ _) (forma m _ _) = some (bytes_eq n m)
payload_equal eq (unio n _ _) (unio m _ _) = some (bytes_eq n m)
payload_equal eq (actio a) (actio b) = func_equal eq a b
payload_equal eq _ _ = some true

-- `nullus` on one side, and a pointer, a slice or a function on the other
pub null_matches : TypeNode → TypeNode → Bool
null_matches (scalar nullus) (via _) = true
null_matches (scalar nullus) (cohors _) = true
null_matches (scalar nullus) (actio _) = true
null_matches _ _ = false

pub node_equal : (Ref → Ref → Option Bool) → TypeNode → TypeNode → Option Bool
unfolding kind payload_equal null_matches
node_equal eq a b =
    if null_matches a b || null_matches b a
    then some true
    else if kind a == kind b
    then payload_equal eq a b
    else some false

pub type_equals : ℕ → List TypeNode → Ref → Ref → Option Bool
unfolding node_equal
type_equals zero nodes a b = none
type_equals (suc f) nodes none none = some true
type_equals (suc f) nodes none (some j) = some false
type_equals (suc f) nodes (some i) none = some false
type_equals (suc f) nodes (some i) (some j) =
    let deep = (do
      a ← get_elem? nodes i
      b ← get_elem? nodes j
      node_equal (type_equals f nodes) a b) in
    if i == j then some true else deep

-- The switch of `type_strict_equals`, where enumerations are compared by name too.
pub payload_strict : (Ref → Ref → Option Bool) → TypeNode → TypeNode → Option Bool
unfolding payload_equal
payload_strict eq (enumeration n _) (enumeration m _) = some (bytes_eq n m)
payload_strict eq a b = payload_equal eq a b

pub node_strict : (Ref → Ref → Option Bool) → TypeNode → TypeNode → Option Bool
unfolding kind payload_strict
node_strict eq a b = if kind a == kind b then payload_strict eq a b else some false

pub type_strict_equals : ℕ → List TypeNode → Ref → Ref → Option Bool
unfolding node_strict
type_strict_equals zero nodes a b = none
type_strict_equals (suc f) nodes none none = some true
type_strict_equals (suc f) nodes none (some j) = some false
type_strict_equals (suc f) nodes (some i) none = some false
type_strict_equals (suc f) nodes (some i) (some j) =
    let deep = (do
      a ← get_elem? nodes i
      b ← get_elem? nodes j
      node_strict (type_strict_equals f nodes) a b) in
    if i == j then some true else deep

-- The loop of `intern_type` over the pool: a type that is strictly equal to the new one.
pub find_interned : (Ref → Ref → Option Bool) → List ℕ → ℕ → Option (Option ℕ)
find_interned eq [] new = some none
find_interned eq (r ∷ pool) new =
    let rest = find_interned eq pool new in
    elim (eq (some r) (some new)) [ none ↦ none | some true ↦ some (some r) | some false ↦ rest ]

-- The new type is dropped again if the pool has it. Every chain of pointers is shorter than the
-- store, so its size is fuel enough.
pub intern_type : Types → TypeNode → Option (ℕ × Types)
unfolding find_interned type_strict_equals
intern_type ts t = do
  let new = length ts.nodes
  let nodes = ts.nodes ++ t ∷ []
  found ← find_interned (type_strict_equals (length ts.nodes + 2) nodes) ts.interned new
  some (elim found [
    | some r ↦ (r, ts)
    | none ↦ (new, record { nodes = nodes; interned = new ∷ ts.interned })
  ])

pub type_get_via : Types → Ref → Option (ℕ × Types)
unfolding intern_type
type_get_via ts inner = intern_type ts (via inner)

pub type_get_cohors : Types → Ref → Option (ℕ × Types)
unfolding intern_type
type_get_cohors ts inner = intern_type ts (cohors inner)

pub type_get_acies : Types → Ref → ℕ → Option (ℕ × Types)
unfolding intern_type
type_get_acies ts inner length = intern_type ts (acies inner length)
