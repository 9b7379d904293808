-- ===== src/Types/Equality/Intern.antt =====
-- The pool of interned types: interning a type twice gives one pointer.
use mathlib.Core.Option.{some-injective}
use mathlib.Core.Path.{subst}
use scorivm.Base.Lists.{
  All, All-map, length, get_elem?, length-append, get_elem?-append_left, get_elem?-append_self,
  get_elem?-concat,
}
use scorivm.Base.Logic.{◌==◌, bytes_eq_iff, Bool-cases, Option-cases}
use scorivm.Base.{
  ℕ, zero, suc, ◌+◌, ◌<◌, ◌≡◌, refl, ap, ◌∙◌, inl, inr, Bool, true, false, Option, none, some, List,
  [], ◌∷◌, ◌++◌, arith,
}
use scorivm.Types.Equality.{
  params_equal, func_equal, payload_equal, payload_strict, node_strict, type_strict_equals,
  find_interned, intern_type,
}
use scorivm.Types.{
  Ref, TypeNode, scalar, via, cohors, acies, forma, unio, enumeration, actio, Types,
}
use scorivm.Types.Equality.Pool.{Points, IsOlder, Decides, strict-Decides}

-- A type is strictly equal to a copy of it, once equal pointers are.
module _ (eq : Ref → Ref → Option Bool) (same : (r : Ref) → eq r r ≡ some true) where
  params_refl : (ps : List Ref) → params_equal eq ps ps ≡ some true
  unfolding params_equal
  params_refl [] = refl
  params_refl (p ∷ ps) = rw (same p, params_refl ps) refl

  node_refl : (t : TypeNode) → node_strict eq t t ≡ some true
  unfolding node_strict payload_strict payload_equal func_equal
  node_refl (via x) = same x
  node_refl (cohors x) = same x
  node_refl (acies x n) = ground (arith, same x)
  node_refl (forma n _ _) = ap some ((bytes_eq_iff n n).1 refl)
  node_refl (unio n _ _) = ap some ((bytes_eq_iff n n).1 refl)
  node_refl (enumeration n _) = ap some ((bytes_eq_iff n n).1 refl)
  node_refl (actio f) = ground (arith, same f.return_type, params_refl f.param_types)
  node_refl (scalar x) = ground arith

-- The pool of a store: its pointers are older than what points, and the interned types exist.
pub record IsValidPool (ts : Types) : Type 0 where
  pub older : IsOlder ts.nodes
  pub pooled : All (λ r. r < length ts.nodes) ts.interned

concat-IsOlder :
    (nodes : List TypeNode) (t : TypeNode)
    → IsOlder nodes
    → Points (λ j. j < length nodes) t
    → IsOlder (nodes ++ t ∷ [])
concat-IsOlder nodes t older h r x e = elim (get_elem?-concat nodes t x r e) [
  | inl (_, found) ↦ older r x found
  | inr (last, same) ↦ subst (Points (λ j. j < r)) same (rw last h)
]

find-Decides :
    (eq : Ref → Ref → Option Bool) (new n : ℕ) (pool : List ℕ)
    → ((r : ℕ) → r < n → Decides (eq (some r) (some new)))
    → All (λ r. r < n) pool
    → (o : Option ℕ) × (find_interned eq pool new ≡ some o)
unfolding find_interned
find-Decides eq new n [] decides h = (none, refl)
find-Decides eq new n (r ∷ pool) decides h =
    let (b, e) = decides r h.0 in
    let (o, rest) = find-Decides eq new n pool decides h.1 in choose b e o rest
  where
    choose :
        (b : Bool)
        → eq (some r) (some new) ≡ some b
        → (o : Option ℕ) → find_interned eq pool new ≡ some o
        → (o : Option ℕ) × (find_interned eq (r ∷ pool) new ≡ some o)
    choose true e o rest = (some r, rw (e, find_interned) refl)
    choose false e o rest = (o, rw (e, find_interned) rest)

find-pooled :
    (P : ℕ → Type 0) (eq : Ref → Ref → Option Bool) (new r : ℕ) (pool : List ℕ)
    → find_interned eq pool new ≡ some (some r)
    → All P pool
    → P r
unfolding find_interned
find-pooled P eq new r [] e h = absurd (ground arith)
find-pooled P eq new r (x ∷ pool) e h = elim (Option-cases (eq (some x) (some new))) [
  | inl stuck ↦ absurd (let y = rw (stuck, find_interned) at e in ground arith)
  | inr (true, found) ↦
      subst P (some-injective _ _ (some-injective _ _ (rw (found, find_interned) at e))) h.0
  | inr (false, other) ↦ find-pooled P eq new r pool (rw (other, find_interned) at e) h.1
]

strict_refl :
    (f : ℕ) (nodes : List TypeNode) (r : Ref) → 0 < f → type_strict_equals f nodes r r ≡ some true
unfolding type_strict_equals
strict_refl zero nodes r h = absurd (omega arith)
strict_refl (suc f) nodes none h = refl
strict_refl (suc f) nodes (some i) h = ground arith

-- Two copies of one type are strictly equal.
strict-copy :
    (nodes : List TypeNode) (t : TypeNode) (f i j : ℕ)
    → 1 < f
    → get_elem? nodes i ≡ some t
    → get_elem? nodes j ≡ some t
    → type_strict_equals f nodes (some i) (some j) ≡ some true
unfolding type_strict_equals
strict-copy nodes t zero i j h at_i at_j = absurd (omega arith)
strict-copy nodes t (suc f) i j h at_i at_j =
    let same : node_strict (type_strict_equals f nodes) t t ≡ some true =
      node_refl (type_strict_equals f nodes) (λ r. strict_refl f nodes r (omega arith)) t in
    elim (Bool-cases (i == j)) [
      | inl one ↦ rw (one, type_strict_equals) refl
      | inr two ↦ rw (two, type_strict_equals) (rw at_i (rw at_j same))
    ]

-- The type that has just been interned is the first of the pool that is compared.
intern_again :
    (nodes : List TypeNode) (pool : List ℕ) (t : TypeNode)
    → let ts : Types = record { nodes = nodes ++ t ∷ []; interned = length nodes ∷ pool } in
      intern_type ts t ≡ some (length nodes, ts)
unfolding intern_type
intern_again nodes pool t =
    let stored = nodes ++ t ∷ [] in
    let here : get_elem? (stored ++ t ∷ []) (length nodes) ≡ some t =
      get_elem?-append_left stored (t ∷ []) (length nodes)
        (omega (arith, length-append nodes (t ∷ [])))
      ∙ get_elem?-append_self nodes t in
    let copy =
      strict-copy (stored ++ t ∷ []) t (length stored + 2) (length nodes) (length stored)
        (omega arith) here (get_elem?-append_self stored t) in
    rw (copy, find_interned) refl

-- Interning returns; it keeps the pool valid, and interning the same type again gives the same
-- pointer and changes nothing.
pub intern-idempotent :
    (ts : Types) (t : TypeNode)
    → IsValidPool ts
    → Points (λ j. j < length ts.nodes) t
    → (r : ℕ) × (ts' : Types) × (intern_type ts t ≡ some (r, ts'))
      × IsValidPool ts'
      × (r < length ts'.nodes)
      × (intern_type ts' t ≡ some (r, ts'))
unfolding intern_type
intern-idempotent ts t v h =
    let n = length ts.nodes in
    let nodes = ts.nodes ++ t ∷ [] in
    let size : length nodes ≡ n + 1 = length-append ts.nodes (t ∷ []) in
    let older = concat-IsOlder ts.nodes t v.older h in
    let eq = type_strict_equals (n + 2) nodes in
    let (o, e) =
      find-Decides eq n n ts.interned
        (λ r l.
          strict-Decides nodes (n + 2) (some r) (some n) older (omega arith)
            (omega arith, omega arith) (omega arith))
        v.pooled in
    choose o e older size
  where
    choose :
        (o : Option ℕ)
        → find_interned
            (type_strict_equals (length ts.nodes + 2) (ts.nodes ++ t ∷ []))
            ts.interned
            (length ts.nodes)
          ≡ some o
        → IsOlder (ts.nodes ++ t ∷ [])
        → length (ts.nodes ++ t ∷ []) ≡ length ts.nodes + 1
        → (r : ℕ) × (ts' : Types) × (intern_type ts t ≡ some (r, ts'))
          × IsValidPool ts'
          × (r < length ts'.nodes)
          × (intern_type ts' t ≡ some (r, ts'))
    choose (some r) e older size =
        let run : intern_type ts t ≡ some (r, ts) = rw (e, intern_type) refl in
        (
          r,
          ts,
          run,
          v,
          find-pooled (λ x. x < length ts.nodes)
              (type_strict_equals (length ts.nodes + 2) (ts.nodes ++ t ∷ [])) (length ts.nodes) r
              ts.interned e v.pooled,
          run,
        )
    choose none e older size =
        let n = length ts.nodes in
        (
          n,
          record { nodes = ts.nodes ++ t ∷ []; interned = n ∷ ts.interned },
          rw (e, intern_type) refl,
          record {
            older = older;
            pooled = (
              omega arith,
              All-map (λ r. r < n) (λ r. r < length (ts.nodes ++ t ∷ [])) ts.interned
                  (λ r l. omega arith) v.pooled,
            );
          },
          omega arith,
          intern_again ts.nodes ts.interned t,
        )
