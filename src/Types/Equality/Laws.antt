-- ===== src/Types/Equality/Laws.antt =====
-- `type_equals` is symmetric, and holds of all types that are strictly equal.
use scorivm.Base.Lists.{length, get_elem?}
use scorivm.Base.Logic.{◌>>=◌, bind-eq-some, ◌==◌, Bytes, bytes_eq, bytes_eq_iff, Bool-cases}
use scorivm.Base.{
  ℕ, zero, suc, ◌≡◌, ◌≢◌, refl, ap, inl, inr, Bool, true, false, ◌&&◌, Option, none, some, List, [],
  ◌∷◌, arith,
}
use scorivm.Types.Equality.{
  bool_eq, and_then, params_equal, func_equal, payload_equal, node_equal, type_equals,
  payload_strict, node_strict, type_strict_equals,
}
use scorivm.Types.{
  Ref, FuncType, TypeNode, scalar, via, cohors, acies, forma, unio, enumeration, actio, EnumVariant,
}

bytes_eq_symm : (a b : Bytes) → bytes_eq a b ≡ bytes_eq b a
bytes_eq_symm a b = ground (arith, bytes_eq_iff a b, bytes_eq_iff b a)

abbrev IsSymm : (Ref → Ref → Option Bool) → Type 0
IsSymm eq = (a b : Ref) → eq a b ≡ eq b a

module _ (eq : Ref → Ref → Option Bool) (symm : IsSymm eq) where
  params_symm : (ps qs : List Ref) → params_equal eq ps qs ≡ params_equal eq qs ps
  unfolding params_equal
  params_symm [] [] = refl
  params_symm [] (q ∷ qs) = refl
  params_symm (p ∷ ps) [] = refl
  params_symm (p ∷ ps) (q ∷ qs) = rw (symm p q, params_symm ps qs) refl

  func_symm : (a b : FuncType) → func_equal eq a b ≡ func_equal eq b a
  unfolding func_equal
  func_symm a b =
      let tests : (length a.param_types == length b.param_types
            && bool_eq a.is_variadic b.is_variadic
            && bool_eq a.is_native_variadic b.is_native_variadic)
          ≡ (length b.param_types == length a.param_types
              && bool_eq b.is_variadic a.is_variadic
              && bool_eq b.is_native_variadic a.is_native_variadic) =
        ground arith in
      rw (tests, symm a.return_type b.return_type, params_symm a.param_types b.param_types) refl

  payload_symm : (a b : TypeNode) → payload_equal eq a b ≡ payload_equal eq b a
  unfolding payload_equal
  payload_symm (via x) (via y) = symm x y
  payload_symm (cohors x) (cohors y) = symm x y
  payload_symm (acies x n) (acies y m) = ground (arith, symm x y)
  payload_symm (forma n _ _) (forma m _ _) = ap some (bytes_eq_symm n m)
  payload_symm (unio n _ _) (unio m _ _) = ap some (bytes_eq_symm n m)
  payload_symm (actio a) (actio b) = func_symm a b
  payload_symm (scalar x) (scalar y) = refl
  payload_symm (enumeration n vs) (enumeration m ws) = refl
  payload_symm _ _ = refl

  node_symm : (a b : TypeNode) → node_equal eq a b ≡ node_equal eq b a
  unfolding node_equal
  node_symm a b = ground (arith, payload_symm a b)

  deep_symm :
      (x y : Option TypeNode)
      → (do a ← x; b ← y; node_equal eq a b) ≡ (do a ← y; b ← x; node_equal eq a b)
  deep_symm none none = refl
  deep_symm none (some b) = refl
  deep_symm (some a) none = refl
  deep_symm (some a) (some b) = node_symm a b

-- The comparison does not depend on the order of the two types.
pub equals-IsSymm : (f : ℕ) (nodes : List TypeNode) → IsSymm (type_equals f nodes)
unfolding type_equals
equals-IsSymm zero nodes a b = refl
equals-IsSymm (suc f) nodes none none = refl
equals-IsSymm (suc f) nodes none (some j) = refl
equals-IsSymm (suc f) nodes (some i) none = refl
equals-IsSymm (suc f) nodes (some i) (some j) = ground (
  arith,
  deep_symm (type_equals f nodes) (equals-IsSymm f nodes) (get_elem? nodes i) (get_elem? nodes j),
)

abbrev Implies : (Ref → Ref → Option Bool) → (Ref → Ref → Option Bool) → Type 0
Implies strict eq = (a b : Ref) → strict a b ≡ some true → eq a b ≡ some true

module _ (strict eq : Ref → Ref → Option Bool) (imp : Implies strict eq) where
  and_then-true : (x y : Option Bool) → and_then x y ≡ some true → (x ≡ some true) × (y ≡ some true)
  and_then-true none y e = absurd (ground arith)
  and_then-true (some true) y e = (refl, e)
  and_then-true (some false) y e = absurd (ground arith)

  params_implied :
      (ps qs : List Ref) → params_equal strict ps qs ≡ some true → params_equal eq ps qs ≡ some true
  unfolding params_equal
  params_implied [] qs e = refl
  params_implied (p ∷ ps) [] e = refl
  params_implied (p ∷ ps) (q ∷ qs) e =
      let (x, y) = and_then-true (strict p q) (params_equal strict ps qs) e in
      rw (imp p q x, params_implied ps qs y) refl

  func_implied :
      (a b : FuncType) → func_equal strict a b ≡ some true → func_equal eq a b ≡ some true
  unfolding func_equal
  func_implied a b e =
      elim (Bool-cases (
        length a.param_types == length b.param_types
        && bool_eq a.is_variadic b.is_variadic
        && bool_eq a.is_native_variadic b.is_native_variadic)) [
          | inl same ↦
              let (x, y) =
                and_then-true (strict a.return_type b.return_type)
                  (params_equal strict a.param_types b.param_types) (rw (same, func_equal) at e) in
              rw (same, func_equal)
                (rw
                  (imp a.return_type b.return_type x, params_implied a.param_types b.param_types y)
                  refl)
          | inr differ ↦ absurd (let x = rw (differ, func_equal) at e in ground arith)
        ]

  payload_implied :
      (a b : TypeNode) → payload_strict strict a b ≡ some true → payload_equal eq a b ≡ some true
  unfolding payload_strict payload_equal
  payload_implied (via x) (via y) e = imp x y e
  payload_implied (cohors x) (cohors y) e = imp x y e
  payload_implied (acies x n) (acies y m) e = ground (arith, imp x y)
  payload_implied (forma n _ _) (forma m _ _) e = e
  payload_implied (unio n _ _) (unio m _ _) e = e
  payload_implied (actio a) (actio b) e = func_implied a b e
  payload_implied (enumeration n vs) (enumeration m ws) e = refl
  payload_implied (scalar x) (scalar y) e = refl
  payload_implied _ _ e = refl

  node_implied :
      (a b : TypeNode) → node_strict strict a b ≡ some true → node_equal eq a b ≡ some true
  unfolding node_strict node_equal
  node_implied a b e = ground (arith, payload_implied a b)

-- What the pool takes for one type, `type_equals` takes for one type.
pub strict-equals :
    (f : ℕ) (nodes : List TypeNode) (a b : Ref)
    → type_strict_equals f nodes a b ≡ some true
    → type_equals f nodes a b ≡ some true
unfolding type_strict_equals type_equals
strict-equals zero nodes a b e = absurd (ground arith)
strict-equals (suc f) nodes none none e = refl
strict-equals (suc f) nodes none (some j) e = absurd (ground arith)
strict-equals (suc f) nodes (some i) none e = absurd (ground arith)
strict-equals (suc f) nodes (some i) (some j) e = elim (Bool-cases (i == j)) [
  | inl same ↦ rw (same, type_equals) refl
  | inr differ ↦
      let (a, at_i, e₁) =
        bind-eq-some (get_elem? nodes i) _ (rw (differ, type_strict_equals) at e) in
      let (b, at_j, e₂) = bind-eq-some (get_elem? nodes j) _ e₁ in
      rw (differ, type_equals)
        (rw (at_i, at_j)
          (node_implied (type_strict_equals f nodes) (type_equals f nodes) (strict-equals f nodes) a
            b e₂))
]

-- Any two enumerations are equal for `type_equals`, whatever their names; for the pool they are
-- equal exactly if their names are.
pub equals-enumeration :
    (f : ℕ) (nodes : List TypeNode) (i j : ℕ) (n m : Bytes) (vs ws : List EnumVariant)
    → get_elem? nodes i ≡ some (enumeration n vs)
    → get_elem? nodes j ≡ some (enumeration m ws)
    → i ≢ j
    → (type_equals (suc f) nodes (some i) (some j) ≡ some true)
      × (type_strict_equals (suc f) nodes (some i) (some j) ≡ some (bytes_eq n m))
unfolding type_equals type_strict_equals
equals-enumeration f nodes i j n m vs ws at_i at_j ne =
    let differ : (i == j) ≡ false = ground arith in
    (
      rw (differ, type_equals) (rw (at_i, at_j) refl),
      rw (differ, type_strict_equals) (rw (at_i, at_j) refl),
    )
