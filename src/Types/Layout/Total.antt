-- ===== src/Types/Layout/Total.antt =====
-- When the layout functions return: the types that a type contains by value must be well founded.

use scorivm.Base.Lists.{All, All-map, length, get_elem?, get_elem?_of_lt}
use scorivm.Base.Logic.{◌>>=◌, Bytes, ltb, if◌then◌else◌, Option-cases}
use scorivm.Base.{
  ℕ, zero, suc, ◌+◌, ◌*◌, ◌%◌, ◌^◌, ◌<◌, ◌≡◌, refl, sym, ap, ◌∙◌, ◌⊎◌, inl, inr, Bool, true, false,
  Option, none, some, List, [], ◌∷◌, arith,
}
use scorivm.Types.Layout.{
  fields_align, node_align, type_get_align, Measured, measure, forma_size, unio_size, node_size,
  type_get_size,
}
use scorivm.Types.{
  Ref, StructField, TypeNode, scalar, via, cohors, acies, forma, unio, enumeration, actio,
}

abbrev pub OnRef : (ℕ → Type 0) → Ref → Type 0
OnRef P none = Unit
OnRef P (some j) = P j

-- The property holds of all types that the type contains by value.
abbrev pub Contains : (ℕ → Type 0) → TypeNode → Type 0
Contains P (acies inner _) = OnRef P inner
Contains P (forma _ fs _) = All (λ (f : StructField). OnRef P f.type) fs
Contains P (unio _ fs _) = All (λ (f : StructField). OnRef P f.type) fs
Contains P _ = Unit

-- `rank` falls from a type to those that it contains by value, and these exist.
abbrev pub IsRanked : List TypeNode → (ℕ → ℕ) → Type 0
IsRanked nodes rank =
    (r : ℕ) (t : TypeNode)
    → get_elem? nodes r ≡ some t
    → Contains (λ j. (j < length nodes) × (rank j < rank r)) t

-- The computation returns.
abbrev pub Returns : Option ℕ → Type 0
Returns o = (n : ℕ) × (o ≡ some n)

module _ (align : Ref → Option ℕ) where
  fields_align-Returns :
      (fs : List StructField) (x : ℕ)
      → All (λ (f : StructField). Returns (align f.type)) fs
      → Returns (fields_align align fs x)
  unfolding fields_align
  fields_align-Returns [] x h = (x, refl)
  fields_align-Returns (f ∷ fs) x h =
      let (a, e) = h.0 in
      rw (e, fields_align) (fields_align-Returns fs (if ltb x a then a else x) h.1)

  measure-Returns :
      (size : Ref → Option ℕ) (d : Bool) (fs : List StructField)
      → All (λ (f : StructField). Returns (align f.type)) fs
      → All (λ (f : StructField). Returns (size f.type)) fs
      → (ms : List Measured) × (measure align size d fs ≡ some ms)
  unfolding measure
  measure-Returns size d [] h k = ([], refl)
  measure-Returns size true (f ∷ fs) h k =
      let (s, e) = k.0 in
      let (ms, rest) = measure-Returns size true fs h.1 k.1 in
      (
        record { name = f.name; size = s; align = 1; bit_size = f.bit_size } ∷ ms,
        rw (e, measure) (rw rest refl),
      )
  measure-Returns size false (f ∷ fs) h k =
      let (a, e') = h.0 in
      let (s, e) = k.0 in
      let (ms, rest) = measure-Returns size false fs h.1 k.1 in
      (
        record { name = f.name; size = s; align = a; bit_size = f.bit_size } ∷ ms,
        rw (e, measure) (rw e' (rw rest refl)),
      )

-- A call that returns on what the type contains.
abbrev ReturnsIn : (Ref → Option ℕ) → TypeNode → Type 0
ReturnsIn size = Contains (λ j. Returns (size (some j)))

All-OnRef :
    (size : Ref → Option ℕ) (fs : List StructField)
    → Returns (size none)
    → All (λ (f : StructField). OnRef (λ j. Returns (size (some j))) f.type) fs
    → All (λ (f : StructField). Returns (size f.type)) fs
All-OnRef size [] null h = tt
All-OnRef size (f ∷ fs) null h = (go f.type h.0, All-OnRef size fs null h.1)
  where
    go : (r : Ref) → OnRef (λ j. Returns (size (some j))) r → Returns (size r)
    go none x = null
    go (some j) x = x

node_align-Returns :
    (align : Ref → Option ℕ) (t : TypeNode)
    → Returns (align none)
    → ReturnsIn align t
    → Returns (node_align align t)
unfolding node_align
node_align-Returns align (scalar k) null h = (_, refl)
node_align-Returns align (via r) null h = (_, refl)
node_align-Returns align (cohors r) null h = (_, refl)
node_align-Returns align (acies none n) null h = null
node_align-Returns align (acies (some j) n) null h = h
node_align-Returns align (forma n fs true) null h = (1, refl)
node_align-Returns align (forma n fs false) null h =
    fields_align-Returns align fs 1 (All-OnRef align fs null h)
node_align-Returns align (unio n fs true) null h = (1, refl)
node_align-Returns align (unio n fs false) null h =
    fields_align-Returns align fs 1 (All-OnRef align fs null h)
node_align-Returns align (enumeration n vs) null h = (_, refl)
node_align-Returns align (actio f) null h = (_, refl)

array-Returns :
    (size : Ref → Option ℕ) (align : Ref → Option ℕ) (r : Ref) (n : ℕ)
    → Returns (size r)
    → Returns (node_size align size (acies r n))
unfolding node_size
array-Returns size align r n (s, e) = (n * s % 2 ^ 32, rw (e, node_size) refl)

node_size-Returns :
    (align size : Ref → Option ℕ) (t : TypeNode)
    → Returns (align none)
    → Returns (size none)
    → ReturnsIn align t
    → ReturnsIn size t
    → Returns (node_size align size t)
unfolding node_size
node_size-Returns align size (scalar k) a0 s0 h k' = (_, refl)
node_size-Returns align size (via r) a0 s0 h k = (_, refl)
node_size-Returns align size (cohors r) a0 s0 h k = (_, refl)
node_size-Returns align size (acies none n) a0 s0 h k = array-Returns size align none n s0
node_size-Returns align size (acies (some j) n) a0 s0 h k = array-Returns size align (some j) n k
node_size-Returns align size (forma n fs d) a0 s0 h k =
    let (ms, e) =
      measure-Returns align size d fs (All-OnRef align fs a0 h) (All-OnRef size fs s0 k) in
    (forma_size d ms, rw (e, node_size) refl)
node_size-Returns align size (unio n fs d) a0 s0 h k =
    let (ms, e) =
      measure-Returns align size d fs (All-OnRef align fs a0 h) (All-OnRef size fs s0 k) in
    (unio_size d ms, rw (e, node_size) refl)
node_size-Returns align size (enumeration n vs) a0 s0 h k = (_, refl)
node_size-Returns align size (actio f) a0 s0 h k = (_, refl)

OnRef-map : (P Q : ℕ → Type 0) (r : Ref) → ((j : ℕ) → P j → Q j) → OnRef P r → OnRef Q r
OnRef-map P Q none f h = tt
OnRef-map P Q (some j) f h = f j h

Contains-map :
    (P Q : ℕ → Type 0) (t : TypeNode) → ((j : ℕ) → P j → Q j) → Contains P t → Contains Q t
Contains-map P Q (acies r n) f h = OnRef-map P Q r f h
Contains-map P Q (forma n fs d) f h =
    All-map _ (λ (x : StructField). OnRef Q x.type) fs (λ x. OnRef-map P Q x.type f) h
Contains-map P Q (unio n fs d) f h =
    All-map _ (λ (x : StructField). OnRef Q x.type) fs (λ x. OnRef-map P Q x.type f) h
Contains-map P Q _ f h = tt

null-align : (f : ℕ) (nodes : List TypeNode) → 0 < f → Returns (type_get_align f nodes none)
unfolding type_get_align
null-align zero nodes h = absurd (omega arith)
null-align (suc f) nodes h = (1, refl)

null-size : (f : ℕ) (nodes : List TypeNode) → 0 < f → Returns (type_get_size f nodes none)
unfolding type_get_size
null-size zero nodes h = absurd (omega arith)
null-size (suc f) nodes h = (0, refl)

module _ (nodes : List TypeNode) (rank : ℕ → ℕ) (ranked : IsRanked nodes rank) where
  align-Returns :
      (f r : ℕ) → r < length nodes → rank r + 1 < f → Returns (type_get_align f nodes (some r))
  unfolding type_get_align
  align-Returns zero r h l = absurd (omega arith)
  align-Returns (suc f) r h l =
      let (t, e) = get_elem?_of_lt nodes r h in
      rw (e, type_get_align)
        (node_align-Returns (type_get_align f nodes) t (null-align f nodes (omega arith))
          (Contains-map _ _ t (λ j k. align-Returns f j k.0 (omega arith)) (ranked r t e)))

  -- Where no type contains itself by value, at any depth, the size and the alignment of every type
  -- are found: recursion one deeper than the rank of the type suffices.
  pub size-Returns :
      (f r : ℕ)
      → r < length nodes
      → rank r + 1 < f
      → Returns (type_get_size f nodes (some r)) × Returns (type_get_align f nodes (some r))
  unfolding type_get_size
  size-Returns zero r h l = absurd (omega arith)
  size-Returns (suc f) r h l =
      let (t, e) = get_elem?_of_lt nodes r h in
      (
        rw (e, type_get_size)
            (node_size-Returns (type_get_align f nodes) (type_get_size f nodes) t
              (null-align f nodes (omega arith)) (null-size f nodes (omega arith))
              (Contains-map _ _ t (λ j k. align-Returns f j k.0 (omega arith)) (ranked r t e))
              (Contains-map _ _ t (λ j k. (size-Returns f j k.0 (omega arith)).0) (ranked r t e))),
        align-Returns (suc f) r h l,
      )

-- A field of the given type among the fields.
abbrev pub HasField : ℕ → List StructField → Type 0
HasField r [] = ⊥
HasField r (f ∷ fs) = (f.type ≡ some r) ⊎ HasField r fs

measure-none :
    (align size : Ref → Option ℕ) (d : Bool) (r : ℕ) (fs : List StructField)
    → HasField r fs
    → size (some r) ≡ none
    → measure align size d fs ≡ none
unfolding measure
measure-none align size d r [] h e = absurd h
measure-none align size d r (f ∷ fs) (inl h) e = rw (ap size h ∙ e, measure) refl
measure-none align size d r (f ∷ fs) (inr h) e = elim (Option-cases (measure align size d fs)) [
  | inl stuck ↦ stuck_at (size f.type) (if d then some 1 else align f.type) stuck
  | inr (ms, found) ↦
      absurd (let x = sym found ∙ measure-none align size d r fs h e in ground arith)
]
  where
    stuck_at :
        (s a : Option ℕ)
        → measure align size d fs ≡ none
        → (do
          s ← s
          a ← a
          rest ← measure align size d fs
          some (record { name = f.name; size = s; align = a; bit_size = f.bit_size } ∷ rest))
          ≡ none
    stuck_at none a e = refl
    stuck_at (some s) none e = refl
    stuck_at (some s) (some a) e = rw e refl

-- A `forma` with a field of its own type has no size at any depth: `type_get_size` does not return.
pub self_contained-diverges :
    (nodes : List TypeNode) (r : ℕ) (name : Bytes) (fs : List StructField) (is_densa : Bool)
    → get_elem? nodes r ≡ some (forma name fs is_densa)
    → HasField r fs
    → (f : ℕ) → type_get_size f nodes (some r) ≡ none
unfolding type_get_size node_size
self_contained-diverges nodes r name fs is_densa e h zero = refl
self_contained-diverges nodes r name fs is_densa e h (suc f) =
    rw (e, type_get_size)
      (rw
        (
          measure-none (type_get_align f nodes) (type_get_size f nodes) is_densa r fs h
              (self_contained-diverges nodes r name fs is_densa e h f),
          node_size,
        )
        refl)
