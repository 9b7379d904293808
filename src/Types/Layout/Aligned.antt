-- ===== src/Types/Layout/Aligned.antt =====
-- Every alignment is 1, 2, 4 or 8, and divides the size of its type.
use mathlib.Core.Option.{some-injective}
use mathlib.Core.Path.{subst}
use scorivm.Base.Lists.{get_elem?}
use scorivm.Base.Logic.{◌>>=◌, bind-eq-some, ltb, if◌then◌else◌, Bool-cases}
use scorivm.Base.{
  ℕ, zero, suc, ◌*◌, ◌/◌, ◌%◌, ◌^◌, ◌≡◌, refl, sym, ◌∙◌, inl, inr, Bool, true, false, Option, none,
  some, List, [], ◌∷◌, arith,
}
use scorivm.Types.Layout.Fields.{AllAligned}
use scorivm.Types.Layout.Forward.{IsAlign, align_up-mod}
use scorivm.Types.Layout.{
  scalar_align, fields_align, node_align, type_get_align, Measured, measure, Cursor, start, run,
  forma_size, unio_run, unio_size, scalar_size, node_size, type_get_size,
}
use scorivm.Types.{ScalarKind, Ref, StructField, TypeNode, scalar, acies, forma, unio}

-- The recursive call gives alignments only.
abbrev Aligns : (Ref → Option ℕ) → Type 0
Aligns align = (r : Ref) (a : ℕ) → align r ≡ some a → IsAlign a

abbrev larger : ℕ → ℕ → ℕ
larger x a = if ltb x a then a else x

larger-IsAlign : (x a : ℕ) → IsAlign x → IsAlign a → IsAlign (larger x a)
larger-IsAlign x a h k = elim (Bool-cases (ltb x a)) [ inl e ↦ rw e k | inr e ↦ rw e h ]

fields_align-IsAlign :
    (align : Ref → Option ℕ) (fs : List StructField) (x a : ℕ)
    → Aligns align
    → IsAlign x
    → fields_align align fs x ≡ some a
    → IsAlign a
unfolding fields_align
fields_align-IsAlign align [] x a al h e = subst IsAlign (some-injective _ _ e) h
fields_align-IsAlign align (f ∷ fs) x a al h e =
    let (b, at, rest) = bind-eq-some (align f.type) _ e in
    fields_align-IsAlign align fs (larger x b) a al (larger-IsAlign x b h (al f.type b at)) rest

scalar_align-IsAlign : (k : ScalarKind) → IsAlign (scalar_align k)
unfolding scalar_align
scalar_align-IsAlign ScalarKind.unknown = omega arith
scalar_align-IsAlign _ = omega arith

node_align-IsAlign :
    (align : Ref → Option ℕ) (t : TypeNode) (a : ℕ)
    → Aligns align
    → node_align align t ≡ some a
    → IsAlign a
unfolding node_align
node_align-IsAlign align (scalar k) a al e =
    subst IsAlign (some-injective _ _ e) (scalar_align-IsAlign k)
node_align-IsAlign align (acies inner n) a al e = al inner a e
node_align-IsAlign align (forma n fs true) a al e = ground arith
node_align-IsAlign align (forma n fs false) a al e =
    fields_align-IsAlign align fs 1 a al (inl refl) e
node_align-IsAlign align (unio n fs true) a al e = ground arith
node_align-IsAlign align (unio n fs false) a al e =
    fields_align-IsAlign align fs 1 a al (inl refl) e
node_align-IsAlign align _ a al e = ground arith

pub align-IsAlign : (f : ℕ) (nodes : List TypeNode) → Aligns (type_get_align f nodes)
unfolding type_get_align
align-IsAlign zero nodes r a e = absurd (ground arith)
align-IsAlign (suc f) nodes none a e = ground arith
align-IsAlign (suc f) nodes (some r) a e =
    let (t, at, rest) = bind-eq-some (get_elem? nodes r) _ e in
    node_align-IsAlign (type_get_align f nodes) t a (align-IsAlign f nodes) rest

-- The measured fields of a type have alignments, and their loops find the largest.
pub measure-AllAligned :
    (align size : Ref → Option ℕ) (d : Bool) (fs : List StructField) (ms : List Measured)
    → Aligns align
    → measure align size d fs ≡ some ms
    → AllAligned ms
unfolding measure
measure-AllAligned align size d [] ms al e = subst AllAligned (some-injective _ _ e) tt
measure-AllAligned align size d (f ∷ fs) ms al e =
    let (s, at, e₁) = bind-eq-some (size f.type) _ e in
    let (a, has, e₂) = bind-eq-some (if d then some 1 else align f.type) _ e₁ in
    let (rest, tail, e₃) = bind-eq-some (measure align size d fs) _ e₂ in
    subst AllAligned (some-injective _ _ e₃) (
      elim (Bool-cases d) [
        | inl packed ↦ inl (some-injective _ _ (sym (rw packed at has)))
        | inr natural ↦ al f.type a (rw natural at has)
      ],
      measure-AllAligned align size d fs rest al tail,
    )

run-fields_align :
    (align size : Ref → Option ℕ) (fs : List StructField) (ms : List Measured) (c : Cursor)
    (x a : ℕ)
    → measure align size false fs ≡ some ms
    → fields_align align fs x ≡ some a
    → (run false ms c x).1 ≡ a
unfolding measure fields_align run
run-fields_align align size [] ms c x a e h =
    subst (λ ms. (run false ms c x).1 ≡ a) (some-injective _ _ e) (some-injective _ _ h)
run-fields_align align size (f ∷ fs) ms c x a e h =
    let (s, at, e₁) = bind-eq-some (size f.type) _ e in
    let (b, has, e₂) = bind-eq-some (align f.type) _ e₁ in
    let (rest, tail, e₃) = bind-eq-some (measure align size false fs) _ e₂ in
    let (b', has', h₁) = bind-eq-some (align f.type) _ h in
    let same : b' ≡ b = some-injective _ _ (sym has' ∙ has) in
    subst (λ ms. (run false ms c x).1 ≡ a) (some-injective _ _ e₃)
      (run-fields_align align size fs rest _ (larger x b) a tail (rw same at h₁))

unio_run-fields_align :
    (align size : Ref → Option ℕ) (fs : List StructField) (ms : List Measured) (n x a : ℕ)
    → measure align size false fs ≡ some ms
    → fields_align align fs x ≡ some a
    → (unio_run ms n x).1 ≡ a
unfolding measure fields_align unio_run
unio_run-fields_align align size [] ms n x a e h =
    subst (λ ms. (unio_run ms n x).1 ≡ a) (some-injective _ _ e) (some-injective _ _ h)
unio_run-fields_align align size (f ∷ fs) ms n x a e h =
    let (s, at, e₁) = bind-eq-some (size f.type) _ e in
    let (b, has, e₂) = bind-eq-some (align f.type) _ e₁ in
    let (rest, tail, e₃) = bind-eq-some (measure align size false fs) _ e₂ in
    let (b', has', h₁) = bind-eq-some (align f.type) _ h in
    let same : b' ≡ b = some-injective _ _ (sym has' ∙ has) in
    subst (λ ms. (unio_run ms n x).1 ≡ a) (some-injective _ _ e₃)
      (unio_run-fields_align align size fs rest (larger n s) (larger x b) a tail (rw same at h₁))

-- A multiple of a size is a multiple of its alignment, also modulo 2 ^ 32.
array-mod : (n s a : ℕ) → IsAlign a → s % a ≡ 0 → n * s % 2 ^ 32 % a ≡ 0
array-mod n s a (inl e) h = omega arith
array-mod n s a (inr (inl e)) h =
    let h' : s % 2 ≡ 0 = rw e at h in
    let half : s ≡ 2 * (s / 2) = omega arith in rw (half, e) (omega arith)
array-mod n s a (inr (inr (inl e))) h =
    let h' : s % 4 ≡ 0 = rw e at h in
    let quarter : s ≡ 4 * (s / 4) = omega arith in rw (quarter, e) (omega arith)
array-mod n s a (inr (inr (inr e))) h =
    let h' : s % 8 ≡ 0 = rw e at h in
    let eighth : s ≡ 8 * (s / 8) = omega arith in rw (eighth, e) (omega arith)

scalar-mod : (k : ScalarKind) → scalar_size k % scalar_align k ≡ 0
unfolding scalar_size scalar_align
scalar-mod ScalarKind.unknown = refl
scalar-mod _ = refl

module _ (align size : Ref → Option ℕ) (al : Aligns align) where
  abbrev Divides : Type 0
  Divides = (r : Ref) (s a : ℕ) → size r ≡ some s → align r ≡ some a → s % a ≡ 0

  forma-mod :
      (fs : List StructField) (s a : ℕ)
      → (do ms ← measure align size false fs; some (forma_size false ms)) ≡ some s
      → fields_align align fs 1 ≡ some a
      → s % a ≡ 0
  unfolding forma_size
  forma-mod fs s a e h =
      let (ms, measured, e₁) = bind-eq-some (measure align size false fs) _ e in
      let m = run-fields_align align size fs ms start 1 a measured h in
      let one : IsAlign a = fields_align-IsAlign align fs 1 a al (inl refl) h in
      rw (← some-injective _ _ e₁, m) (align_up-mod _ a one)

  unio-mod :
      (fs : List StructField) (s a : ℕ)
      → (do ms ← measure align size false fs; some (unio_size false ms)) ≡ some s
      → fields_align align fs 1 ≡ some a
      → s % a ≡ 0
  unfolding unio_size
  unio-mod fs s a e h =
      let (ms, measured, e₁) = bind-eq-some (measure align size false fs) _ e in
      let m = unio_run-fields_align align size fs ms 0 1 a measured h in
      let one : IsAlign a = fields_align-IsAlign align fs 1 a al (inl refl) h in
      rw (← some-injective _ _ e₁, m) (align_up-mod _ a one)

  node-mod :
      (t : TypeNode) (s a : ℕ)
      → Divides
      → node_size align size t ≡ some s
      → node_align align t ≡ some a
      → s % a ≡ 0
  unfolding node_size node_align
  node-mod (scalar k) s a div e h =
      rw (← some-injective _ _ e, ← some-injective _ _ h) (scalar-mod k)
  node-mod (acies inner n) s a div e h =
      let (x, at, e₁) = bind-eq-some (size inner) _ e in
      rw (← some-injective _ _ e₁) (array-mod n x a (al inner a h) (div inner x a at h))
  node-mod (forma n fs true) s a div e h = ground arith
  node-mod (forma n fs false) s a div e h = forma-mod fs s a e h
  node-mod (unio n fs true) s a div e h = ground arith
  node-mod (unio n fs false) s a div e h = unio-mod fs s a e h
  node-mod _ s a div e h = ground arith

-- The alignment of every type is 1, 2, 4 or 8 and divides its size, so the elements of an array
-- are aligned.
pub size-mod-IsAlign :
    (f : ℕ) (nodes : List TypeNode) (r : Ref) (s a : ℕ)
    → type_get_size f nodes r ≡ some s
    → type_get_align f nodes r ≡ some a
    → IsAlign a × (s % a ≡ 0)
unfolding type_get_size type_get_align
size-mod-IsAlign zero nodes r s a e h = absurd (ground arith)
size-mod-IsAlign (suc f) nodes none s a e h = ground arith
size-mod-IsAlign (suc f) nodes (some r) s a e h =
    let (t, at, e₁) = bind-eq-some (get_elem? nodes r) _ e in
    let (t', at', h₁) = bind-eq-some (get_elem? nodes r) _ h in
    let same : t' ≡ t = some-injective _ _ (sym at' ∙ at) in
    (
      align-IsAlign (suc f) nodes (some r) a h,
      node-mod (type_get_align f nodes) (type_get_size f nodes) (align-IsAlign f nodes) t s a
          (λ r x b p q. (size-mod-IsAlign f nodes r x b p q).1) e₁ (rw same at h₁),
    )
