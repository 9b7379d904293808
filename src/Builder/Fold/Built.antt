-- ===== src/Builder/Fold/Built.antt =====
-- The value that `ir_build_binary` of src/ir/ir_builder.c returns.
use native.Mathlib.Nat.{div-le_self}
use mathlib.Core.Path.{subst}
use mathlib.Core.Option.{some-injective}
use scorivm.Base.Logic.{◌==◌, if◌then◌else◌, Bool-cases, if-elim}
use scorivm.Base.{
  ℕ, ◌/◌, ◌^◌, ◌≤◌, ◌<◌, ◌≡◌, refl, sym, ap, ◌∙◌, ◌⊎◌, inl, inr, Bool, true, false, Option, none,
  some, [], ◌∷◌, arith,
}
use scorivm.Builder.Fold.Sound.{
  number_of, is_arithmetic, Small, algebraic-Small, simple_value, algebraic-agrees,
}
use scorivm.Builder.Fold.{
  abs64, is_negative, signed_div, Doubles, Folded, int_result, fold_int, Simple, left_one,
  right_one, constant, algebraic, build_op, build_folded, build_simple, build_values,
  ir_build_binary, is_comparison,
}
use scorivm.Builder.Fold.Meaning.{Gives, Gives-fold_int, Gives-arithmetic}
use scorivm.Builder.Instructions.{create_vreg, append_inst, with_dest}
use scorivm.Builder.{Value, IrBuilder}
use scorivm.Sir.{SirOpcode, sir_add, sir_sub, sir_mul, sir_div, SirValue, const_int, const_float}
use scorivm.Types.{Ref}

abbrev pub is_float_const : SirValue → Bool
is_float_const (const_float bits) = true
is_float_const _ = false

arithmetic_number :
    (op : SirOpcode) (x y : ℕ) (f : Folded)
    → is_arithmetic op ≡ true
    → fold_int op x y ≡ some f
    → f ≡ int_result (number_of f)
unfolding fold_int
arithmetic_number sir_add x y f a h =
    sym (some-injective _ _ h) ∙ ap (λ g. int_result (number_of g)) (some-injective _ _ h)
arithmetic_number sir_sub x y f a h =
    sym (some-injective _ _ h) ∙ ap (λ g. int_result (number_of g)) (some-injective _ _ h)
arithmetic_number sir_mul x y f a h =
    sym (some-injective _ _ h) ∙ ap (λ g. int_result (number_of g)) (some-injective _ _ h)
arithmetic_number sir_div x y f a h = elim (Bool-cases (y == 0)) [
  | inl trap ↦ absurd (cc (rw trap at h))
  | inr divides ↦
      let same = some-injective _ _ (rw divides at h) in
      sym same ∙ ap (λ g. int_result (number_of g)) same
]
arithmetic_number _ x y f a h = cc

-- A constant is a 64-bit pattern.
unfoldable pub IsWord : SirValue → Type 0
IsWord (const_int n) = n < 2 ^ 64
IsWord _ = 0 < 1

abs64_word : (n : ℕ) → n < 2 ^ 64 → abs64 n < 2 ^ 64
abs64_word n h = ground arith

signed_div_word : (x y : ℕ) → x < 2 ^ 64 → signed_div x y < 2 ^ 64
signed_div_word x y h =
    let less : abs64 x / abs64 y ≤ abs64 x = div-le_self (abs64 x) (abs64 y) in
    let small = abs64_word x h in
    if-elim (λ n. n < 2 ^ 64) (is_negative x) _ _
      (if-elim (λ n. n < 2 ^ 64) (is_negative y) _ _ (omega (arith, less, small)) (omega arith))
      (if-elim (λ n. n < 2 ^ 64) (is_negative y) _ _ (omega arith) (omega (arith, less, small)))

fold_word :
    (op : SirOpcode) (x y : ℕ) (f : Folded)
    → x < 2 ^ 64
    → is_arithmetic op ≡ true
    → fold_int op x y ≡ some f
    → number_of f < 2 ^ 64
unfolding fold_int
fold_word sir_add x y f u a h =
    subst (λ g. number_of g < 2 ^ 64) (some-injective _ _ h) (omega arith)
fold_word sir_sub x y f u a h =
    subst (λ g. number_of g < 2 ^ 64) (some-injective _ _ h) (omega arith)
fold_word sir_mul x y f u a h =
    subst (λ g. number_of g < 2 ^ 64) (some-injective _ _ h) (omega arith)
fold_word sir_div x y f u a h = elim (Bool-cases (y == 0)) [
  | inl trap ↦ absurd (cc (rw trap at h))
  | inr divides ↦
      subst (λ g. number_of g < 2 ^ 64) (some-injective _ _ (rw divides at h))
        (signed_div_word x y u)
]
fold_word _ x y f u a h = cc

arithmetic_compares : (op : SirOpcode) → is_arithmetic op ≡ true → is_comparison op ≡ false
arithmetic_compares sir_add a = refl
arithmetic_compares sir_sub a = refl
arithmetic_compares sir_mul a = refl
arithmetic_compares sir_div a = refl
arithmetic_compares _ a = cc

module _ (doubles : Doubles) (bool_type : Ref) (m : SirValue → ℕ)
    (m_const : (n : ℕ) → n < 2 ^ 64 → m (const_int n) ≡ n) (m_word : (v : SirValue) → m v < 2 ^ 64)
    (b : IrBuilder) (op : SirOpcode) (l r : Value)
    (same : l.address ≡ r.address → l.content ≡ r.content) where
  -- The operation is appended with a register of its own, or nothing is appended and the value is `n`.
  pub Agrees : ℕ → Value × IrBuilder → Type 0
  Agrees n made =
      (made ≡ (
        (create_vreg b l.type).0,
        append_inst (create_vreg b l.type).1 op (some (create_vreg b l.type).0)
            (some l ∷ some r ∷ []),
      ))
      ⊎ ((made.1.blocks ≡ b.blocks) × (m made.0.content ≡ n))

  simple-Agrees :
      (o : Option Simple) (f : Folded)
      → is_arithmetic op ≡ true
      → algebraic op l r ≡ o
      → fold_int op (m l.content) (m r.content) ≡ some f
      → Agrees (number_of f) (build_simple doubles bool_type b op l r o)
  unfolding Agrees build_simple build_op simple_value Small
  simple-Agrees none f a e h = inl (
      ap (λ t. with_dest b op (some l ∷ some r ∷ []) (if t then bool_type else l.type))
        (arithmetic_compares op a))
  simple-Agrees (some left_one) f a e h =
      inr (refl, algebraic-agrees m m_const m_word l r same op left_one f a e h)
  simple-Agrees (some right_one) f a e h =
      inr (refl, algebraic-agrees m m_const m_word l r same op right_one f a e h)
  simple-Agrees (some (constant n)) f a e h = inr (
    refl,
    m_const n (omega (arith, algebraic-Small op l r (constant n) a e))
        ∙ algebraic-agrees m m_const m_word l r same op (constant n) f a e h,
  )

  values-Agree :
      (c d : SirValue) (f : Folded)
      → l.content ≡ c
      → r.content ≡ d
      → IsWord c
      → IsWord d
      → is_arithmetic op ≡ true
      → is_float_const c ≡ false
      → fold_int op (m l.content) (m r.content) ≡ some f
      → Agrees (number_of f) (build_values doubles bool_type b op l r c d)
  unfolding Agrees build_values build_folded IsWord
  values-Agree (const_int x) (const_int y) f p q i j a n h =
      let left : m l.content ≡ x = ap m p ∙ m_const x i in
      let right : m r.content ≡ y = ap m q ∙ m_const y j in
      let folded : fold_int op x y ≡ some f = rw (left, right) at h in
      let made = arithmetic_number op x y f a folded in
      let whole : fold_int op x y ≡ some (int_result (number_of f)) =
        folded ∙ ap (λ g. some g) made in
      rw whole (inr (refl, m_const (number_of f) (fold_word op x y f i a folded)))
  values-Agree (const_float x) d f p q i j a n h = cc
  values-Agree _ d f p q i j a n h = simple-Agrees (algebraic op l r) f a refl h

  -- When `n` is what an addition, subtraction, multiplication or signed division gives for what two operands
  -- are in a run, and the left one is no constant of floating point, ir_build_binary appends the operation
  -- on these operands with a new register as its result, or it appends nothing and returns a value that
  -- is `n` in the run.
  pub ir_build_binary-Agrees :
      (n : ℕ)
      → n < 2 ^ 64
      → IsWord l.content
      → IsWord r.content
      → is_float_const l.content ≡ false
      → Gives op (m l.content) (m r.content) n
      → (v : Value) × (b1 : IrBuilder) × (ir_build_binary doubles bool_type b op (some l) (some r)
          ≡ (some v, b1))
        × Agrees n (v, b1)
  unfolding ir_build_binary
  ir_build_binary-Agrees n k i j f g =
      let made = build_values doubles bool_type b op l r l.content r.content in
      let folds =
        Gives-fold_int op (m l.content) (m r.content) n (m_word l.content) (m_word r.content) k g in
      let agrees =
        values-Agree l.content r.content (int_result n) refl refl i j
          (Gives-arithmetic op (m l.content) (m r.content) n g) f folds in
      (made.0, made.1, refl, agrees)
