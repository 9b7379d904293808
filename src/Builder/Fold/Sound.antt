-- ===== src/Builder/Fold/Sound.antt =====
-- The values that `ir_build_binary` of src/ir/ir_builder.c gives in place of an instruction.
use native.Mathlib.Nat.{div_self}
use mathlib.Core.Path.{subst}
use mathlib.Core.Option.{some-injective}
use scorivm.Base.Logic.{◌==◌, Bool-cases}
use scorivm.Base.{
  ℕ, ◌+◌, ◌-◌, ◌*◌, ◌^◌, ◌<◌, ◌≡◌, refl, sym, ap, ◌∙◌, inl, inr, Bool, true, false, Option, none,
  some, arith,
}
use scorivm.Builder.Fold.{
  word64, is_negative, neg64, signed_div, Folded, int_result, bool_result, fold_int, Simple,
  left_one, right_one, constant, is_const, same_value, first_of, algebraic,
}
use scorivm.Builder.{Value}
use scorivm.Sir.{SirOpcode, sir_add, sir_sub, sir_mul, sir_div, SirValue, const_int}

abbrev pub number_of : Folded → ℕ
number_of (int_result n) = n
number_of (bool_result true) = 1
number_of (bool_result false) = 0

-- The operations whose simplifications are arithmetic.
abbrev pub is_arithmetic : SirOpcode → Bool
is_arithmetic sir_add = true
is_arithmetic sir_sub = true
is_arithmetic sir_mul = true
is_arithmetic sir_div = true
is_arithmetic _ = false

-- What holds for each result that a test stands before holds for the result.
first_of_elim :
    (P : Simple → Type 0) (test : Bool) (s : Simple) (rest : Option Simple)
    → (test ≡ true → P s)
    → ((t : Simple) → rest ≡ some t → P t)
    → (t : Simple) → first_of test s rest ≡ some t
    → P t
first_of_elim P true s rest now later t e = subst P (some-injective _ _ e) (now refl)
first_of_elim P false s rest now later t e = later t e

none_left : (P : Simple → Type 0) (t : Simple) → none ≡ some t → P t
none_left P t e = cc

-- The constants are 0 and 1.
unfoldable pub Small : Simple → Type 0
Small (constant n) = n < 2
Small left_one = 0 < 1
Small right_one = 0 < 1

pub algebraic-Small :
    (op : SirOpcode) (l r : Value) (s : Simple)
    → is_arithmetic op ≡ true
    → algebraic op l r ≡ some s
    → Small s
unfolding algebraic Small
algebraic-Small sir_add l r s a e =
    first_of_elim Small (is_const 0 r) left_one _ (λ z. omega arith)
      (first_of_elim Small (is_const 0 l) right_one none (λ z. omega arith) (none_left Small)) s e
algebraic-Small sir_sub l r s a e =
    first_of_elim Small (is_const 0 r) left_one _ (λ z. omega arith)
      (first_of_elim Small (same_value l r) (constant 0) none (λ z. omega arith) (none_left Small))
      s e
algebraic-Small sir_mul l r s a e =
    first_of_elim Small (is_const 1 r) left_one _ (λ z. omega arith)
      (first_of_elim Small (is_const 1 l) right_one _ (λ z. omega arith)
        (first_of_elim Small (is_const 0 r) (constant 0) _ (λ z. omega arith)
          (first_of_elim Small (is_const 0 l) (constant 0) none (λ z. omega arith)
            (none_left Small))))
      s e
algebraic-Small sir_div l r s a e =
    first_of_elim Small (is_const 1 r) left_one _ (λ z. omega arith)
      (first_of_elim Small (same_value l r) (constant 1) none (λ z. omega arith) (none_left Small))
      s e
algebraic-Small _ l r s a e = cc

-- What a run of the program gives for values: 64-bit patterns, with constants for themselves.
module _ (m : SirValue → ℕ) (m_const : (n : ℕ) → n < 2 ^ 64 → m (const_int n) ≡ n)
    (m_word : (v : SirValue) → m v < 2 ^ 64) where
  const_lem : (n : ℕ) (v : Value) → n < 2 ^ 64 → is_const n v ≡ true → m v.content ≡ n
  const_lem n v u h = go v.content h
    where
      go : (c : SirValue) → (elim c [ const_int m ↦ m == n | _ ↦ false ]) ≡ true → m c ≡ n
      go (const_int k) e = let same : k ≡ n = ground arith in m_const k (omega (arith, same)) ∙ same
      go _ e = cc

  unfoldable pub simple_value : Simple → Value → Value → ℕ
  simple_value left_one l r = m l.content
  simple_value right_one l r = m r.content
  simple_value (constant n) l r = n

  div_one : (n : ℕ) → n < 2 ^ 64 → n ≡ signed_div n 1
  div_one n h = ground arith

  div_same : (n : ℕ) → n < 2 ^ 64 → (n == 0) ≡ false → 1 ≡ signed_div n n
  div_same n h k = elim (Bool-cases (is_negative n)) [
    | inl below ↦ let positive : 0 < neg64 n = ground arith in rw below (sym (div_self positive))
    | inr above ↦ let positive : 0 < n = ground arith in rw above (sym (div_self positive))
  ]

  module _ (l r : Value) (same : l.address ≡ r.address → l.content ≡ r.content) where
    same_means : same_value l r ≡ true → m l.content ≡ m r.content
    same_means z = ap m (same (ground arith))

    pub algebraic-agrees :
        (op : SirOpcode) (s : Simple) (f : Folded)
        → is_arithmetic op ≡ true
        → algebraic op l r ≡ some s
        → fold_int op (m l.content) (m r.content) ≡ some f
        → simple_value s l r ≡ number_of f
    unfolding algebraic fold_int simple_value
    algebraic-agrees sir_add s f a e h =
        let P : Simple → Type 0 = λ t. simple_value t l r ≡ word64 (m l.content + m r.content) in
        let sum =
          first_of_elim P (is_const 0 r) left_one _
            (λ z. omega (arith, const_lem 0 r (omega arith) z, m_word l.content))
            (first_of_elim P (is_const 0 l) right_one none
              (λ z. omega (arith, const_lem 0 l (omega arith) z, m_word r.content)) (none_left P))
            s e in
        sum ∙ ap number_of (some-injective _ _ h)
    algebraic-agrees sir_sub s f a e h =
        let P : Simple → Type 0 =
          λ t. simple_value t l r ≡ word64 (m l.content + 2 ^ 64 - m r.content) in
        let difference =
          first_of_elim P (is_const 0 r) left_one _
            (λ z. omega (arith, const_lem 0 r (omega arith) z, m_word l.content))
            (first_of_elim P (same_value l r) (constant 0) none
              (λ z. omega (arith, same_means z, m_word r.content)) (none_left P))
            s e in
        difference ∙ ap number_of (some-injective _ _ h)
    algebraic-agrees sir_mul s f a e h =
        let P : Simple → Type 0 = λ t. simple_value t l r ≡ word64 (m l.content * m r.content) in
        let product =
          first_of_elim P (is_const 1 r) left_one _
            (λ z. rw (const_lem 1 r (omega arith) z) omega (arith, m_word l.content))
            (first_of_elim P (is_const 1 l) right_one _
              (λ z. rw (const_lem 1 l (omega arith) z) omega (arith, m_word r.content))
              (first_of_elim P (is_const 0 r) (constant 0) _
                (λ z. rw (const_lem 0 r (omega arith) z) omega arith)
                (first_of_elim P (is_const 0 l) (constant 0) none
                  (λ z. rw (const_lem 0 l (omega arith) z) omega arith) (none_left P))))
            s e in
        product ∙ ap number_of (some-injective _ _ h)
    algebraic-agrees sir_div s f a e h = elim (Bool-cases (m r.content == 0)) [
      | inl trap ↦ absurd (cc (rw trap at h))
      | inr some_divisor ↦
          let P : Simple → Type 0 =
            λ t. simple_value t l r ≡ signed_div (m l.content) (m r.content) in
          let quotient =
            first_of_elim P (is_const 1 r) left_one _
              (λ z. rw (const_lem 1 r (omega arith) z) (div_one (m l.content) (m_word l.content)))
              (first_of_elim P (same_value l r) (constant 1) none
                (λ z. rw (same_means z) (div_same (m r.content) (m_word r.content) some_divisor))
                (none_left P))
              s e in
          quotient ∙ ap number_of (some-injective _ _ (rw some_divisor at h))
    ]
    algebraic-agrees _ s f a e h = cc
