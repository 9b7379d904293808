-- ===== src/Builder/Fold/Meaning.antt =====
-- What the arithmetic of src/ir/ir_builder.c on two signed 64-bit patterns should give, by equations.
use native.Mathlib.Nat.{add-mul-div_right, div-eq_of_lt}
use scorivm.Base.Logic.{leb, ◌==◌, if◌then◌else◌, Bool-cases}
use scorivm.Base.{
  ℕ, ◌+◌, ◌-◌, ◌*◌, ◌/◌, ◌%◌, ◌^◌, ◌<◌, ◌≡◌, refl, sym, ap, ◌∙◌, inl, inr, Bool, true, false, not,
  some, arith,
}
use scorivm.Builder.Fold.{abs64, signed_div, int_result, fold_int}
use scorivm.Builder.Fold.Sound.{is_arithmetic}
use scorivm.Sir.{SirOpcode, sir_add, sir_sub, sir_mul, sir_div}

abbrev pub below_zero : ℕ → Bool
below_zero n = leb (2 ^ 63) n

abbrev pub magnitude : ℕ → ℕ
magnitude n = if below_zero n then 2 ^ 64 - n else n

-- The pattern of a number with a sign.
abbrev pub pattern_of : Bool → ℕ → ℕ
pattern_of negative q = if negative then (2 ^ 64 - q) % 2 ^ 64 else q

abbrev pub differ : Bool → Bool → Bool
differ true b = not b
differ false b = b

-- `n` is the quotient of `x` and `y` towards 0, which 63 bits and a sign hold.
pub record IsQuotient (x y n : ℕ) : Type 0 where
  pub quotient : ℕ
  pub rest : ℕ
  pub smaller : rest < magnitude y
  pub whole : magnitude x ≡ quotient * magnitude y + rest
  pub fits : differ (below_zero x) (below_zero y) ≡ false → quotient < 2 ^ 63
  pub signed : n ≡ pattern_of (differ (below_zero x) (below_zero y)) quotient

-- `n` is what the operation gives for `x` and `y`.
unfoldable pub Gives : SirOpcode → ℕ → ℕ → ℕ → Type 0
Gives sir_add x y n = (x + y) % 2 ^ 64 ≡ n
Gives sir_sub x y n = (n + y) % 2 ^ 64 ≡ x
Gives sir_mul x y n = x * y % 2 ^ 64 ≡ n
Gives sir_div x y n = IsQuotient x y n
Gives _ x y n = ⊥

magnitude-abs64 : (n : ℕ) → n < 2 ^ 64 → abs64 n ≡ magnitude n
magnitude-abs64 n h = ground arith

quotient-eq : (a b q r : ℕ) → r < b → a ≡ q * b + r → a / b ≡ q
quotient-eq a b q r h e =
    let whole : r + q * b ≡ a = omega arith in
    ap (λ z. z / b) (sym whole)
    ∙ (add-mul-div_right r q (omega arith) ∙ ap (λ z. z + q) (div-eq_of_lt h) ∙ omega arith)

nonzero_of : (y : ℕ) → y < 2 ^ 64 → 0 < magnitude y → (y == 0) ≡ false
nonzero_of y j h = ground arith

signed-pattern :
    (x y : ℕ)
    → signed_div x y ≡ pattern_of (differ (below_zero x) (below_zero y)) (abs64 x / abs64 y)
signed-pattern x y = elim (Bool-cases (below_zero x)) [
  | inl low ↦ elim (Bool-cases (below_zero y)) [
    | inl low' ↦ rw (low, low') refl
    | inr high' ↦ rw (low, high') refl
  ]
  | inr high ↦ elim (Bool-cases (below_zero y)) [
    | inl low' ↦ rw (high, low') refl
    | inr high' ↦ rw (high, high') refl
  ]
]

pub Gives-fold_int :
    (op : SirOpcode) (x y n : ℕ)
    → x < 2 ^ 64
    → y < 2 ^ 64
    → n < 2 ^ 64
    → Gives op x y n
    → fold_int op x y ≡ some (int_result n)
unfolding fold_int Gives
Gives-fold_int sir_add x y n i j k g = ap (λ z. some (int_result z)) g
Gives-fold_int sir_sub x y n i j k g =
    let e : (x + 2 ^ 64 - y) % 2 ^ 64 ≡ n = omega arith in ap (λ z. some (int_result z)) e
Gives-fold_int sir_mul x y n i j k g = ap (λ z. some (int_result z)) g
Gives-fold_int sir_div x y n i j k g =
    let nonzero : (y == 0) ≡ false = nonzero_of y j (omega (arith, g.smaller)) in
    let divided : abs64 x / abs64 y ≡ g.quotient =
      ap (λ z. z / abs64 y) (magnitude-abs64 x i)
      ∙ (ap (λ z. magnitude x / z) (magnitude-abs64 y j)
          ∙ quotient-eq (magnitude x) (magnitude y) g.quotient g.rest g.smaller g.whole) in
    let e : signed_div x y ≡ n =
      signed-pattern x y
      ∙ (ap (pattern_of (differ (below_zero x) (below_zero y))) divided ∙ sym g.signed) in
    rw nonzero (ap (λ z. some (int_result z)) e)
Gives-fold_int _ x y n i j k g = absurd g

pub Gives-arithmetic : (op : SirOpcode) (x y n : ℕ) → Gives op x y n → is_arithmetic op ≡ true
unfolding Gives
Gives-arithmetic sir_add x y n g = refl
Gives-arithmetic sir_sub x y n g = refl
Gives-arithmetic sir_mul x y n g = refl
Gives-arithmetic sir_div x y n g = refl
Gives-arithmetic _ x y n g = absurd g
