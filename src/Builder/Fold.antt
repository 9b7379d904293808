-- ===== src/Builder/Fold.antt =====
-- Arithmetic on constants: `ir_build_binary` of src/ir/ir_builder.c. An `int64_t` is its
-- 64-bit pattern; where C leaves a result open, it is that of the processor: sums wrap, a shift takes
-- its count modulo 64. The operations on numbers of floating point are parameters, on bits.
pub mod Sound
pub mod Built
pub mod Meaning
pub mod Cast
use Prim.Native.Nat.{bit_and, bit_or, bit_xor}
use scorivm.Base.Logic.{ltb, leb, ◌==◌, if◌then◌else◌}
use scorivm.Base.{
  ℕ, ◌+◌, ◌-◌, ◌*◌, ◌/◌, ◌%◌, ◌^◌, Bool, true, false, not, ◌||◌, Option, none, some, List, [], ◌∷◌,
}
use scorivm.Builder.Instructions.{create_value, ir_const_int, ir_const_float, with_dest}
use scorivm.Builder.{Value, IrBuilder}
use scorivm.Sir.{
  SirOpcode, sir_add, sir_sub, sir_mul, sir_div, sir_mod, sir_fadd, sir_fsub, sir_fmul, sir_fdiv,
  sir_and, sir_or, sir_xor, sir_shl, sir_shr, sir_icmp_eq, sir_icmp_ne, sir_icmp_lt, sir_icmp_le,
  sir_icmp_gt, sir_icmp_ge, sir_fcmp_eq, sir_fcmp_ne, sir_fcmp_lt, sir_fcmp_le, sir_fcmp_gt,
  sir_fcmp_ge, sir_cast, SirValue, const_int, const_float, const_bool,
}
use scorivm.Types.{Ref}

abbrev pub word64 : ℕ → ℕ
word64 n = n % 2 ^ 64

abbrev pub is_negative : ℕ → Bool
is_negative n = leb (2 ^ 63) n

abbrev pub neg64 : ℕ → ℕ
neg64 n = (2 ^ 64 - n) % 2 ^ 64

abbrev pub abs64 : ℕ → ℕ
abs64 n = if is_negative n then neg64 n else n

abbrev pub signed_lt : ℕ → ℕ → Bool
signed_lt l r = ltb (word64 (l + 2 ^ 63)) (word64 (r + 2 ^ 63))

-- The quotient towards 0, and the remainder with the sign of the left operand.
abbrev pub signed_div : ℕ → ℕ → ℕ
signed_div l r =
    if is_negative l
    then (if is_negative r then abs64 l / abs64 r else neg64 (abs64 l / abs64 r))
    else (if is_negative r then neg64 (abs64 l / abs64 r) else abs64 l / abs64 r)

abbrev pub signed_mod : ℕ → ℕ → ℕ
signed_mod l r = if is_negative l then neg64 (abs64 l % abs64 r) else abs64 l % abs64 r

abbrev pub signed_shr : ℕ → ℕ → ℕ
signed_shr l r =
    if is_negative l then 2 ^ 64 - 1 - (2 ^ 64 - 1 - l) / 2 ^ (r % 64) else l / 2 ^ (r % 64)

-- `res`, or `cmp_res` where the operation compares.
pub data Folded : Type 0 where
  int_result : ℕ → Folded
  bool_result : Bool → Folded

abbrev pub number_unless : Bool → ℕ → Option Folded
number_unless bad n = if bad then none else some (int_result n)

unfoldable pub fold_int : SirOpcode → ℕ → ℕ → Option Folded
fold_int sir_add l r = some (int_result (word64 (l + r)))
fold_int sir_sub l r = some (int_result (word64 (l + 2 ^ 64 - r)))
fold_int sir_mul l r = some (int_result (word64 (l * r)))
fold_int sir_div l r = number_unless (r == 0) (signed_div l r)
fold_int sir_mod l r = number_unless (r == 0) (signed_mod l r)
fold_int sir_and l r = some (int_result (bit_and l r))
fold_int sir_or l r = some (int_result (bit_or l r))
fold_int sir_xor l r = some (int_result (bit_xor l r))
fold_int sir_shl l r = some (int_result (word64 (l * 2 ^ (r % 64))))
fold_int sir_shr l r = some (int_result (signed_shr l r))
fold_int sir_icmp_eq l r = some (bool_result (l == r))
fold_int sir_icmp_ne l r = some (bool_result (not (l == r)))
fold_int sir_icmp_lt l r = some (bool_result (signed_lt l r))
fold_int sir_icmp_le l r = some (bool_result (not (signed_lt r l)))
fold_int sir_icmp_gt l r = some (bool_result (signed_lt r l))
fold_int sir_icmp_ge l r = some (bool_result (not (signed_lt l r)))
fold_int _ l r = none

-- The operations of the C compiler on `double`.
pub record Doubles : Type 0 where
  pub add : ℕ → ℕ → ℕ
  pub sub : ℕ → ℕ → ℕ
  pub mul : ℕ → ℕ → ℕ
  pub div : ℕ → ℕ → ℕ
  pub eq : ℕ → ℕ → Bool
  pub lt : ℕ → ℕ → Bool
  pub le : ℕ → ℕ → Bool
  pub of_int : ℕ → ℕ
  pub to_int : ℕ → ℕ

abbrev pub is_comparison : SirOpcode → Bool
is_comparison sir_icmp_eq = true
is_comparison sir_icmp_ne = true
is_comparison sir_icmp_lt = true
is_comparison sir_icmp_le = true
is_comparison sir_icmp_gt = true
is_comparison sir_icmp_ge = true
is_comparison sir_fcmp_eq = true
is_comparison sir_fcmp_ne = true
is_comparison sir_fcmp_lt = true
is_comparison sir_fcmp_le = true
is_comparison sir_fcmp_gt = true
is_comparison sir_fcmp_ge = true
is_comparison _ = false

-- What an operand that is no two constants is known for: which of the two it is, or a int_result.
pub data Simple : Type 0 where
  left_one right_one : Simple
  constant : ℕ → Simple

abbrev pub is_const : ℕ → Value → Bool
is_const n v = elim v.content [ const_int m ↦ m == n | _ ↦ false ]

abbrev pub same_value : Value → Value → Bool
same_value l r = l.address == r.address

abbrev pub first_of : Bool → Simple → Option Simple → Option Simple
first_of test simple rest = if test then some simple else rest

unfoldable pub algebraic : SirOpcode → Value → Value → Option Simple
algebraic sir_add l r = first_of (is_const 0 r) left_one (first_of (is_const 0 l) right_one none)
algebraic sir_sub l r =
    first_of (is_const 0 r) left_one (first_of (same_value l r) (constant 0) none)
algebraic sir_mul l r = first_of (is_const 1 r) left_one (
    first_of (is_const 1 l) right_one
      (first_of (is_const 0 r) (constant 0) (first_of (is_const 0 l) (constant 0) none)))
algebraic sir_div l r =
    first_of (is_const 1 r) left_one (first_of (same_value l r) (constant 1) none)
algebraic sir_and l r =
    first_of (is_const 0 r) (constant 0)
      (first_of (is_const 0 l) (constant 0) (first_of (same_value l r) left_one none))
algebraic sir_or l r =
    first_of (is_const 0 r) left_one
      (first_of (is_const 0 l) right_one (first_of (same_value l r) left_one none))
algebraic sir_xor l r =
    first_of (is_const 0 r) left_one
      (first_of (is_const 0 l) right_one (first_of (same_value l r) (constant 0) none))
algebraic _ l r = none

module _ (doubles : Doubles) (bool_type : Ref) where
  -- `r != 0.0` is asked of the bits by `eq`; the bits of 0.0 are 0.
  unfoldable pub fold_float : SirOpcode → ℕ → ℕ → Option Folded
  fold_float sir_fadd l r = some (int_result (doubles.add l r))
  fold_float sir_fsub l r = some (int_result (doubles.sub l r))
  fold_float sir_fmul l r = some (int_result (doubles.mul l r))
  fold_float sir_fdiv l r = number_unless (doubles.eq r 0) (doubles.div l r)
  fold_float sir_fcmp_eq l r = some (bool_result (doubles.eq l r))
  fold_float sir_fcmp_ne l r = some (bool_result (not (doubles.eq l r)))
  fold_float sir_fcmp_lt l r = some (bool_result (doubles.lt l r))
  fold_float sir_fcmp_le l r = some (bool_result (doubles.le l r))
  fold_float sir_fcmp_gt l r = some (bool_result (doubles.lt r l))
  fold_float sir_fcmp_ge l r = some (bool_result (doubles.le r l))
  fold_float _ l r = none

  -- An instruction is made: `no_fold`.
  unfoldable pub build_op : IrBuilder → SirOpcode → Value → Value → Value × IrBuilder
  build_op b op l r =
      with_dest b op (some l ∷ some r ∷ []) (if is_comparison op then bool_type else l.type)

  -- The constant of the fold, an integer or a int_result of floating point as the operands are.
  unfoldable pub build_folded :
      IrBuilder → (ℕ → SirValue) → SirOpcode → Value → Value → Option Folded → Value × IrBuilder
  build_folded b make op l r none = build_op b op l r
  build_folded b make op l r (some (int_result n)) = create_value b l.type (make n)
  build_folded b make op l r (some (bool_result t)) = create_value b bool_type (const_bool t)

  unfoldable pub build_simple :
      IrBuilder → SirOpcode → Value → Value → Option Simple → Value × IrBuilder
  build_simple b op l r none = build_op b op l r
  build_simple b op l r (some left_one) = (l, b)
  build_simple b op l r (some right_one) = (r, b)
  build_simple b op l r (some (constant n)) = ir_const_int b l.type n

  unfoldable pub build_values :
      IrBuilder → SirOpcode → Value → Value → SirValue → SirValue → Value × IrBuilder
  build_values b op l r (const_int m) (const_int n) =
      build_folded b const_int op l r (fold_int op m n)
  build_values b op l r (const_float m) (const_float n) =
      build_folded b const_float op l r (fold_float op m n)
  build_values b op l r _ _ = build_simple b op l r (algebraic op l r)

  unfoldable pub ir_build_binary :
      IrBuilder → SirOpcode → Option Value → Option Value → Option Value × IrBuilder
  ir_build_binary b op (some l) (some r) =
      let (v, b1) : Value × IrBuilder = build_values b op l r l.content r.content in (some v, b1)
  ir_build_binary b op _ _ = (none, b)
