-- ===== src/Builder/Fold/Cast.antt =====
-- Casts of constants: `ir_build_cast` of src/ir/ir_builder.c.

use scorivm.Base.Logic.{ltb, ◌==◌, if◌then◌else◌}
use scorivm.Base.{ℕ, ◌+◌, ◌-◌, ◌%◌, ◌^◌, Bool, Option, none, some, [], ◌∷◌}
use scorivm.Builder.Instructions.{create_value, with_dest}
use scorivm.Builder.{Value, IrBuilder}
use scorivm.Sir.{sir_cast, SirValue, const_int, const_float}
use scorivm.Types.{Ref}
use scorivm.Builder.Fold.{Doubles}

-- What a cast asks of a type.
pub record CastType : Type 0 where
  pub ref : Ref
  pub is_float : Bool
  pub size : ℕ
  pub is_signed : Bool

-- The low bits of a pattern, widened by their sign where they have one.
abbrev pub narrow : ℕ → Bool → ℕ → ℕ
narrow bits is_signed v =
    let low : ℕ = v % 2 ^ bits in
    if is_signed then (if ltb low (2 ^ (bits - 1)) then low else low + 2 ^ 64 - 2 ^ bits) else low

abbrev pub cast_int : CastType → ℕ → ℕ
cast_int type v =
    if type.size == 1
    then narrow 8 type.is_signed v
    else if type.size == 2
    then narrow 16 type.is_signed v
    else if type.size == 4
    then narrow 32 type.is_signed v
    else v

module _ (doubles : Doubles) where
  -- The constant that a constant becomes.
  unfoldable pub cast_const : CastType → SirValue → Option SirValue
  cast_const type (const_int v) =
      if type.is_float
      then some (const_float (doubles.of_int v))
      else some (const_int (cast_int type v))
  cast_const type (const_float v) =
      if type.is_float then some (const_float v) else some (const_int (doubles.to_int v))
  cast_const type _ = none

  unfoldable pub build_cast_on :
      IrBuilder → Value → CastType → Option SirValue → Option Value × IrBuilder
  build_cast_on b v type (some content) =
      let (made, b1) : Value × IrBuilder = create_value b type.ref content in (some made, b1)
  build_cast_on b v type none =
      let (dest, b1) : Value × IrBuilder = with_dest b sir_cast (some v ∷ []) type.ref in
      (some dest, b1)

  unfoldable pub ir_build_cast : IrBuilder → Option Value → CastType → Option Value × IrBuilder
  ir_build_cast b none type = (none, b)
  ir_build_cast b (some v) type = build_cast_on b v type (cast_const type v.content)
