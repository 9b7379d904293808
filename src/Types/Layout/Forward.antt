-- ===== src/Types/Layout/Forward.antt =====
-- The cursor of the layout loops: alignments, and that it only moves forward, in bits.
use scorivm.Base.Align.{align_up, align_up_pow, align_up_multiple}
use scorivm.Base.Logic.{ltb, if◌then◌else◌}
use scorivm.Base.{
  ℕ, ◌+◌, ◌*◌, ◌/◌, ◌%◌, ◌^◌, ◌≤◌, ◌<◌, ◌≡◌, ◌⊎◌, inl, inr, Bool, false, List, [], ◌∷◌, arith,
}
use scorivm.Types.Layout.{Measured, Cursor, place, past}

-- The alignments that there are.
abbrev pub IsAlign : ℕ → Type 0
IsAlign a = (a ≡ 1) ⊎ (a ≡ 2) ⊎ (a ≡ 4) ⊎ (a ≡ 8)

-- Rounding up, while the sum stays below 2 ^ 32.
pub align_up_bounds :
    (n a : ℕ)
    → IsAlign a
    → n + 8 ≤ 2 ^ 32
    → (n ≤ align_up 32 n a) × (align_up 32 n a < n + a) × (align_up 32 n a % a ≡ 0)
align_up_bounds n a (inl e) h =
    rw e (omega (arith, align_up_pow 32 0 n (omega arith) (omega arith)))
align_up_bounds n a (inr (inl e)) h =
    rw e (omega (arith, align_up_pow 32 1 n (omega arith) (omega arith)))
align_up_bounds n a (inr (inr (inl e))) h =
    rw e (omega (arith, align_up_pow 32 2 n (omega arith) (omega arith)))
align_up_bounds n a (inr (inr (inr e))) h =
    rw e (omega (arith, align_up_pow 32 3 n (omega arith) (omega arith)))

pub align_up-mod : (n a : ℕ) → IsAlign a → align_up 32 n a % a ≡ 0
align_up-mod n a (inl e) = rw e (align_up_multiple 32 0 n (omega arith))
align_up-mod n a (inr (inl e)) = rw e (align_up_multiple 32 1 n (omega arith))
align_up-mod n a (inr (inr (inl e))) = rw e (align_up_multiple 32 2 n (omega arith))
align_up-mod n a (inr (inr (inr e))) = rw e (align_up_multiple 32 3 n (omega arith))

-- The first bit that is not in use.
abbrev pub position : Cursor → ℕ
position c = 8 * c.byte_offset + c.bit_offset

abbrev pub extent : Cursor → ℕ
extent c = c.byte_offset + c.bit_offset

-- The width of a field in bits.
abbrev pub width : Measured → ℕ
width m = if ltb 0 m.bit_size then m.bit_size else 8 * m.size

-- What a field may add to the extent, its padding included.
abbrev pub weight : List Measured → ℕ
weight [] = 0
weight (m ∷ ms) = m.size + m.bit_size + 8 + weight ms

-- The byte offset `c` and all that follows stay below 2 ^ 31, so no `int` overflows.
abbrev pub Fits : Cursor → List Measured → Type 0
Fits c ms = extent c + weight ms + 16 < 2 ^ 31

module _ (d : Bool) (m : Measured) (c : Cursor) (al : IsAlign m.align)
    (h : extent c + 16 < 2 ^ 31) where
  pub place_forward : (position c ≤ position (place d m c)) × (extent (place d m c) ≤ extent c + 8)
  unfolding place
  place_forward = ground (
    arith,
    align_up_bounds c.byte_offset m.align al (omega arith),
    align_up_bounds (c.byte_offset + (c.bit_offset + 7) / 8) m.align al (omega arith),
  )

  -- A field that is no bit field starts at a whole byte, and is aligned unless it is packed.
  pub place_plain :
      m.bit_size ≡ 0
      → ((place d m c).bit_offset ≡ 0) × (d ≡ false → (place d m c).byte_offset % m.align ≡ 0)
  unfolding place
  place_plain e = ground (
    arith,
    align_up-mod c.byte_offset m.align al,
    align_up-mod (c.byte_offset + (c.bit_offset + 7) / 8) m.align al,
  )

pub position-past : (m : Measured) (c : Cursor) → position (past m c) ≡ position c + width m
unfolding past
position-past m c = ground arith

pub extent-past : (m : Measured) (c : Cursor) → extent (past m c) ≤ extent c + m.size + m.bit_size
unfolding past
extent-past m c = ground arith
