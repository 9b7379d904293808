-- ===== src/Encode/Memory/Address.antt =====
-- The addresses that a processor reads in the memory operands that src/backend/pe_linker.c writes.
use scorivm.Base.Logic.{Bytes, ltb, ◌==◌, if◌then◌else◌, ◌>>=◌}
use scorivm.Base.{
  ℕ, zero, suc, ◌+◌, ◌-◌, ◌*◌, ◌/◌, ◌%◌, ◌^◌, ◌<◌, ◌≡◌, ◌≢◌, refl, Bool, true, false, not, ◌&&◌,
  Option, none, some, [], ◌∷◌, ◌++◌, arith,
}
use scorivm.Encode.Decode.{read32, read32-emit32, named}
use scorivm.Encode.{byte, emit8, emit32, emit_modrm, emit_sib, is_disp8}

-- An index with the power of two that it is scaled by; a displacement is a 32-bit pattern.
pub record Address : Type 0 where
  pub base : ℕ
  pub index : Option (ℕ × ℕ)
  pub disp : ℕ

abbrev pub address : ℕ → Option (ℕ × ℕ) → ℕ → Address
address base index disp = record { base = base; index = index; disp = disp }

-- A byte widened to 32 bits by its sign.
abbrev pub sign_extend8 : ℕ → ℕ
sign_extend8 v = if ltb v 128 then v else v + (2 ^ 32 - 2 ^ 8)

-- The displacement that a mode calls for.
unfoldable pub read_disp : ℕ → Bytes → Option (ℕ × Bytes)
read_disp mode rest =
    if mode == 0
    then some (0, rest)
    else if mode == 1
    then read_byte rest
    else if mode == 2
    then read32 rest
    else none
  where
    read_byte : Bytes → Option (ℕ × Bytes)
    read_byte [] = none
    read_byte (c ∷ rest) = some (sign_extend8 c, rest)

-- The register and the address behind an opcode; `x` and `b` are the bits of the prefix. Addresses
-- without a base are not among those that are written.
unfoldable pub read_address : Bool → Bool → Bytes → Option ((ℕ × Address) × Bytes)
read_address x b [] = none
read_address x b (m ∷ rest) =
    if m % 8 == 4 then with_sib rest else if m % 8 == 5 && m / 64 == 0 then none else (do
      (disp, end) ← read_disp (m / 64) rest
      some ((m / 8 % 8, address (named b (m % 8)) none disp), end))
  where
    with_sib : Bytes → Option ((ℕ × Address) × Bytes)
    with_sib [] = none
    with_sib (s ∷ rest) = if s % 8 == 5 && m / 64 == 0 then none else (do
      (disp, end) ← read_disp (m / 64) rest
      some (
        (
          m / 8 % 8,
          address (named b (s % 8))
              (if s / 8 % 8 == 4 && not x then none else some (named x (s / 8 % 8), s / 64)) disp,
        ),
        end,
      ))

-- What is read with each mode.
unfoldable pub disp_bytes : ℕ → ℕ → Bytes
disp_bytes mode v = if mode == 0 then [] else if mode == 1 then emit8 v else emit32 v

-- A mode that a displacement may be written with.
pub FitsMode : ℕ → ℕ → Type 0
FitsMode mode v = (v < 2 ^ 32) × (mode < 3) × (mode ≡ 0 → v ≡ 0) × (mode ≡ 1 → is_disp8 v ≡ true)

read_disp-disp_bytes :
    (mode v : ℕ) (rest : Bytes)
    → FitsMode mode v
    → read_disp mode (disp_bytes mode v ++ rest) ≡ some (v, rest)
unfolding read_disp disp_bytes FitsMode
read_disp-disp_bytes zero v rest (u, m, zero_case, byte_case) =
    let same : v ≡ 0 = zero_case refl in rw same refl
read_disp-disp_bytes (suc zero) v rest (u, m, zero_case, byte_case) =
    let fits = byte_case refl in
    let same : sign_extend8 (v % 256) ≡ v = ground arith in rw same refl
read_disp-disp_bytes (suc (suc zero)) v rest (u, m, zero_case, byte_case) = read32-emit32 v rest u
read_disp-disp_bytes (suc (suc (suc mode))) v rest (u, m, zero_case, byte_case) =
    absurd (omega arith)

-- The mode that is chosen for a base register and a displacement.
abbrev pub mode_of : ℕ → ℕ → ℕ
mode_of b v = if v == 0 && (if b == 5 then false else true) then 0 else if is_disp8 v then 1 else 2

pub mode_of-FitsMode : (b v : ℕ) → v < 2 ^ 32 → FitsMode (mode_of b v) v
unfolding FitsMode
mode_of-FitsMode b v h = (h, ground arith, λ e. ground arith, λ e. ground arith)

pub not_bare : (b v : ℕ) → (b == 5 && mode_of b v == 0) ≡ false
not_bare b v = ground arith

-- The parts of a byte of three byte_fields.
byte_fields :
    (hi mid low : ℕ)
    → hi < 4
    → mid < 8
    → low < 8
    → let m = byte (hi % 4 * 64 + mid % 8 * 8 + low % 8) in
      (m / 64 ≡ hi) × (m / 8 % 8 ≡ mid) × (m % 8 ≡ low)
byte_fields hi mid low h k l = (omega arith, omega arith, omega arith)

module _ (x b : Bool) (mode r low v : ℕ) (rest : Bytes) (fits : FitsMode mode v) (small : r < 8)
    (l : low < 8) where
  open_mode : mode < 4
  unfolding FitsMode
  open_mode = omega (arith, fits.1)

  -- A base without a further byte.
  pub plain-reads :
      low ≢ 4
      → (low == 5 && mode == 0) ≡ false
      → read_address x b (emit_modrm mode r low ++ (disp_bytes mode v ++ rest))
        ≡ some ((r, address (named b low) none v), rest)
  unfolding read_address emit_modrm
  plain-reads ne bare =
      let (top, mid, base) = byte_fields mode r low open_mode small l in
      let no_sib : (low == 4) ≡ false = ground arith in
      rw (top, mid, base, no_sib, bare, read_disp-disp_bytes mode v rest fits) refl

  -- A base, an index and its scale in a further byte.
  pub sib-reads :
      (scale index : ℕ)
      → scale < 4
      → index < 8
      → (low == 5 && mode == 0) ≡ false
      → read_address x b
          (emit_modrm mode r 4 ++ (emit_sib scale index low ++ (disp_bytes mode v ++ rest)))
        ≡ some (
          (
            r,
            address
                (named b low)
                (if index == 4 && not x then none else some (named x index, scale))
                v,
          ),
          rest,
        )
  unfolding read_address emit_modrm emit_sib
  sib-reads scale index hs hi bare =
      let (top, mid, four) = byte_fields mode r 4 open_mode small (omega arith) in
      let (s_top, s_mid, base) = byte_fields scale index low hs hi l in
      rw (top, mid, four, s_top, s_mid, base, bare, read_disp-disp_bytes mode v rest fits) refl
