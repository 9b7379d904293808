-- ===== src/Encode.antt =====
-- Machine code: src/backend/pe_linker.c. What a call appends to the code buffer is the list of its
-- bytes. A mask or a shift by a constant is written as a remainder, a quotient or a product; an `|`
-- of bit fields that do not overlap is their sum.
pub mod Memory
pub mod Decode
pub mod Constants
pub mod Write
pub mod Instruction
pub mod Dispatch
pub mod Layout
pub mod Imports
pub mod Image
mod Tests
use scorivm.Base.Logic.{Bytes, ltb, leb, ◌==◌, if◌then◌else◌}
use scorivm.Base.{
  ℕ, ◌+◌, ◌-◌, ◌*◌, ◌/◌, ◌%◌, ◌^◌, Bool, true, false, ◌&&◌, ◌||◌, List, [], ◌∷◌, ◌++◌,
}

abbrev pub byte : ℕ → ℕ
byte b = b % 256

abbrev pub emit8 : ℕ → Bytes
emit8 b = byte b ∷ []

-- The lowest byte first.
unfoldable pub emit32 : ℕ → Bytes
emit32 v = byte v ∷ byte (v / 2 ^ 8) ∷ byte (v / 2 ^ 16) ∷ byte (v / 2 ^ 24) ∷ []

abbrev pub bit : Bool → ℕ → ℕ
bit b n = if b then n else 0

-- A REX prefix where one of its bits is set.
unfoldable pub emit_rex : Bool → Bool → Bool → Bool → Bytes
emit_rex w r x b =
    if w || r || x || b then emit8 (64 + bit w 8 + bit r 4 + bit x 2 + bit b 1) else []

unfoldable pub emit_modrm : ℕ → ℕ → ℕ → Bytes
emit_modrm mode reg rm = emit8 (mode % 4 * 64 + reg % 8 * 8 + rm % 8)

unfoldable pub emit_sib : ℕ → ℕ → ℕ → Bytes
emit_sib scale index base = emit8 (scale % 4 * 64 + index % 8 * 8 + base % 8)

-- A 32-bit pattern from -128 to 127.
abbrev pub is_disp8 : ℕ → Bool
is_disp8 offset = ltb offset 128 || leb (2 ^ 32 - 128) offset

-- A register above 7 takes a bit of the prefix.
abbrev pub high : ℕ → Bool
high reg = ltb 7 reg

-- Register 4 as a base is given by a further byte.
abbrev pub sib_of : ℕ → Bytes
sib_of b = if b == 4 then emit_sib 0 4 4 else []

unfoldable pub emit_mem : ℕ → ℕ → ℕ → Bytes
emit_mem reg base offset =
    let (r, b) : ℕ × ℕ = (reg % 8, base % 8) in
    if offset == 0 && (if b == 5 then false else true)
    then emit_modrm 0 r b ++ sib_of b
    else if is_disp8 offset
    then emit_modrm 1 r b ++ (sib_of b ++ emit8 offset)
    else emit_modrm 2 r b ++ (sib_of b ++ emit32 offset)

-- `xor reg, reg` in 32 bits, which clears the whole register.
abbrev pub clear_reg : ℕ → Bytes
clear_reg reg =
    (if high reg then emit_rex false true false true else [])
    ++ (emit8 0x31 ++ emit_modrm 3 (reg % 8) (reg % 8))

-- `mov` of a 32-bit immediate, which clears the upper half.
abbrev pub mov_short : ℕ → ℕ → Bytes
mov_short reg imm =
    (if high reg then emit_rex false false false true else [])
    ++ (emit8 (0xB8 + reg % 8) ++ emit32 imm)

unfoldable pub emit_mov_reg_imm32 : ℕ → ℕ → Bytes
emit_mov_reg_imm32 reg imm = if imm == 0 then clear_reg reg else mov_short reg imm

unfoldable pub emit_mov_reg_imm64 : ℕ → ℕ → Bytes
emit_mov_reg_imm64 reg imm =
    if imm == 0
    then clear_reg reg
    else if imm / 2 ^ 32 == 0
    then mov_short reg (imm % 2 ^ 32)
    else if leb (2 ^ 64 - 2 ^ 31) imm
    then emit_rex true false false (high reg)
      ++ (emit8 0xC7 ++ (emit_modrm 3 0 (reg % 8) ++ emit32 (imm % 2 ^ 32)))
    else emit_rex true false false (high reg)
      ++ (emit8 (0xB8 + reg % 8) ++ (emit32 (imm % 2 ^ 32) ++ emit32 (imm / 2 ^ 32)))
