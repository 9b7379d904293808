-- ===== src/Encode/Decode.antt =====
-- What an x86-64 processor reads in the bytes that src/backend/pe_linker.c writes, by the format of
-- its instructions, and that it reads what was to be written.
use scorivm.Base.Logic.{Bytes, ltb, leb, ◌==◌, if◌then◌else◌, ◌>>=◌}
use scorivm.Base.{
  ℕ, ◌+◌, ◌-◌, ◌*◌, ◌/◌, ◌%◌, ◌^◌, ◌<◌, ◌≡◌, refl, ap, Bool, true, false, ◌&&◌, Option, none, some,
  [], ◌∷◌, ◌++◌, arith,
}
use scorivm.Encode.{byte, emit32, bit, emit_rex, emit_modrm}

-- A 32-bit number with its lowest byte first.
unfoldable pub read32 : Bytes → Option (ℕ × Bytes)
read32 (a ∷ b ∷ c ∷ d ∷ rest) = some (a + b * 2 ^ 8 + c * 2 ^ 16 + d * 2 ^ 24, rest)
read32 _ = none

pub read32-emit32 : (v : ℕ) (rest : Bytes) → v < 2 ^ 32 → read32 (emit32 v ++ rest) ≡ some (v, rest)
unfolding read32 emit32
read32-emit32 v rest h =
    let pair : ℕ → Option (ℕ × Bytes) = λ n. some (n, rest) in ap pair (omega arith)

pub record Rex : Type 0 where
  pub w : Bool
  pub r : Bool
  pub x : Bool
  pub b : Bool

-- A byte from 0x40 to 0x4F in front of an opcode is a prefix.
unfoldable pub read_rex : Bytes → Rex × Bytes
read_rex [] = (record { w = false; r = false; x = false; b = false }, [])
read_rex (c ∷ rest) =
    if leb 64 c && ltb c 80
    then (
      record { w = c / 8 % 2 == 1; r = c / 4 % 2 == 1; x = c / 2 % 2 == 1; b = c % 2 == 1 },
      rest,
    )
    else (record { w = false; r = false; x = false; b = false }, c ∷ rest)

-- A 32-bit number widened to 64 bits by its sign.
abbrev pub sign_extend : ℕ → ℕ
sign_extend v = if ltb v (2 ^ 31) then v else v + (2 ^ 64 - 2 ^ 32)

abbrev pub named : Bool → ℕ → ℕ
named b low = low + bit b 8

-- The instructions that set a register to a constant: the register, the constant, and what follows.
unfoldable pub read_constant : Rex → Bytes → Option ((ℕ × ℕ) × Bytes)
unfolding read32
read_constant rex [] = none
read_constant rex (op ∷ rest) =
    if leb 0xB8 op && ltb op 0xC0
    then (do
      (low, more) ← read32 rest
      if rex.w
          then (do
            (upper, end) ← read32 more
            some ((named rex.b (op - 0xB8), low + upper * 2 ^ 32), end))
          else some ((named rex.b (op - 0xB8), low), more))
    else if op == 0xC7
    then read_c7 rex rest
    else if op == 0x31
    then read_31 rex rest
    else none
  where
    read_c7 : Rex → Bytes → Option ((ℕ × ℕ) × Bytes)
    read_c7 rex [] = none
    read_c7 rex (m ∷ rest) =
        if m / 8 == 24
        then (do
          (v, end) ← read32 rest
          some ((named rex.b (m % 8), if rex.w then sign_extend v else v), end))
        else none

    read_31 : Rex → Bytes → Option ((ℕ × ℕ) × Bytes)
    read_31 rex [] = none
    read_31 rex (m ∷ rest) =
        if m / 64 == 3 && named rex.r (m / 8 % 8) == named rex.b (m % 8)
        then some ((named rex.b (m % 8), 0), rest)
        else none

unfoldable pub read_instruction : Bytes → Option ((ℕ × ℕ) × Bytes)
read_instruction bs = let (rex, rest) = read_rex bs in read_constant rex rest

abbrev pub rex_of : Bool → Bool → Bool → Bool → Rex
rex_of w r x b = record { w = w; r = r; x = x; b = b }

-- A prefix is read as it was written, in front of a byte that is none.
pub read_rex-emit_rex :
    (w r x b : Bool) (c : ℕ) (rest : Bytes)
    → (leb 64 c && ltb c 80) ≡ false
    → read_rex (emit_rex w r x b ++ c ∷ rest) ≡ (rex_of w r x b, c ∷ rest)
unfolding read_rex emit_rex
read_rex-emit_rex true true true true c rest h = refl
read_rex-emit_rex true true true false c rest h = refl
read_rex-emit_rex true true false true c rest h = refl
read_rex-emit_rex true true false false c rest h = refl
read_rex-emit_rex true false true true c rest h = refl
read_rex-emit_rex true false true false c rest h = refl
read_rex-emit_rex true false false true c rest h = refl
read_rex-emit_rex true false false false c rest h = refl
read_rex-emit_rex false true true true c rest h = refl
read_rex-emit_rex false true true false c rest h = refl
read_rex-emit_rex false true false true c rest h = refl
read_rex-emit_rex false true false false c rest h = refl
read_rex-emit_rex false false true true c rest h = refl
read_rex-emit_rex false false true false c rest h = refl
read_rex-emit_rex false false false true c rest h = refl
read_rex-emit_rex false false false false c rest h = rw h refl

-- The three forms behind the prefix; `k` is the register's low part.
module _ (rex : Rex) (k : ℕ) (rest : Bytes) (small : k < 8) where
  pub b8-reads :
      (imm : ℕ)
      → imm < 2 ^ 32
      → rex.w ≡ false
      → read_constant rex (byte (184 + k) ∷ (emit32 imm ++ rest))
        ≡ some ((named rex.b k, imm), rest)
  unfolding read_constant
  b8-reads imm h w =
      let e : byte (184 + k) ≡ 184 + k = omega arith in
      let test : (leb 0xB8 (184 + k) && ltb (184 + k) 0xC0) ≡ true = ground arith in
      let back : 184 + k - 184 ≡ k = omega arith in
      rw (e, test, read32-emit32 imm rest h, w, back) refl

  pub b8_wide-reads :
      (low upper : ℕ)
      → low < 2 ^ 32
      → upper < 2 ^ 32
      → rex.w ≡ true
      → read_constant rex (byte (184 + k) ∷ (emit32 low ++ (emit32 upper ++ rest)))
        ≡ some ((named rex.b k, low + upper * 2 ^ 32), rest)
  unfolding read_constant
  b8_wide-reads low upper h h' w =
      let e : byte (184 + k) ≡ 184 + k = omega arith in
      let test : (leb 0xB8 (184 + k) && ltb (184 + k) 0xC0) ≡ true = ground arith in
      let back : 184 + k - 184 ≡ k = omega arith in
      rw (e, test, read32-emit32 low (emit32 upper ++ rest) h, w, read32-emit32 upper rest h', back)
        refl

  pub c7-reads :
      (imm : ℕ)
      → imm < 2 ^ 32
      → rex.w ≡ true
      → read_constant rex (0xC7 ∷ (emit_modrm 3 0 k ++ (emit32 imm ++ rest)))
        ≡ some ((named rex.b k, sign_extend imm), rest)
  unfolding read_constant emit_modrm
  c7-reads imm h w =
      let e : byte (192 + 0 + k % 8) ≡ 192 + k = omega arith in
      let test : ((192 + k) / 8 == 24) ≡ true = ground arith in
      let back : (192 + k) % 8 ≡ k = omega arith in
      rw (e, test, read32-emit32 imm rest h, w, back) refl

  pub clear-reads :
      rex.r ≡ rex.b
      → read_constant rex (0x31 ∷ (emit_modrm 3 k k ++ rest)) ≡ some ((named rex.b k, 0), rest)
  unfolding read_constant emit_modrm
  clear-reads same =
      let e : byte (192 + k % 8 * 8 + k % 8) ≡ 192 + k * 8 + k = omega arith in
      let top : ((192 + k * 8 + k) / 64 == 3) ≡ true = ground arith in
      let mid : (192 + k * 8 + k) / 8 % 8 ≡ k = omega arith in
      let low : (192 + k * 8 + k) % 8 ≡ k = omega arith in
      let agree : (named rex.r k == named rex.b k) ≡ true = rw same (ground arith) in
      rw (e, top, mid, low, agree) refl
