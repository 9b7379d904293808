-- ===== src/Encode/Constants.antt =====
-- Loading constants: the shortest of the forms that src/backend/pe_linker.c chooses from loads the
-- constant in every case.
use mathlib.Core.List.{append_assoc}
use scorivm.Base.Logic.{Bytes, ltb, leb, ◌==◌, if◌then◌else◌, Bool-cases}
use scorivm.Base.{
  ℕ, ◌+◌, ◌-◌, ◌*◌, ◌/◌, ◌%◌, ◌^◌, ◌≤◌, ◌<◌, ◌≡◌, refl, ap, ◌∙◌, inl, inr, Bool, true, false, ◌&&◌,
  Option, some, [], ◌∷◌, ◌++◌, arith,
}
use scorivm.Encode.Decode.{
  rex_of, named, sign_extend, read_constant, read_instruction, read_rex-emit_rex, b8-reads,
  b8_wide-reads, c7-reads, clear-reads,
}
use scorivm.Encode.{
  byte, emit8, emit32, emit_rex, emit_modrm, high, clear_reg, mov_short, emit_mov_reg_imm32,
  emit_mov_reg_imm64,
}

Reads : Bytes → Bytes → ℕ → ℕ → Type 0
Reads bs rest reg imm = read_instruction (bs ++ rest) ≡ some ((reg, imm), rest)

-- A prefix and the body behind it.
prefixed :
    (w r x b : Bool) (c : ℕ) (body rest : Bytes) (v : Option ((ℕ × ℕ) × Bytes))
    → (leb 64 c && ltb c 80) ≡ false
    → read_constant (rex_of w r x b) (c ∷ (body ++ rest)) ≡ v
    → read_instruction ((emit_rex w r x b ++ (c ∷ body)) ++ rest) ≡ v
unfolding read_instruction
prefixed w r x b c body rest v h e =
    rw
      (
        append_assoc (emit_rex w r x b) (c ∷ body) rest,
        read_rex-emit_rex w r x b c (body ++ rest) h,
      )
      e

named-high : (reg : ℕ) → reg < 16 → named (high reg) (reg % 8) ≡ reg
named-high reg h = ground arith

-- The conditional prefixes of the 32-bit forms.
optional_both :
    (reg : ℕ)
    → (if high reg then emit_rex false true false true else [])
      ≡ emit_rex false (high reg) false (high reg)
unfolding emit_rex
optional_both reg = elim (Bool-cases (high reg)) [
  | inl above ↦ rw above refl
  | inr below ↦ rw below refl
]

optional_base :
    (reg : ℕ)
    → (if high reg then emit_rex false false false true else [])
      ≡ emit_rex false false false (high reg)
unfolding emit_rex
optional_base reg = elim (Bool-cases (high reg)) [
  | inl above ↦ rw above refl
  | inr below ↦ rw below refl
]

module _ (reg : ℕ) (rest : Bytes) (h : reg < 16) where
  found : ℕ → ℕ → Option ((ℕ × ℕ) × Bytes)
  found r imm = some ((r, imm), rest)

  clear_reg-Reads : Reads (clear_reg reg) rest reg 0
  unfolding Reads found
  clear_reg-Reads =
      let low : reg % 8 < 8 = omega arith in
      rw (optional_both reg) (
        prefixed false (high reg) false (high reg) 0x31 (emit_modrm 3 (reg % 8) (reg % 8)) rest _
          refl
          (clear-reads (rex_of false (high reg) false (high reg)) (reg % 8) rest low refl
            ∙ ap (λ r. found r 0) (named-high reg h)))

  mov_short-Reads : (imm : ℕ) → imm < 2 ^ 32 → Reads (mov_short reg imm) rest reg imm
  unfolding Reads found
  mov_short-Reads imm l =
      let low : reg % 8 < 8 = omega arith in
      rw (optional_base reg) (
        prefixed false false false (high reg) (byte (0xB8 + reg % 8)) (emit32 imm) rest _
          (ground arith)
          (b8-reads (rex_of false false false (high reg)) (reg % 8) rest low imm l refl
            ∙ ap (λ r. found r imm) (named-high reg h)))

  mov_signed-Reads :
      (imm : ℕ)
      → 2 ^ 64 - 2 ^ 31 ≤ imm
      → imm < 2 ^ 64
      → Reads
          (emit_rex true false false (high reg)
            ++ (emit8 0xC7 ++ (emit_modrm 3 0 (reg % 8) ++ emit32 (imm % 2 ^ 32))))
          rest
          reg
          imm
  unfolding Reads found emit_modrm
  mov_signed-Reads imm l u =
      let low : reg % 8 < 8 = omega arith in
      let wide : sign_extend (imm % 2 ^ 32) ≡ imm = ground arith in
      prefixed true false false (high reg) 0xC7 (emit_modrm 3 0 (reg % 8) ++ emit32 (imm % 2 ^ 32))
        rest _ refl
        (c7-reads (rex_of true false false (high reg)) (reg % 8) rest low (imm % 2 ^ 32)
            (omega arith) refl
          ∙ ap (λ r. found r (sign_extend (imm % 2 ^ 32))) (named-high reg h)
          ∙ ap (found reg) wide)

  mov_wide-Reads :
      (imm : ℕ)
      → imm < 2 ^ 64
      → Reads
          (emit_rex true false false (high reg)
            ++ (emit8 (0xB8 + reg % 8) ++ (emit32 (imm % 2 ^ 32) ++ emit32 (imm / 2 ^ 32))))
          rest
          reg
          imm
  unfolding Reads found
  mov_wide-Reads imm u =
      let low : reg % 8 < 8 = omega arith in
      let whole : imm % 2 ^ 32 + imm / 2 ^ 32 * 2 ^ 32 ≡ imm = omega arith in
      prefixed true false false (high reg) (byte (0xB8 + reg % 8))
        (emit32 (imm % 2 ^ 32) ++ emit32 (imm / 2 ^ 32)) rest _ (ground arith)
        (rw (append_assoc (emit32 (imm % 2 ^ 32)) (emit32 (imm / 2 ^ 32)) rest) (
            b8_wide-reads (rex_of true false false (high reg)) (reg % 8) rest low (imm % 2 ^ 32)
              (imm / 2 ^ 32) (omega arith) (omega arith) refl)
          ∙ ap (λ r. found r (imm % 2 ^ 32 + imm / 2 ^ 32 * 2 ^ 32)) (named-high reg h)
          ∙ ap (found reg) whole)

  every_constant :
      ((imm : ℕ)
        → imm < 2 ^ 64
        → read_instruction (emit_mov_reg_imm64 reg imm ++ rest) ≡ some ((reg, imm), rest))
      × ((imm : ℕ)
          → imm < 2 ^ 32
          → read_instruction (emit_mov_reg_imm32 reg imm ++ rest) ≡ some ((reg, imm), rest))
  unfolding Reads emit_mov_reg_imm64 emit_mov_reg_imm32
  every_constant = (wide, narrow)
    where
      narrow : (imm : ℕ) → imm < 2 ^ 32 → Reads (emit_mov_reg_imm32 reg imm) rest reg imm
      narrow imm u = elim (Bool-cases (imm == 0)) [
        | inl z ↦ let same : imm ≡ 0 = ground arith in rw same clear_reg-Reads
        | inr some_imm ↦ rw some_imm (mov_short-Reads imm u)
      ]

      wide : (imm : ℕ) → imm < 2 ^ 64 → Reads (emit_mov_reg_imm64 reg imm) rest reg imm
      wide imm u = elim (Bool-cases (imm == 0)) [
        | inl z ↦ let same : imm ≡ 0 = ground arith in rw same clear_reg-Reads
        | inr some_imm ↦ elim (Bool-cases (imm / 2 ^ 32 == 0)) [
          | inl fits ↦
              let same : imm % 2 ^ 32 ≡ imm = ground arith in
              rw (some_imm, fits, same) (mov_short-Reads imm (ground arith))
          | inr over ↦ elim (Bool-cases (leb (2 ^ 64 - 2 ^ 31) imm)) [
            | inl signed ↦ rw (some_imm, over, signed) (mov_signed-Reads imm (ground arith) u)
            | inr full ↦ rw (some_imm, over, full) (mov_wide-Reads imm u)
          ]
        ]
      ]

  -- What is emitted to load a constant, for a 64-bit and for a 32-bit register, is read as the load
  -- of that constant into that register, and nothing behind it is touched.
  pub emit_mov-RoundTrips :
      (wide narrow : ℕ)
      → wide < 2 ^ 64
      → narrow < 2 ^ 32
      → (read_instruction (emit_mov_reg_imm64 reg wide ++ rest) ≡ some ((reg, wide), rest))
        × (read_instruction (emit_mov_reg_imm32 reg narrow ++ rest) ≡ some ((reg, narrow), rest))
  emit_mov-RoundTrips wide narrow h k = (every_constant.0 wide h, every_constant.1 narrow k)
