-- ===== src/Encode/Memory/RoundTrip.antt =====
-- Every memory operand that src/backend/pe_linker.c writes is read as the address it stands for.
use mathlib.Core.List.{append_assoc, append-nil}
use scorivm.Base.Logic.{Bytes, ◌==◌, if◌then◌else◌, Bool-cases}
use scorivm.Base.{
  ℕ, ◌%◌, ◌^◌, ◌<◌, ◌≡◌, ◌≢◌, refl, sym, ap, ◌∙◌, inl, inr, Bool, true, false, not, ◌&&◌, none,
  some, ◌++◌, arith,
}
use scorivm.Encode.Decode.{named}
use scorivm.Encode.Memory.Address.{
  Address, address, FitsMode, read_address, disp_bytes, mode_of, mode_of-FitsMode, not_bare,
  plain-reads, sib-reads,
}
use scorivm.Encode.Memory.{emit_mem_sib, get_mem_rex}
use scorivm.Encode.{emit_modrm, emit_sib, emit_mem, is_disp8, high, sib_of}
use scorivm.Mir.{mem_base_disp, mem_sib}

module _ (mode b v r : ℕ) (rest : Bytes) (x : Bool) (fits : FitsMode mode v) (l : r < 8) where
  based_reads :
      b < 8
      → (b == 5 && mode == 0) ≡ false
      → read_address false x (emit_modrm mode r b ++ (sib_of b ++ (disp_bytes mode v ++ rest)))
        ≡ some ((r, address (named x b) none v), rest)
  based_reads h bare = elim (Bool-cases (b == 4)) [
    | inl four ↦
        let same : b ≡ 4 = ground arith in
        let read =
          sib-reads false x mode r b v rest fits l h 0 4 (omega arith) (omega arith) bare in
        rw four (
          ap
            (λ m.
              read_address false x
                (emit_modrm mode r m ++ (emit_sib 0 4 4 ++ (disp_bytes mode v ++ rest))))
            same
          ∙ (ap
                (λ m.
                  read_address false x
                    (emit_modrm mode r 4 ++ (emit_sib 0 4 m ++ (disp_bytes mode v ++ rest))))
                (sym same)
              ∙ read))
    | inr other ↦ rw other (plain-reads false x mode r b v rest fits l h (ground arith) bare)
  ]

module _ (reg base v : ℕ) (rest : Bytes) (h : base < 16) (u : v < 2 ^ 32) where
  low : ℕ
  low = base % 8

  emit_mem-mode :
      emit_mem reg base v
      ≡ emit_modrm (mode_of (base % 8) v) (reg % 8) (base % 8)
        ++ (sib_of (base % 8) ++ disp_bytes (mode_of (base % 8) v) v)
  unfolding emit_mem disp_bytes
  emit_mem-mode = elim (Bool-cases (v == 0 && (if base % 8 == 5 then false else true))) [
    | inl bare ↦ rw bare (elim (Bool-cases (base % 8 == 4)) [
      | inl four ↦
          rw four
            (ap (λ m. emit_modrm 0 (reg % 8) (base % 8) ++ m) (sym (append-nil (emit_sib 0 4 4))))
      | inr other ↦ rw other refl
    ])
    | inr some_disp ↦ elim (Bool-cases (is_disp8 v)) [
      | inl short ↦ rw (some_disp, short) refl
      | inr long ↦ rw (some_disp, long) refl
    ]
  ]

  named_base : named (high base) (base % 8) ≡ base
  named_base = ground arith

  assoc :
      emit_mem reg base v ++ rest
      ≡ emit_modrm (mode_of (base % 8) v) (reg % 8) (base % 8)
        ++ (sib_of (base % 8) ++ (disp_bytes (mode_of (base % 8) v) v ++ rest))
  assoc =
      let (first, last) : Bytes × Bytes =
        (sib_of (base % 8), disp_bytes (mode_of (base % 8) v) v) in
      ap (λ m. m ++ rest) emit_mem-mode
      ∙ (append_assoc (emit_modrm (mode_of (base % 8) v) (reg % 8) (base % 8)) (first ++ last) rest
          ∙ ap (λ m. emit_modrm (mode_of (base % 8) v) (reg % 8) (base % 8) ++ m)
              (append_assoc first last rest))

  -- The bytes that are written for a base register below 16 and a 32-bit displacement are read
  -- back, with the prefix bits of get_mem_rex, as that register and displacement, and nothing
  -- behind them is touched.
  pub emit_mem-RoundTrips :
      read_address
        (get_mem_rex (mem_base_disp base v)).0
        (get_mem_rex (mem_base_disp base v)).1
        (emit_mem reg base v ++ rest)
      ≡ some ((reg % 8, address base none v), rest)
  unfolding get_mem_rex
  emit_mem-RoundTrips =
      let read =
        based_reads (mode_of (base % 8) v) (base % 8) v (reg % 8) rest (high base)
          (mode_of-FitsMode (base % 8) v u) (omega arith) (omega arith) (not_bare (base % 8) v) in
      ap (read_address false (high base)) assoc
      ∙ (read ∙ ap (λ m. some ((reg % 8, address m none v), rest)) named_base)

module _ (reg base index scale v : ℕ) (rest : Bytes) (h : base < 16) (u : v < 2 ^ 32)
    (i : index < 16) (s : scale < 4) where
  emit_mem_sib-mode :
      emit_mem_sib reg base index scale v
      ≡ emit_modrm (mode_of (base % 8) v) (reg % 8) 4
        ++ (emit_sib scale (index % 8) (base % 8) ++ disp_bytes (mode_of (base % 8) v) v)
  unfolding emit_mem_sib disp_bytes emit_sib
  emit_mem_sib-mode =
      let same : index % 8 % 8 ≡ index % 8 = omega arith in
      elim (Bool-cases (v == 0 && (if base % 8 == 5 then false else true))) [
        | inl bare ↦ rw (bare, same) refl
        | inr some_disp ↦ elim (Bool-cases (is_disp8 v)) [
          | inl short ↦ rw (some_disp, short, same) refl
          | inr long ↦ rw (some_disp, long, same) refl
        ]
      ]

  named_index : named (high index) (index % 8) ≡ index
  named_index = ground arith

  -- The bytes for a base and an index register below 16, the index not `rsp`, a scale below 4 and a 32-bit
  -- displacement are read back, with the prefix bits of get_mem_rex, as what was written.
  pub emit_mem_sib-RoundTrips :
      index ≢ 4
      → read_address
          (get_mem_rex (mem_sib base index scale v)).0
          (get_mem_rex (mem_sib base index scale v)).1
          (emit_mem_sib reg base index scale v ++ rest)
        ≡ some ((reg % 8, address base (some (index, scale)) v), rest)
  unfolding get_mem_rex
  emit_mem_sib-RoundTrips ne =
      let mode = mode_of (base % 8) v in
      let named_all : Path Address
          (address (named (high base) (base % 8)) (some (named (high index) (index % 8), scale)) v)
          (address base (some (index, scale)) v) =
        ap (λ m. address m (some (named (high index) (index % 8), scale)) v)
          (named_base reg base v rest h u)
        ∙ ap (λ n. address base (some (n, scale)) v) named_index in
      let no_gap : (index % 8 == 4 && not (high index)) ≡ false = ground arith in
      let read =
        sib-reads (high index) (high base) mode (reg % 8) (base % 8) v rest
          (mode_of-FitsMode (base % 8) v u) (omega arith) (omega arith) scale (index % 8) s
          (omega arith) (not_bare (base % 8) v) in
      let assoc : emit_mem_sib reg base index scale v ++ rest
          ≡ emit_modrm mode (reg % 8) 4
            ++ (emit_sib scale (index % 8) (base % 8) ++ (disp_bytes mode v ++ rest)) =
        ap (λ m. m ++ rest) emit_mem_sib-mode
        ∙ (append_assoc (emit_modrm mode (reg % 8) 4)
              (emit_sib scale (index % 8) (base % 8) ++ disp_bytes mode v) rest
            ∙ ap (λ m. emit_modrm mode (reg % 8) 4 ++ m)
                (append_assoc (emit_sib scale (index % 8) (base % 8)) (disp_bytes mode v) rest)) in
      ap (read_address (high index) (high base)) assoc
      ∙ (read
          ∙ (ap
                (λ m. some (
                  (
                    reg % 8,
                    address (named (high base) (base % 8))
                        (if m then none else some (named (high index) (index % 8), scale)) v,
                  ),
                  rest,
                ))
                no_gap
              ∙ ap (λ m. some ((reg % 8, m), rest)) named_all))
