-- ===== src/Encode/Instruction/Scalar.antt =====
-- The instructions of src/backend/pe_linker.c on the registers of floating point numbers. A register
-- minus 16 that is negative is below 8 and has the same last bits as the register.
use scorivm.Base.Logic.{leb, if◌then◌else◌}
use scorivm.Base.{ℕ, ◌-◌, ◌%◌, Bool, true, false, not, ◌&&◌, List, [], ◌∷◌, ◌++◌}
use scorivm.Encode.Instruction.{rex}
use scorivm.Encode.Write.{Write, literal}
use scorivm.Encode.{emit8, emit_modrm, high}

-- `r - X86_REG_XMM0 > 7`, and the field of three bits.
abbrev high_xmm : ℕ → Bool
high_xmm r = high (r - 16)

abbrev scalar_op : ℕ → Bool → Bool → Bool → Bool → ℕ → ℕ → ℕ → List Write
scalar_op prefix f w r b opcode reg rm =
    literal (
      emit8 prefix
      ++ (rex f w r false b ++ (emit8 0x0F ++ (emit8 opcode ++ emit_modrm 3 (reg % 8) (rm % 8)))))
    ∷ []

-- `MOVD` and `MOVQ`; the registers of one kind give the prefix only.
abbrev pub write_movd : Bool → Bool → ℕ → ℕ → List Write
write_movd f quad r q =
    if leb 16 r && not (leb 16 q)
    then scalar_op 0x66 f quad (high_xmm r) (high q) 0x6E r q
    else if not (leb 16 r) && leb 16 q
    then scalar_op 0x66 f quad (high_xmm q) (high r) 0x7E q r
    else literal (emit8 0x66) ∷ []

-- From an integer to a number of floating point, and back.
abbrev pub write_from_int : Bool → ℕ → ℕ → ℕ → List Write
write_from_int f prefix r q = scalar_op prefix f true (high_xmm r) (high q) 0x2A r q

abbrev pub write_to_int : Bool → ℕ → ℕ → ℕ → List Write
write_to_int f prefix r q = scalar_op prefix f true (high r) (high_xmm q) 0x2C r q

abbrev pub write_scalar : Bool → ℕ → ℕ → ℕ → ℕ → List Write
write_scalar f prefix opcode r q = scalar_op prefix f false (high_xmm r) (high_xmm q) opcode r q

-- `UCOMISS` has no prefix.
abbrev pub write_ucomiss : Bool → ℕ → ℕ → List Write
write_ucomiss f r q =
    literal (
      rex f false (high_xmm r) false (high_xmm q)
      ++ (emit8 0x0F ++ (emit8 0x2E ++ emit_modrm 3 (r % 8) (q % 8))))
    ∷ []
