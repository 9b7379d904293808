-- ===== src/Encode/Layout/Passes.antt =====
-- The plan of the text that both passes of `generate_machine_code` in src/backend/pe_linker.c follow: it is
-- made of the sizes of the instructions alone.

use mathlib.Core.Option.{some-injective}
use scorivm.Base.Lists.{length, length-append}
use scorivm.Base.Logic.{Bytes, ◌==◌, if◌then◌else◌, bind-eq-some, Bool-cases}
use scorivm.Base.{
  ℕ, zero, suc, ◌+◌, ◌*◌, ◌/◌, ◌%◌, ◌≤◌, ◌≡◌, refl, sym, ap, ◌∙◌, inl, inr, Bool, true, false, some,
  List, [], ◌∷◌, ◌++◌, arith,
}
use scorivm.Encode.Dispatch.{writes, emit_x86_inst}
use scorivm.Encode.Layout.{
  Tables, Text, word32, offset_of, ctx_of, pad_from, pad, append_code, emit_insts, start_block,
  start_function, emit_blocks, emit_functions,
}
use scorivm.Encode.Write.Sizes.{writes_size, run_writes-Sized, Sized}
use scorivm.Encode.{emit8}
use scorivm.Mir.{X86Inst, X86Block, X86Function}

abbrev pub align16 : ℕ → ℕ
align16 n = (n + 15) / 16 * 16

pub insts_size : List X86Inst → ℕ
insts_size [] = 0
insts_size (inst ∷ insts) = writes_size (writes inst) + insts_size insts

-- The size of the text behind the blocks, and the log of their offsets.
unfoldable pub plan_blocks : Bool → ℕ → List (ℕ × ℕ) → List X86Block → ℕ × List (ℕ × ℕ)
plan_blocks first size log [] = (size, log)
plan_blocks first size log (b ∷ blocks) =
    let start = if first then size else align16 size in
    plan_blocks false (start + insts_size b.insts) ((b.address, word32 start) ∷ log) blocks

unfoldable pub plan_functions : ℕ → List (ℕ × ℕ) → List X86Function → ℕ × List (ℕ × ℕ)
plan_functions size log [] = (size, log)
plan_functions size log (f ∷ funcs) =
    let (size1, log1) : ℕ × List (ℕ × ℕ) = plan_blocks true (align16 size) log f.blocks in
    plan_functions size1 log1 funcs

pad_from-aligns :
    (fuel : ℕ) (bs : Bytes)
    → align16 (length bs) ≤ length bs + fuel
    → length (pad_from fuel bs) ≡ align16 (length bs)
unfolding pad_from
pad_from-aligns zero bs h = omega arith
pad_from-aligns (suc fuel) bs h = elim (Bool-cases (length bs % 16 == 0)) [
  | inl done ↦ rw done (ground arith)
  | inr more ↦
      let longer = length-append bs (emit8 0x90) in
      rw more (pad_from-aligns fuel (bs ++ emit8 0x90) (ground arith) ∙ ground arith)
]

pub length-pad : (bs : Bytes) → length (pad bs) ≡ align16 (length bs)
length-pad bs = pad_from-aligns 15 bs (omega arith)

-- What the plan tells of a state.
abbrev pub view : Text → ℕ × List (ℕ × ℕ)
view st = (length st.text, st.offsets)

start-Plan :
    (first : Bool) (id : ℕ) (st : Text)
    → let start = if first then length st.text else align16 (length st.text) in
      view (start_block first id st) ≡ (start, (id, word32 start) ∷ st.offsets)
start-Plan true id st = refl
start-Plan false id st = ap (λ n. (n, (id, word32 n) ∷ st.offsets)) (length-pad st.text)

module _ (pass : ℕ) (tables : Tables) where
  emit_insts-Sized :
      (st st1 : Text) (insts : List X86Inst)
      → emit_insts pass tables st insts ≡ some st1
      → view st1 ≡ (length st.text + insts_size insts, st.offsets)
  unfolding emit_insts insts_size emit_x86_inst Sized
  emit_insts-Sized st st1 [] h =
      ap view (sym (some-injective _ _ h)) ∙ ap (λ n. (n, st.offsets)) (omega arith)
  emit_insts-Sized st st1 (inst ∷ insts) h =
      let (e, first, rest) =
        bind-eq-some
          (emit_x86_inst (ctx_of pass tables st) (offset_of st.offsets) (length st.text) inst) _
          h in
      let size =
        run_writes-Sized (ctx_of pass tables st) (offset_of st.offsets) (length st.text)
          (writes inst) e first in
      let ih = emit_insts-Sized (append_code st e.0 e.1) st1 insts rest in
      let joined = length-append st.text e.0 in ih ∙ ap (λ n. (n, st.offsets)) (omega arith)

  pub emit_blocks-Plan :
      (first : Bool) (st st1 : Text) (blocks : List X86Block)
      → emit_blocks pass tables first st blocks ≡ some st1
      → view st1 ≡ plan_blocks first (length st.text) st.offsets blocks
  unfolding emit_blocks plan_blocks
  emit_blocks-Plan first st st1 [] h = ap view (sym (some-injective _ _ h))
  emit_blocks-Plan first st st1 (b ∷ blocks) h =
      let (st2, run_insts, rest) =
        bind-eq-some (emit_insts pass tables (start_block first b.address st) b.insts) _ h in
      let size = emit_insts-Sized (start_block first b.address st) st2 b.insts run_insts in
      let ih = emit_blocks-Plan false st2 st1 blocks rest in
      ih
      ∙ (ap (λ v. plan_blocks false v.0 v.1 blocks) size
          ∙ ap (λ v. plan_blocks false (v.0 + insts_size b.insts) v.1 blocks)
              (start-Plan first b.address st))

  pub emit_functions-Plan :
      (i : ℕ) (st st1 : Text) (funcs : List X86Function)
      → emit_functions pass tables i st funcs ≡ some st1
      → view st1 ≡ plan_functions (length st.text) st.offsets funcs
  unfolding emit_functions plan_functions
  emit_functions-Plan i st st1 [] h = ap view (sym (some-injective _ _ h))
  emit_functions-Plan i st st1 (f ∷ funcs) h =
      let (st2, run_blocks, rest) =
        bind-eq-some (emit_blocks pass tables true (start_function i f.name st) f.blocks) _ h in
      let plan = emit_blocks-Plan true (start_function i f.name st) st2 f.blocks run_blocks in
      let ih = emit_functions-Plan (i + 1) st2 st1 funcs rest in
      let flow : ℕ × List (ℕ × ℕ) → ℕ × List (ℕ × ℕ) = λ v. plan_functions v.0 v.1 funcs in
      ih
      ∙ (ap flow plan
          ∙ ap (λ n. flow (plan_blocks true n st.offsets f.blocks)) (length-pad st.text))
