-- ===== src/Encode/Layout/Agree.antt =====
-- The two passes of `generate_machine_code` in src/backend/pe_linker.c give every block and every function
-- the same offset.
use mathlib.Core.List.{append_assoc}
use mathlib.Core.Option.{some-injective}
use scorivm.Base.Lists.{length, set}
use scorivm.Base.Logic.{◌==◌, if◌then◌else◌, bind-eq-some, Bool-cases}
use scorivm.Base.{
  ℕ, suc, ◌+◌, ◌≡◌, refl, sym, ap, ◌∙◌, inl, inr, Bool, true, false, Option, none, some, List, [],
  ◌∷◌, ◌++◌, arith,
}
use scorivm.Encode.Dispatch.{emit_x86_inst}
use scorivm.Encode.Layout.Passes.{
  align16, insts_size, plan_blocks, plan_functions, length-pad, emit_blocks-Plan,
  emit_functions-Plan,
}
use scorivm.Encode.Layout.{
  Tables, Text, word32, offset_of, ctx_of, pad, append_code, emit_insts, start_block,
  start_function, emit_blocks, emit_functions, reset_text, emit_pass,
}
use scorivm.Mir.{X86Inst, X86Block, X86Function}

-- The offset in 32 bits of every function.
pub entries : ℕ → List X86Function → List ℕ
entries size [] = []
entries size (f ∷ funcs) =
    word32 (align16 size) ∷ entries (plan_blocks true (align16 size) [] f.blocks).0 funcs

set_all : ℕ → List ℕ → List ℕ → List ℕ
set_all i offs [] = offs
set_all i offs (v ∷ vs) = set_all (i + 1) (set offs i v) vs

blocks_log :
    (first : Bool) (size : ℕ) (log : List (ℕ × ℕ)) (blocks : List X86Block)
    → let own = plan_blocks first size [] blocks in
      plan_blocks first size log blocks ≡ (own.0, own.1 ++ log)
unfolding plan_blocks
blocks_log first size log [] = refl
blocks_log first size log (b ∷ blocks) =
    let start : ℕ = if first then size else align16 size in
    let entry : ℕ × ℕ = (b.address, word32 start) in
    let own : ℕ × List (ℕ × ℕ) = plan_blocks false (start + insts_size b.insts) [] blocks in
    let here = blocks_log false (start + insts_size b.insts) (entry ∷ log) blocks in
    let alone = blocks_log false (start + insts_size b.insts) (entry ∷ []) blocks in
    here
    ∙ sym (
        ap (λ v. (v.0, v.1 ++ log)) alone
        ∙ ap (λ l. (own.0, l)) (append_assoc own.1 (entry ∷ []) log))

functions_log :
    (size : ℕ) (log : List (ℕ × ℕ)) (funcs : List X86Function)
    → let own = plan_functions size [] funcs in
      plan_functions size log funcs ≡ (own.0, own.1 ++ log)
unfolding plan_functions
functions_log size log [] = refl
functions_log size log (f ∷ funcs) =
    let flow : ℕ × List (ℕ × ℕ) → ℕ × List (ℕ × ℕ) = λ v. plan_functions v.0 v.1 funcs in
    let first : ℕ × List (ℕ × ℕ) = plan_blocks true (align16 size) [] f.blocks in
    let own : ℕ × List (ℕ × ℕ) = plan_functions first.0 [] funcs in
    let here =
      ap flow (blocks_log true (align16 size) log f.blocks)
      ∙ functions_log first.0 (first.1 ++ log) funcs in
    let alone = functions_log first.0 first.1 funcs in
    here
    ∙ sym
        (ap (λ v. (v.0, v.1 ++ log)) alone ∙ ap (λ l. (own.0, l)) (append_assoc own.1 first.1 log))

find_log : List (ℕ × ℕ) → ℕ → Option ℕ
find_log [] id = none
find_log ((i, off) ∷ log) id = if i == id then some off else find_log log id

or_else : Option ℕ → ℕ → ℕ
or_else none n = n
or_else (some m) n = m

offset_of-append :
    (own log : List (ℕ × ℕ)) (id : ℕ)
    → offset_of (own ++ log) id ≡ or_else (find_log own id) (offset_of log id)
unfolding offset_of find_log or_else
offset_of-append [] log id = refl
offset_of-append ((i, off) ∷ own) log id = elim (Bool-cases (i == id)) [
  | inl here ↦ rw here refl
  | inr later ↦ rw later (offset_of-append own log id)
]

offset_of_twice :
    (own log : List (ℕ × ℕ)) (id : ℕ)
    → offset_of (own ++ (own ++ log)) id ≡ offset_of (own ++ log) id
unfolding or_else
offset_of_twice own log id =
    offset_of-append own (own ++ log) id
    ∙ (ap (or_else (find_log own id)) (offset_of-append own log id)
        ∙ (twice (find_log own id) ∙ sym (offset_of-append own log id)))
  where
    twice : (o : Option ℕ) → or_else o (or_else o (offset_of log id)) ≡ or_else o (offset_of log id)
    twice none = refl
    twice (some m) = refl

set_all-past : (i x : ℕ) (offs vs : List ℕ) → set_all (suc i) (x ∷ offs) vs ≡ x ∷ set_all i offs vs
unfolding set_all
set_all-past i x offs [] = refl
set_all-past i x offs (v ∷ vs) =
    let next : suc i + 1 ≡ suc (i + 1) = omega arith in
    ap (λ j. set_all j (x ∷ set offs i v) vs) next ∙ set_all-past (i + 1) x (set offs i v) vs

set_all-nil : (i : ℕ) (vs : List ℕ) → set_all i [] vs ≡ []
unfolding set_all
set_all-nil i [] = refl
set_all-nil i (v ∷ vs) = set_all-nil (i + 1) vs

set_all_twice : (offs vs : List ℕ) → set_all 0 (set_all 0 offs vs) vs ≡ set_all 0 offs vs
unfolding set_all
set_all_twice [] vs = ap (λ l. set_all 0 l vs) (set_all-nil 0 vs)
set_all_twice (x ∷ offs) [] = refl
set_all_twice (x ∷ offs) (v ∷ vs) =
    let past : set_all 1 (v ∷ offs) vs ≡ v ∷ set_all 0 offs vs = set_all-past 0 v offs vs in
    ap (λ l. set_all 0 l (v ∷ vs)) past
    ∙ (set_all-past 0 v (set_all 0 offs vs) vs
        ∙ (ap (λ l. v ∷ l) (set_all_twice offs vs) ∙ sym past))

-- What a pass leaves alone: the offsets of the functions, in their bodies.
module _ (pass : ℕ) (tables : Tables) where
  emit_insts-entries :
      (st st1 : Text) (insts : List X86Inst)
      → emit_insts pass tables st insts ≡ some st1
      → st1.func_offsets ≡ st.func_offsets
  unfolding emit_insts
  emit_insts-entries st st1 [] h = ap (λ s. s.func_offsets) (sym (some-injective _ _ h))
  emit_insts-entries st st1 (inst ∷ insts) h =
      let (e, first, rest) =
        bind-eq-some
          (emit_x86_inst (ctx_of pass tables st) (offset_of st.offsets) (length st.text) inst) _
          h in
      emit_insts-entries (append_code st e.0 e.1) st1 insts rest

  emit_blocks-entries :
      (first : Bool) (st st1 : Text) (blocks : List X86Block)
      → emit_blocks pass tables first st blocks ≡ some st1
      → st1.func_offsets ≡ st.func_offsets
  unfolding emit_blocks
  emit_blocks-entries first st st1 [] h = ap (λ s. s.func_offsets) (sym (some-injective _ _ h))
  emit_blocks-entries first st st1 (b ∷ blocks) h =
      let (st2, run_insts, rest) =
        bind-eq-some (emit_insts pass tables (start_block first b.address st) b.insts) _ h in
      emit_blocks-entries false st2 st1 blocks rest
      ∙ emit_insts-entries (start_block first b.address st) st2 b.insts run_insts

  emit_functions-entries :
      (i : ℕ) (st st1 : Text) (funcs : List X86Function)
      → emit_functions pass tables i st funcs ≡ some st1
      → st1.func_offsets ≡ set_all i st.func_offsets (entries (length st.text) funcs)
  unfolding emit_functions entries set_all
  emit_functions-entries i st st1 [] h = ap (λ s. s.func_offsets) (sym (some-injective _ _ h))
  emit_functions-entries i st st1 (f ∷ funcs) h =
      let (st2, run_blocks, rest) =
        bind-eq-some (emit_blocks pass tables true (start_function i f.name st) f.blocks) _ h in
      let same = emit_blocks-entries true (start_function i f.name st) st2 f.blocks run_blocks in
      let aligned = length-pad st.text in
      let size : length st2.text ≡ (plan_blocks true (align16 (length st.text)) [] f.blocks).0 =
        ap (λ v. v.0)
          (emit_blocks-Plan pass tables true (start_function i f.name st) st2 f.blocks run_blocks)
        ∙ (ap (λ n. (plan_blocks true n st.offsets f.blocks).0) aligned
            ∙ ap (λ v. v.0) (blocks_log true (align16 (length st.text)) st.offsets f.blocks)) in
      emit_functions-entries (i + 1) st2 st1 funcs rest
      ∙ (ap (λ o. set_all (i + 1) o (entries (length st2.text) funcs)) same
          ∙ (ap
                (λ n.
                  set_all (i + 1) (set st.func_offsets i (word32 (length (pad st.text))))
                    (entries n funcs))
                size
              ∙ ap
                  (λ n.
                    set_all (i + 1) (set st.func_offsets i (word32 n))
                      (entries (plan_blocks true (align16 (length st.text)) [] f.blocks).0 funcs))
                  aligned))

  -- A pass follows the plan from an empty text.
  emit_pass-Plan :
      (st : Text) (funcs : List X86Function) (r : Text × ℕ × ℕ)
      → emit_pass pass tables st funcs ≡ some r
      → let own = plan_functions 0 [] funcs in
        (r.0.offsets ≡ own.1 ++ st.offsets)
        × (r.0.func_offsets ≡ set_all 0 st.func_offsets (entries 0 funcs))
        × (r.1 ≡ word32 own.0)
  unfolding emit_pass
  emit_pass-Plan st funcs r h =
      let (st1, run_functions, rest) =
        bind-eq-some (emit_functions pass tables 0 (reset_text st) funcs) _ h in
      let plan =
        emit_functions-Plan pass tables 0 (reset_text st) st1 funcs run_functions
        ∙ functions_log 0 st.offsets funcs in
      let last = sym (some-injective _ _ rest) in
      (
        ap (λ q. q.0.offsets) last ∙ ap (λ v. v.1) plan,
        ap (λ q. q.0.func_offsets) last
            ∙ emit_functions-entries 0 (reset_text st) st1 funcs run_functions,
        ap (λ q. q.1) last ∙ ap (λ v. word32 v.0) plan,
      )

module _ (tables : Tables) (st : Text) (funcs : List X86Function) (r s : Text × ℕ × ℕ) where
  -- When both passes return, the second leaves at every block address the offset that was there after the
  -- first, leaves every function its offset, and gives the same entry point.
  pub passes-Agree :
      emit_pass 0 tables st funcs ≡ some r
      → emit_pass 1 tables r.0 funcs ≡ some s
      → ((id : ℕ) → offset_of s.0.offsets id ≡ offset_of r.0.offsets id)
        × (s.0.func_offsets ≡ r.0.func_offsets)
        × (s.1 ≡ r.1)
  passes-Agree h k =
      let (blocks, functions, entry) = emit_pass-Plan 0 tables st funcs r h in
      let (blocks1, functions1, entry1) = emit_pass-Plan 1 tables r.0 funcs s k in
      let own : List (ℕ × ℕ) = (plan_functions 0 [] funcs).1 in
      (
        λ id.
            ap (λ l. offset_of l id) (blocks1 ∙ ap (λ l. own ++ l) blocks)
            ∙ (offset_of_twice own st.offsets id ∙ sym (ap (λ l. offset_of l id) blocks)),
        functions1
            ∙ (ap (λ l. set_all 0 l (entries 0 funcs)) functions
                ∙ (set_all_twice st.func_offsets (entries 0 funcs) ∙ sym functions)),
        entry1 ∙ sym entry,
      )
