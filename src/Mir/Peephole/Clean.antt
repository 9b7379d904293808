-- ===== src/Mir/Peephole/Clean.antt =====
-- What `mir_peephole_optimize` of src/backend/x86_mir.c leaves in a block.
use mathlib.Core.Path.{subst}
use mathlib.Core.Option.{some-injective}
use scorivm.Base.Lists.{length}
use scorivm.Base.Logic.{◌==◌, ==_iff, if◌then◌else◌, Bool-cases, Option-cases}
use scorivm.Base.{
  ℕ, zero, suc, ◌≤◌, ◌<◌, ◌≡◌, ◌≢◌, refl, sym, ap, ◌∙◌, inl, inr, Bool, true, false, Option, none,
  some, List, [], ◌∷◌, arith,
}
use scorivm.Mir.Peephole.{
  first_reg, same_regs, is_value, bare_base, with_op1, simplify_lea, simplify_case, simplify_inst,
  matches, fuse_cond, fuse, optimize_insts, next_block, optimize_blocks, mir_peephole_optimize,
}
use scorivm.Mir.{
  X86Value, op_reg, op_imm, op_block, mem_base_disp, reg_of, X86Operand, X86Opcode, x86_inst_mov,
  x86_inst_lea, x86_inst_add, x86_inst_sub, x86_inst_imul, x86_inst_jmp, X86Condition, X86Inst,
  op_at, X86Block, X86Function,
}

-- What does not stand in a block before the block `next`: a copy of a register to itself, an addition or
-- subtraction of 0, a multiplication by 0 or 1, the address of a register alone, a jump to `next`.
pub record IsNeeded (next : Option ℕ) (inst : X86Inst) : Type 0 where
  pub copy :
      (r q : ℕ)
      → inst.opcode ≡ x86_inst_mov
      → (op_at inst 0).value ≡ op_reg r
      → (op_at inst 1).value ≡ op_reg q
      → r ≢ q
  pub add : inst.opcode ≡ x86_inst_add → (op_at inst 1).value ≢ op_imm 0
  pub sub : inst.opcode ≡ x86_inst_sub → (op_at inst 1).value ≢ op_imm 0
  pub none_of : inst.opcode ≡ x86_inst_imul → (op_at inst 1).value ≢ op_imm 0
  pub one_of : inst.opcode ≡ x86_inst_imul → (op_at inst 1).value ≢ op_imm 1
  pub address :
      (base : ℕ) → inst.opcode ≡ x86_inst_lea → (op_at inst 1).value ≢ mem_base_disp base 0
  pub jump :
      (b : ℕ) → inst.opcode ≡ x86_inst_jmp → next ≡ some b → (op_at inst 0).value ≢ op_block b

pub data IsClean (next : Option ℕ) : List X86Inst → Type 0 where
  nil : IsClean next []
  cons :
      {inst : X86Inst} {insts : List X86Inst}
      → IsNeeded next inst
      → IsClean next insts
      → IsClean next (inst ∷ insts)

module _ (next : Option ℕ) where
  Settled : X86Inst → Type 0
  Settled i = simplify_case i.opcode next i ≡ some i

  kept-settles :
      (op : X86Opcode) (inst i : X86Inst)
      → inst.opcode ≡ op
      → simplify_case op next inst ≡ some inst
      → some inst ≡ some i
      → Settled i
  unfolding Settled
  kept-settles op inst i h d e =
      subst (λ j. simplify_case j.opcode next j ≡ some j) (some-injective _ _ e)
        (ap (λ o. simplify_case o next inst) h ∙ d)

  not_same :
      (v : X86Value) (base : ℕ) → (reg_of v == base) ≡ false → same_regs v (op_reg base) ≡ false
  not_same (op_reg r) base h = h
  not_same _ base h = refl

  moved-settles :
      (cond : X86Condition) (a b : X86Operand) (ops : List X86Operand) (base : ℕ)
      → (reg_of a.value == base) ≡ false
      → Settled (
          with_op1 x86_inst_mov
            (record { opcode = x86_inst_lea; cond = cond; ops = a ∷ b ∷ ops })
            base)
  unfolding Settled
  moved-settles cond a b ops base h = rw (not_same a.value base h) refl

  lea-settles :
      (ops : List X86Operand) (cond : X86Condition) (i : X86Inst)
      → let inst : X86Inst = record { opcode = x86_inst_lea; cond = cond; ops = ops } in
        simplify_lea inst (bare_base (op_at inst 1).value) ≡ some i → Settled i
  unfolding Settled
  lea-settles [] cond i e = kept-settles x86_inst_lea _ i refl refl e
  lea-settles (a ∷ []) cond i e = kept-settles x86_inst_lea _ i refl refl e
  lea-settles (a ∷ b ∷ ops) cond i e =
      let inst : X86Inst = record { opcode = x86_inst_lea; cond = cond; ops = a ∷ b ∷ ops } in
      elim (Option-cases (bare_base b.value)) [
        | inl other ↦ kept-settles x86_inst_lea inst i refl (rw other refl) (rw other at e)
        | inr (base, bare) ↦ elim (Bool-cases (reg_of a.value == base)) [
          | inl same ↦ absurd (cc (rw (bare, same) at e))
          | inr apart ↦
              subst Settled (some-injective _ _ (rw (bare, apart) at e))
                (moved-settles cond a b ops base apart)
        ]
      ]

  -- An `if` that drops an instruction or keeps it.
  dropped-settles :
      (op : X86Opcode) (inst i : X86Inst) (drop : Bool)
      → inst.opcode ≡ op
      → simplify_case op next inst ≡ (if drop then none else some inst)
      → simplify_case op next inst ≡ some i
      → Settled i
  dropped-settles op inst i true h d e = absurd (cc (sym d ∙ e))
  dropped-settles op inst i false h d e = kept-settles op inst i h d (sym d ∙ e)

  case-settles :
      (op : X86Opcode) (inst i : X86Inst)
      → inst.opcode ≡ op
      → simplify_case op next inst ≡ some i
      → Settled i
  unfolding Settled
  case-settles x86_inst_mov inst i h e = dropped-settles x86_inst_mov inst i _ h refl e
  case-settles x86_inst_jmp inst i h e = dropped-settles x86_inst_jmp inst i _ h refl e
  case-settles x86_inst_add inst i h e = dropped-settles x86_inst_add inst i _ h refl e
  case-settles x86_inst_sub inst i h e = dropped-settles x86_inst_sub inst i _ h refl e
  case-settles x86_inst_imul inst i h e = elim (Bool-cases (is_value 1 (op_at inst 1).value)) [
    | inl one ↦ absurd (cc (rw one at e))
    | inr other ↦ elim (Bool-cases (is_value 0 (op_at inst 1).value)) [
      | inl none_left ↦ subst Settled (some-injective _ _ (rw (other, none_left) at e)) refl
      | inr more ↦
          kept-settles x86_inst_imul inst i h (rw (other, more) refl) (rw (other, more) at e)
    ]
  ]
  case-settles x86_inst_lea inst i h e = lea-settles inst.ops inst.cond i (
      ap
        (λ o.
          simplify_lea (record { opcode = o; cond = inst.cond; ops = inst.ops })
            (bare_base (op_at inst 1).value))
        (sym h)
      ∙ e)
  case-settles op inst i h e = kept-settles op inst i h refl e

fuse-shorter :
    (i jump : X86Inst) (insts tail : List X86Inst)
    → fuse i insts ≡ some (jump, tail)
    → length tail < length insts
unfolding fuse
fuse-shorter i jump (i2 ∷ i3 ∷ i4 ∷ rest) tail e = elim (Bool-cases (matches i i2 i3 i4)) [
  | inl four ↦ elim (Option-cases (fuse_cond i.cond i4.cond)) [
    | inl alone ↦ absurd (cc (rw (four, alone) at e))
    | inr (cond, fused) ↦
        let same = ap (λ p. length p.1) (some-injective _ _ (rw (four, fused) at e)) in
        omega (arith, same)
  ]
  | inr other ↦ absurd (cc (rw other at e))
]
fuse-shorter i jump _ tail e = cc

module _ (next : Option ℕ) where
  settles : (inst i : X86Inst) → simplify_inst next inst ≡ some i → simplify_inst next i ≡ some i
  unfolding simplify_inst Settled
  settles inst i e = case-settles next inst.opcode inst i refl e

  settled-IsNeeded : (inst : X86Inst) → simplify_inst next inst ≡ some inst → IsNeeded next inst
  unfolding simplify_inst
  settled-IsNeeded inst h = record {
    copy = λ r q o p p' e. let t : (r == q) ≡ true = (==_iff r q).1 e in cc (rw (o, p, p', t) at h);
    add = λ o z. cc (rw (o, z) at h);
    sub = λ o z. cc (rw (o, z) at h);
    none_of = λ o z. cc (rw (o, z) at h);
    one_of = λ o z. cc (rw (o, z) at h);
    address = λ base o z. elim (Bool-cases (first_reg inst == base)) [
      | inl same ↦ cc (rw (o, z, same) at h)
      | inr apart ↦ cc (ap (λ (i : X86Inst). i.opcode) (some-injective _ _ (rw (o, z, apart) at h)))
    ];
    jump = λ b o n z. let t : (b == b) ≡ true = (==_iff b b).1 refl in cc (rw (o, n, z, t) at h);
  }

  pub optimize-IsClean :
      (fuel : ℕ) (insts : List X86Inst)
      → length insts ≤ fuel
      → IsClean next (optimize_insts fuel next insts)
  unfolding optimize_insts
  optimize-IsClean zero [] h = nil
  optimize-IsClean zero (inst ∷ insts) h = absurd (omega arith)
  optimize-IsClean (suc fuel) [] h = nil
  optimize-IsClean (suc fuel) (inst ∷ insts) h = elim (Option-cases (simplify_inst next inst)) [
    | inl gone ↦ rw (optimize_insts, gone) (optimize-IsClean fuel insts (omega arith))
    | inr (i, kept) ↦ elim (Option-cases (fuse i insts)) [
      | inl alone ↦
          rw (optimize_insts, kept, alone)
            (cons (settled-IsNeeded i (settles inst i kept))
              (optimize-IsClean fuel insts (omega arith)))
      | inr ((jump, tail), fused) ↦
          let shorter = fuse-shorter i jump insts tail fused in
          rw (optimize_insts, kept, fused)
            (optimize-IsClean fuel (jump ∷ tail) (omega (arith, shorter)))
    ]
  ]

pub data AreClean : List X86Block → Type 0 where
  nil : AreClean []
  cons :
      {b : X86Block} {blocks : List X86Block}
      → IsClean (next_block blocks) b.insts
      → AreClean blocks
      → AreClean (b ∷ blocks)

blocks-next_block :
    (blocks : List X86Block) → next_block (optimize_blocks blocks) ≡ next_block blocks
unfolding optimize_blocks
blocks-next_block [] = refl
blocks-next_block (b ∷ blocks) = refl

blocks-AreClean : (blocks : List X86Block) → AreClean (optimize_blocks blocks)
unfolding optimize_blocks
blocks-AreClean [] = nil
blocks-AreClean (b ∷ blocks) =
    let insts : List X86Inst = optimize_insts (length b.insts) (next_block blocks) b.insts in
    cons
      (subst (λ n. IsClean n insts) (sym (blocks-next_block blocks))
        (optimize-IsClean (next_block blocks) (length b.insts) b.insts (omega arith)))
      (blocks-AreClean blocks)

-- In what mir_peephole_optimize leaves there is no copy of a register to itself, no addition or subtraction
-- of 0, no multiplication by 0 or 1, no address of a register alone and no jump to the next block.
pub mir_peephole_optimize-AreClean :
    (func : X86Function) → AreClean (mir_peephole_optimize func).blocks
unfolding mir_peephole_optimize
mir_peephole_optimize-AreClean func = blocks-AreClean func.blocks
