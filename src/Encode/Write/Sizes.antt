-- ===== src/Encode/Write/Sizes.antt =====
-- The sizes of what src/backend/pe_linker.c writes: they do not depend on the pass.
use mathlib.Core.Option.{some-injective}
use scorivm.Base.Lists.{length, length-append}
use scorivm.Base.Logic.{Bytes, ◌==◌, bind-eq-some, Bool-cases}
use scorivm.Base.{
  ℕ, ◌+◌, ◌%◌, ◌≡◌, sym, ap, ◌∙◌, inl, inr, Option, none, some, List, [], ◌∷◌, ◌++◌, arith,
}
use scorivm.Encode.Memory.{
  LinkCtx, Reloc, Emitted, emit_mem_op, emit_mem_sib, rip_bytes, label_reloc,
}
use scorivm.Encode.Write.{Write, literal, mem_op, rel_to, call_to, emit_write, rel32, run_writes}
use scorivm.Encode.{emit32, emit_modrm, emit_mem}
use scorivm.Mir.{
  X86Value, mem_base_disp, mem_sib, mem_rip, op_string, op_none, op_reg, op_imm, op_block, op_label,
}

pub mem_size : ℕ → X86Value → ℕ
mem_size reg (mem_base_disp base disp) = length (emit_mem reg base disp)
mem_size reg (mem_sib base index scale disp) = length (emit_mem_sib reg base index scale disp)
mem_size reg (op_string text) = 5
mem_size reg (mem_rip name) = 5
mem_size reg _ = 0

pub write_size : Write → ℕ
write_size (literal bs) = length bs
write_size (mem_op reg v) = mem_size reg v
write_size (rel_to block) = 4
write_size (call_to name) = 4

pub writes_size : List Write → ℕ
writes_size [] = 0
writes_size (w ∷ ws) = write_size w + writes_size ws

-- What a call appends, when it returns, has so many bytes.
unfoldable pub Sized : Emitted → ℕ → Type 0
Sized o n = (e : Bytes × List Reloc) → o ≡ some e → length e.0 ≡ n

some-Sized : (bs : Bytes) (found : List Reloc) → Sized (some (bs, found)) (length bs)
unfolding Sized
some-Sized bs found e h = ap (λ p. length p.0) (sym (some-injective _ _ h))

none-Sized : (n : ℕ) → Sized none n
unfolding Sized
none-Sized n e h = cc

rip-Sized :
    (reg : ℕ) (o : Option Reloc)
    → Sized (elim o [ none ↦ none | some r ↦ some (rip_bytes reg, r ∷ []) ]) 5
unfolding emit32 emit_modrm
rip-Sized reg none = none-Sized 5
rip-Sized reg (some r) = some-Sized (rip_bytes reg) (r ∷ [])

mem-Sized :
    (ctx : LinkCtx) (size reg : ℕ) (v : X86Value)
    → Sized (emit_mem_op ctx size reg v) (mem_size reg v)
unfolding emit_mem_op mem_size emit32 emit_modrm
mem-Sized ctx size reg (mem_base_disp base disp) = some-Sized (emit_mem reg base disp) []
mem-Sized ctx size reg (mem_sib base index scale disp) =
    some-Sized (emit_mem_sib reg base index scale disp) []
mem-Sized ctx size reg (op_string text) = elim (Bool-cases (ctx.pass == 1)) [
  | inl second ↦ rw second (some-Sized (rip_bytes reg) _)
  | inr first ↦ rw first (some-Sized (rip_bytes reg) [])
]
mem-Sized ctx size reg (mem_rip name) = elim (Bool-cases (ctx.pass == 1)) [
  | inl second ↦
      rw second (rip-Sized reg (label_reloc ctx (size + length (emit_modrm 0 (reg % 8) 5)) name))
  | inr first ↦ rw first (some-Sized (rip_bytes reg) [])
]
mem-Sized ctx size reg op_none = some-Sized [] []
mem-Sized ctx size reg (op_reg r) = some-Sized [] []
mem-Sized ctx size reg (op_imm r) = some-Sized [] []
mem-Sized ctx size reg (op_block r) = some-Sized [] []
mem-Sized ctx size reg (op_label r) = some-Sized [] []

write-Sized :
    (ctx : LinkCtx) (offs : ℕ → ℕ) (size : ℕ) (w : Write)
    → Sized (emit_write ctx offs size w) (write_size w)
unfolding emit_write write_size emit32
write-Sized ctx offs size (literal bs) = some-Sized bs []
write-Sized ctx offs size (mem_op reg v) = mem-Sized ctx size reg v
write-Sized ctx offs size (rel_to block) = some-Sized (emit32 (rel32 (offs block) size)) []
write-Sized ctx offs size (call_to name) = some-Sized (emit32 0) _

-- A sequence of calls appends the same number of bytes, whatever is known of the program.
pub run_writes-Sized :
    (ctx : LinkCtx) (offs : ℕ → ℕ) (size : ℕ) (ws : List Write)
    → Sized (run_writes ctx offs size ws) (writes_size ws)
unfolding run_writes writes_size Sized
run_writes-Sized ctx offs size [] = some-Sized [] []
run_writes-Sized ctx offs size (w ∷ ws) = λ e h.
    let (a, first, g) = bind-eq-some (emit_write ctx offs size w) _ h in
    let (b, last, k) = bind-eq-some (run_writes ctx offs (size + length a.0) ws) _ g in
    let both = length-append a.0 b.0 in
    let whole : length e.0 ≡ length (a.0 ++ b.0) =
      ap (λ p. length p.0) (sym (some-injective _ _ k)) in
    whole
    ∙ (both
        ∙ omega (
          arith,
          write-Sized ctx offs size w a first,
          run_writes-Sized ctx offs (size + length a.0) ws b last,
        ))
