-- ===== src/RegAlloc.antt =====
-- Graph colouring: src/backend/reg_alloc.c and reg_alloc.h. Arrays over virtual registers are
-- functions; they are read and written from 0 to `max_vreg` only. A colour -1 is `none`. Offsets are
-- kept by their size below the frame pointer, so 0 still means that there is none yet. An entry of the
-- matrix is a pair of registers, as in the source while `max_vreg` is below 65535.
mod Liveness
mod Interference
mod Build
mod Coloring
mod Slots
mod Simplify
mod Tests
use scorivm.Base.Lists.{length}
use scorivm.Base.Logic.{ltb, leb, ◌==◌, if◌then◌else◌}
use scorivm.Base.{
  ℕ, zero, suc, ◌+◌, ◌-◌, ◌%◌, ◌≡◌, Bool, true, false, not, ◌&&◌, ◌||◌, Option, none, some, List,
  [], ◌∷◌, ◌++◌,
}
use scorivm.Sir.{
  SirOpcode, sir_jmp, sir_br, sir_switch, sir_call, sir_sys_alloc, sir_sys_free, sir_sys_write,
  sir_sys_read, sir_sys_exit, SirValue, vreg, block, SirInst, SirBlock,
}

abbrev pub num_phys_regs : ℕ
num_phys_regs = 11

pub record RegAllocator : Type 0 where
  pub current_offset : ℕ
  pub vreg_offsets : ℕ → ℕ
  pub vreg_colors : ℕ → Option ℕ
  pub max_vreg : ℕ
  pub adj_matrix : ℕ → ℕ → Bool
  pub degree : ℕ → ℕ
  pub use_count : ℕ → ℕ
  pub crosses_call : ℕ → Bool
  pub used_callee_saved : ℕ → Bool

pub reg_alloc_init : ℕ → RegAllocator
reg_alloc_init max_vreg = record {
  current_offset = 0;
  vreg_offsets = λ v. 0;
  vreg_colors = λ v. none;
  max_vreg = max_vreg;
  adj_matrix = λ v w. false;
  degree = λ v. 0;
  use_count = λ v. 0;
  crosses_call = λ v. false;
  used_callee_saved = λ c. false;
}

-- An array with one place written.
abbrev pub put {ℓ} : {A : Type ℓ} → (ℕ → A) → ℕ → A → ℕ → A
put f i a j = if j == i then a else f j

-- The numbers from 1 to `n`, as the loops over virtual registers run.
abbrev pub vregs : ℕ → List ℕ
vregs zero = []
vregs (suc n) = vregs n ++ suc n ∷ []

abbrev pub any {ℓ} : {A : Type ℓ} → (A → Bool) → List A → Bool
any p [] = false
any p (x ∷ xs) = p x || any p xs

abbrev pub fold {ℓ κ} : {A : Type ℓ} {S : Type κ} → (S → A → S) → S → List A → S
fold f s [] = s
fold f s (x ∷ xs) = fold f (f s x) xs

abbrev pub reverse_onto {ℓ} : {A : Type ℓ} → List A → List A → List A
reverse_onto [] ys = ys
reverse_onto (x ∷ xs) ys = reverse_onto xs (x ∷ ys)

abbrev pub reverse {ℓ} : {A : Type ℓ} → List A → List A
reverse xs = reverse_onto xs []

abbrev pub color_is : Option ℕ → ℕ → Bool
color_is none c = false
color_is (some d) c = d == c

-- `used_colors[c]`: a neighbour has the colour.
pub used_color : RegAllocator → ℕ → ℕ → Bool
used_color a node c =
    any (λ j. a.adj_matrix node j && color_is (a.vreg_colors j) c) (vregs a.max_vreg)

-- `for (int c = from; c < from + n; c++) if (!used_colors[c]) { color = c; break; }`
pub first_free : (ℕ → Bool) → ℕ → ℕ → Option ℕ
first_free used from zero = none
first_free used from (suc n) = if used from then first_free used (from + 1) n else some from

pub choose_color : Bool → (ℕ → Bool) → Option ℕ
choose_color crosses used =
    if crosses
    then first_free used 0 7
    else elim (first_free used 7 4) [ some c ↦ some c | none ↦ first_free used 0 7 ]

-- The body of the loop of the select phase.
pub select_node : RegAllocator → ℕ → RegAllocator
select_node a node =
    let color = choose_color (a.crosses_call node) (used_color a node) in
    record a {
      vreg_colors = put a.vreg_colors node color;
      used_callee_saved = elim color [
        | some c ↦ put a.used_callee_saved c true
        | none ↦ a.used_callee_saved
      ];
    }

-- The select phase, with the top of the stack first.
pub select : RegAllocator → List ℕ → RegAllocator
select a stack = fold select_node a stack

pub reg_alloc_get_color : RegAllocator → ℕ → Option ℕ
reg_alloc_get_color a v = if ltb a.max_vreg v then none else a.vreg_colors v

pub reg_alloc_get_offset : RegAllocator → ℕ → ℕ → ℕ × RegAllocator
reg_alloc_get_offset a v size =
    if ltb a.max_vreg v
    then (0, a)
    else if a.vreg_offsets v == 0
    then (let offset = a.current_offset + (if ltb size 8 then 8 else size) in
        (offset, record a { current_offset = offset; vreg_offsets = put a.vreg_offsets v offset }))
    else (a.vreg_offsets v, a)
