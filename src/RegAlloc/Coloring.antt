-- ===== src/RegAlloc/Coloring.antt =====
-- The select phase of src/backend/reg_alloc.c gives registers that interfere different colours.
use mathlib.Core.Option.{some-injective}
use scorivm.Base.Logic.{◌==◌, Bool-cases, Option-cases}
use scorivm.Base.{
  ℕ, zero, suc, ◌+◌, ◌≤◌, ◌<◌, ◌≡◌, ◌≢◌, sym, ◌∙◌, ◌⊎◌, inl, inr, Bool, true, false, ◌&&◌, ◌||◌,
  Option, none, some, List, [], ◌∷◌, ◌++◌, arith,
}
use scorivm.RegAlloc.{
  RegAllocator, num_phys_regs, put, vregs, any, color_is, used_color, first_free, choose_color,
  select_node, select,
}

any-append : (p : ℕ → Bool) (xs : List ℕ) (y : ℕ) → any p (xs ++ y ∷ []) ≡ (any p xs || p y)
any-append p [] y = ground arith
any-append p (x ∷ xs) y = ground (arith, any-append p xs y)

-- What no register in range has, none of them has.
any-vregs : (p : ℕ → Bool) (n v : ℕ) → any p (vregs n) ≡ false → 1 ≤ v → v ≤ n → p v ≡ false
any-vregs p zero v h l u = absurd (omega arith)
any-vregs p (suc n) v h l u =
    let split = any-append p (vregs n) (suc n) in
    elim (Bool-cases (v == suc n)) [
      | inl last ↦ let same : v ≡ suc n = ground arith in rw same (ground arith)
      | inr before ↦ any-vregs p n v (ground arith) l (ground arith)
    ]

first_free-free :
    (used : ℕ → Bool) (from n c : ℕ)
    → first_free used from n ≡ some c
    → (used c ≡ false) × (from ≤ c) × (c < from + n)
unfolding first_free
first_free-free used from zero c e = absurd (ground arith)
first_free-free used from (suc n) c e = elim (Bool-cases (used from)) [
  | inl taken ↦
      let (free, low, high) = first_free-free used (from + 1) n c (rw (taken, first_free) at e) in
      (free, omega arith, omega arith)
  | inr free ↦
      let same : from ≡ c = some-injective _ _ (rw (free, first_free) at e) in
      (rw (sym same) free, omega arith, omega arith)
]

-- A colour that is chosen is free, and one that calls preserve where a call is crossed.
pub choose_color-free :
    (crosses : Bool) (used : ℕ → Bool) (c : ℕ)
    → choose_color crosses used ≡ some c
    → (used c ≡ false) × (c < num_phys_regs) × (crosses ≡ true → c < 7)
unfolding choose_color
choose_color-free true used c e =
    let (free, low, high) = first_free-free used 0 7 c e in (free, omega arith, λ h. omega arith)
choose_color-free false used c e = elim (Option-cases (first_free used 7 4)) [
  | inl full ↦
      let (free, low, high) = first_free-free used 0 7 c (rw full at e) in
      (free, omega arith, λ h. omega arith)
  | inr (d, found) ↦
      let (free, low, high) = first_free-free used 7 4 c (found ∙ (rw found at e)) in
      (free, omega arith, λ h. absurd (ground arith))
]

-- Interference is symmetric, and no register interferes with itself.
pub record IsGraph (a : RegAllocator) : Type 0 where
  pub symmetric : (v w : ℕ) → a.adj_matrix v w ≡ a.adj_matrix w v
  pub irreflexive : (v : ℕ) → a.adj_matrix v v ≡ false

abbrev pub InRange : RegAllocator → ℕ → Type 0
InRange a v = (1 ≤ v) × (v ≤ a.max_vreg)

-- Registers that interfere have different colours, the colours are those of the machine, one that
-- crosses a call has a colour that calls preserve, and every colour given is recorded as used.
pub record IsColored (a : RegAllocator) : Type 0 where
  pub apart :
      (v w c d : ℕ)
      → InRange a v
      → InRange a w
      → a.adj_matrix v w ≡ true
      → a.vreg_colors v ≡ some c
      → a.vreg_colors w ≡ some d
      → c ≢ d
  pub physical : (v c : ℕ) → a.vreg_colors v ≡ some c → c < num_phys_regs
  pub preserved : (v c : ℕ) → a.crosses_call v ≡ true → a.vreg_colors v ≡ some c → c < 7
  pub recorded : (v c : ℕ) → a.vreg_colors v ≡ some c → a.used_callee_saved c ≡ true

-- No neighbour in range has a colour that counts as free.
free-apart :
    (a : RegAllocator) (node c w : ℕ)
    → used_color a node c ≡ false
    → InRange a w
    → a.adj_matrix node w ≡ true
    → a.vreg_colors w ≢ some c
unfolding used_color
free-apart a node c w h r adj e =
    let none_has =
      any-vregs (λ j. a.adj_matrix node j && color_is (a.vreg_colors j) c) a.max_vreg w h r.0 r.1 in
    let has : color_is (a.vreg_colors w) c ≡ true = rw e (ground arith) in ground arith

-- A chosen colour is marked, and the marks stay.
mark-true :
    (o : Option ℕ) (u : ℕ → Bool) (c : ℕ)
    → (o ≡ some c) ⊎ (u c ≡ true)
    → (elim o as (λ _. ℕ → Bool) [ some d ↦ put u d true | none ↦ u ]) c ≡ true
mark-true none u c h = ground arith
mark-true (some d) u c h = ground arith

-- The colour of the node that a turn of the loop visits, and those of the others.
module _ (a : RegAllocator) (node : ℕ) where
  picked : Option ℕ
  picked = choose_color (a.crosses_call node) (used_color a node)

  picked-free :
      (c : ℕ)
      → picked ≡ some c
      → (used_color a node c ≡ false) × (c < num_phys_regs) × (a.crosses_call node ≡ true → c < 7)
  unfolding picked
  picked-free c e = choose_color-free (a.crosses_call node) (used_color a node) c e

  color-cases :
      (v c : ℕ)
      → (select_node a node).vreg_colors v ≡ some c
      → ((v ≡ node) × (picked ≡ some c)) ⊎ ((v ≢ node) × (a.vreg_colors v ≡ some c))
  unfolding select_node picked
  color-cases v c e = elim (Bool-cases (v == node)) [
    | inl here ↦ inl (ground arith, rw here at e)
    | inr other ↦ inr (ground arith, rw other at e)
  ]

  recorded-cases :
      (c : ℕ)
      → (picked ≡ some c) ⊎ (a.used_callee_saved c ≡ true)
      → (select_node a node).used_callee_saved c ≡ true
  unfolding select_node picked
  recorded-cases c h = mark-true picked a.used_callee_saved c h

  select_node-apart :
      IsGraph a
      → IsColored a
      → (v w c d : ℕ) → InRange a v
      → InRange a w
      → a.adj_matrix v w ≡ true
      → (select_node a node).vreg_colors v ≡ some c
      → (select_node a node).vreg_colors w ≡ some d
      → c ≢ d
  select_node-apart g k v w c d in_v in_w adj ev ew = elim (color-cases v c ev) [
    | inl (v_here, e) ↦
        let near : a.adj_matrix node w ≡ true = rw v_here at adj in
        elim (color-cases w d ew) [
          | inl (w_here, _) ↦
              let loop : a.adj_matrix node node ≡ true = rw w_here at near in
              absurd (ground (arith, g.irreflexive node))
          | inr (_, before) ↦
              λ same. free-apart a node c w (picked-free c e).0 in_w near (rw (sym same) at before)
        ]
    | inr (_, before) ↦ elim (color-cases w d ew) [
      | inl (w_here, e) ↦
          let near : a.adj_matrix node v ≡ true = g.symmetric node v ∙ (rw w_here at adj) in
          λ same. free-apart a node d v (picked-free d e).0 in_v near (rw same at before)
      | inr (_, too) ↦ k.apart v w c d in_v in_w adj before too
    ]
  ]

  select_node-IsColored : IsGraph a → IsColored a → IsColored (select_node a node)
  unfolding select_node
  select_node-IsColored g k = record {
    apart = select_node-apart g k;
    physical = λ v c e. elim (color-cases v c e) [
      | inl (_, found) ↦ (picked-free c found).1
      | inr (_, before) ↦ k.physical v c before
    ];
    preserved = λ v c h e. elim (color-cases v c e) [
      | inl (here, found) ↦ (picked-free c found).2 (rw here at h)
      | inr (_, before) ↦ k.preserved v c h before
    ];
    recorded = λ v c e. elim (color-cases v c e) [
      | inl (_, found) ↦ recorded-cases c (inl found)
      | inr (_, before) ↦ recorded-cases c (inr (k.recorded v c before))
    ];
  }

select_node-IsGraph : (a : RegAllocator) (node : ℕ) → IsGraph a → IsGraph (select_node a node)
unfolding select_node
select_node-IsGraph a node g = record { symmetric = g.symmetric; irreflexive = g.irreflexive }

-- On an interference graph the select phase keeps a colouring one, whatever its stack.
pub select-IsColored :
    (a : RegAllocator) (stack : List ℕ) → IsGraph a → IsColored a → IsColored (select a stack)
unfolding select
select-IsColored a [] g k = k
select-IsColored a (node ∷ stack) g k =
    select-IsColored (select_node a node) stack (select_node-IsGraph a node g)
      (select_node-IsColored a node g k)
