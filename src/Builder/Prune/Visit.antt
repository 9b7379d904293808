-- ===== src/Builder/Prune/Visit.antt =====
-- What a visit of `prune_dead_blocks` of src/ir/ir_builder.c makes of the array and the stack.
use mathlib.Core.Path.{subst}
use scorivm.Base.Lists.{length}
use scorivm.Base.Logic.{◌==◌, ==_iff, if◌then◌else◌, Bool-cases}
use scorivm.Base.{ℕ, suc, ◌+◌, ◌≤◌, ◌≡◌, sym, ap, ◌⊎◌, inl, inr, true, false, List, [], ◌∷◌, arith}
use scorivm.Builder.Prune.{is_set, visit, keep}

abbrev pub Has : List ℕ → ℕ → Type 0
Has xs id = is_set xs id ≡ true

pub Has-here : (id : ℕ) (xs : List ℕ) → Has (id ∷ xs) id
unfolding is_set
Has-here id xs = ground arith

pub Has-there : (x : ℕ) (xs : List ℕ) (id : ℕ) → Has xs id → Has (x ∷ xs) id
unfolding is_set
Has-there x xs id h = ground arith

pub Has-split : (x : ℕ) (xs : List ℕ) (id : ℕ) → Has (x ∷ xs) id → (x ≡ id) ⊎ Has xs id
unfolding is_set
Has-split x xs id h = ground arith

pub Has-keep_reached : (r ids : List ℕ) (id : ℕ) → Has (keep r ids) id → Has r id × Has ids id
unfolding is_set keep
Has-keep_reached r [] id h = ground arith
Has-keep_reached r (x ∷ ids) id h =
    let rest = Has-keep_reached r ids id in
    elim (Bool-cases (is_set r x)) [
      | inl p ↦ elim (Bool-cases (x == id)) [
        | inl q ↦
            let e = (==_iff x id).0 q in
            (subst (λ y. Has r y) e p, subst (λ y. Has (x ∷ ids) y) e (Has-here x ids))
        | inr q ↦ ground arith
      ]
      | inr p ↦ ground arith
    ]

pub Has-keep : (r ids : List ℕ) (id : ℕ) → Has r id → Has ids id → Has (keep r ids) id
unfolding is_set keep
Has-keep r [] id k h = h
Has-keep r (x ∷ ids) id k h =
    let rest = Has-keep r ids id k in
    elim (Bool-cases (x == id)) [
      | inl q ↦
          let e = (==_iff x id).0 q in
          let k' : is_set r x ≡ true = subst (λ y. Has r y) (sym e) k in
          rw (k', subst (λ y. Has (x ∷ keep r ids) y) e (Has-here x (keep r ids)))
      | inr q ↦ ground arith
    ]

-- The ids that are not set.
unfoldable pub unset : List ℕ → List ℕ → ℕ
unset [] r = 0
unset (id ∷ ids) r = let rest : ℕ = unset ids r in if is_set r id then rest else suc rest

unset-le : (ids r : List ℕ) (t : ℕ) → unset ids (t ∷ r) ≤ unset ids r
unfolding unset is_set
unset-le [] r t = omega arith
unset-le (x ∷ ids) r t = let h = unset-le ids r t in ground arith

pub unset-lt :
    (ids r : List ℕ) (t : ℕ)
    → Has ids t
    → is_set r t ≡ false
    → suc (unset ids (t ∷ r)) ≤ unset ids r
unfolding unset is_set
unset-lt [] r t h e = ground arith
unset-lt (x ∷ ids) r t h e = elim (Bool-cases (x == t)) [
  | inl p ↦
      let q = (==_iff x t).0 p in
      let l = unset-le ids r t in
      let f : is_set r x ≡ false = subst (λ y. is_set r y ≡ false) (sym q) e in
      let h = Has-here t r in ground arith
  | inr p ↦ let l = unset-lt ids r t (ground arith) e in ground arith
]

visit-set : (t : ℕ) (ts r s : List ℕ) → is_set r t ≡ true → visit (t ∷ ts) (r, s) ≡ visit ts (r, s)
unfolding visit
visit-set t ts r s e = ap (λ b. visit ts (if b then (r, s) else (t ∷ r, t ∷ s))) e

visit-unset :
    (t : ℕ) (ts r s : List ℕ) → is_set r t ≡ false → visit (t ∷ ts) (r, s) ≡ visit ts (t ∷ r, t ∷ s)
unfolding visit
visit-unset t ts r s e = ap (λ b. visit ts (if b then (r, s) else (t ∷ r, t ∷ s))) e

-- What holds of the array and the stack, and is kept when a block is pushed, holds after a visit.
pub visit-keeps :
    (P : List ℕ → List ℕ → Type 0) (ts r s : List ℕ)
    → ((t : ℕ) (r s : List ℕ) → Has ts t → is_set r t ≡ false → P r s → P (t ∷ r) (t ∷ s))
    → P r s
    → P (visit ts (r, s)).0 (visit ts (r, s)).1
unfolding visit
visit-keeps P [] r s step p = p
visit-keeps P (t ∷ ts) r s step p =
    let later : (u : ℕ) (r s : List ℕ) → Has ts u → is_set r u ≡ false → P r s → P (u ∷ r) (u ∷ s) =
      λ u r s h. step u r s (Has-there t ts u h) in
    elim (Bool-cases (is_set r t)) [
      | inl e ↦ rw (visit-set t ts r s e) (visit-keeps P ts r s later p)
      | inr e ↦
          let p' = visit-keeps P ts (t ∷ r) (t ∷ s) later (step t r s (Has-here t ts) e p) in
          rw (visit-unset t ts r s e) p'
    ]

pub visit-grows : (ts r s : List ℕ) (id : ℕ) → Has r id → Has (visit ts (r, s)).0 id
visit-grows ts r s id h = visit-keeps (λ r s. Has r id) ts r s (λ t r s k e p. Has-there t r id p) h

pub visit-covers : (ts r s : List ℕ) (id : ℕ) → Has ts id → Has (visit ts (r, s)).0 id
unfolding visit is_set
visit-covers [] r s id h = ground arith
visit-covers (t ∷ ts) r s id h = elim (Has-split t ts id h) [
  | inl q ↦ elim (Bool-cases (is_set r t)) [
    | inl e ↦ rw (visit-set t ts r s e, visit-grows ts r s id (subst (λ y. Has r y) q e))
    | inr e ↦ rw (
      visit-unset t ts r s e,
      visit-grows ts (t ∷ r) (t ∷ s) id (subst (λ y. Has (t ∷ r) y) q (Has-here t r)),
    )
  ]
  | inr k ↦ elim (Bool-cases (is_set r t)) [
    | inl e ↦ rw (visit-set t ts r s e, visit-covers ts r s id k)
    | inr e ↦ rw (visit-unset t ts r s e, visit-covers ts (t ∷ r) (t ∷ s) id k)
  ]
]

-- What a visit makes of an array and a stack; `bound` blocks can still be taken from the stack at most.
pub record Visited (ids ts r s : List ℕ) (bound : ℕ) (r' s' : List ℕ) : Type 0 where
  pub old_or_new : (id : ℕ) → Has r' id → Has r id ⊎ (Has ts id × Has s' id)
  pub stacked : (id : ℕ) → Has s id → Has s' id
  pub reached : (id : ℕ) → Has s' id → Has r' id
  pub bounded : unset ids r' + length s' ≤ bound

pub push-Visited :
    (ids ts r s : List ℕ) (bound : ℕ)
    → ((id : ℕ) → Has ts id → Has ids id)
    → (t : ℕ) (r' s' : List ℕ) → Has ts t
    → is_set r' t ≡ false
    → Visited ids ts r s bound r' s'
    → Visited ids ts r s bound (t ∷ r') (t ∷ s')
push-Visited ids ts r s bound within t r' s' h e v = record {
  old_or_new = λ id k. elim (Has-split t r' id k) [
    | inl q ↦ inr (subst (λ y. Has ts y) q h, subst (λ y. Has (t ∷ s') y) q (Has-here t s'))
    | inr k ↦ elim (v.old_or_new id k) [ inl o ↦ inl o | inr n ↦ inr (n.0, Has-there t s' id n.1) ]
  ];
  stacked = λ id k. Has-there t s' id (v.stacked id k);
  reached = λ id k. elim (Has-split t s' id k) [
    | inl q ↦ subst (λ y. Has (t ∷ r') y) q (Has-here t r')
    | inr k ↦ Has-there t r' id (v.reached id k)
  ];
  bounded = let l = unset-lt ids r' t (within t h) e in let m = v.bounded in omega arith;
}
