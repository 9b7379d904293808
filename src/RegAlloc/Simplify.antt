-- ===== src/RegAlloc/Simplify.antt =====
-- The simplify phase of src/backend/reg_alloc.c takes every register off the graph.
use mathlib.Core.List.{append_assoc}
use mathlib.Core.Path.{subst}
use scorivm.Base.Logic.{leb, ◌==◌, if◌then◌else◌, Bool-cases}
use scorivm.Base.{
  ℕ, zero, suc, ◌+◌, ◌≤◌, ◌<◌, ◌≡◌, refl, sym, ap, ◌∙◌, ◌⊎◌, inl, inr, Bool, true, false, not, ◌&&◌,
  Option, none, some, List, [], ◌∷◌, ◌++◌, arith,
}
use scorivm.RegAlloc.Build.{Weights, better, consider, best_node, lower_degrees, simplify, count_if}
use scorivm.RegAlloc.{RegAllocator, put, vregs, fold}

-- The number of registers from 1 to `n` that are left.
abbrev pub left : (ℕ → Bool) → ℕ → ℕ
left removed n = count_if (λ v. not (removed v)) (vregs n)

count_if-append :
    (p : ℕ → Bool) (xs : List ℕ) (y : ℕ)
    → count_if p (xs ++ y ∷ []) ≡ count_if p xs + (if p y then 1 else 0)
count_if-append p [] y = omega arith
count_if-append p (x ∷ xs) y = omega (arith, count_if-append p xs y)

-- What the search has found is a register in range that is left.
abbrev Found : (ℕ → Bool) → ℕ → Option ℕ → Type 0
Found removed n o = (i : ℕ) × (o ≡ some i) × (1 ≤ i) × (i ≤ n) × (removed i ≡ false)

module _ (w : Weights) (a : RegAllocator) (removed : ℕ → Bool) where
  fold-append :
      (xs : List ℕ) (y : ℕ) (o : Option ℕ)
      → fold (consider w a removed) o (xs ++ y ∷ [])
        ≡ consider w a removed (fold (consider w a removed) o xs) y
  fold-append [] y o = refl
  fold-append (x ∷ xs) y o = fold-append xs y (consider w a removed o x)

  -- A turn keeps a find, and finds the register at hand if it is left.
  consider-Found :
      (o : Option ℕ) (n : ℕ)
      → (((o ≡ none) × (left removed n ≡ 0)) ⊎ Found removed n o)
      → let r = consider w a removed o (suc n) in
        ((r ≡ none) × (left removed (suc n) ≡ 0)) ⊎ Found removed (suc n) r
  consider-Found none n h = elim (Bool-cases (removed (suc n))) [
    | inl gone ↦
        let split = count_if-append (λ v. not (removed v)) (vregs n) (suc n) in
        elim h [
          | inl (_, zero_left) ↦ rw gone (inl (refl, ground arith))
          | inr (i, e, _, _, _) ↦ absurd (ground arith)
        ]
    | inr still ↦ rw still (inr (suc n, refl, omega arith, omega arith, still))
  ]
  consider-Found (some best) n h = elim h [
    | inl (e, _) ↦ absurd (ground arith)
    | inr (i, e, low, high, kept) ↦
        elim (Bool-cases (not (removed (suc n)) && better w a (suc n) best)) [
          | inl taken ↦ rw taken (inr (suc n, refl, omega arith, omega arith, ground arith))
          | inr passed ↦ rw passed (inr (i, e, low, omega arith, kept))
        ]
  ]

  search-Found :
      (n : ℕ)
      → let r = fold (consider w a removed) none (vregs n) in
        ((r ≡ none) × (left removed n ≡ 0)) ⊎ Found removed n r
  search-Found zero = inl (refl, refl)
  search-Found (suc n) =
      rw (fold-append (vregs n) (suc n) none)
        (consider-Found (fold (consider w a removed) none (vregs n)) n (search-Found n))

  best_node-Found : 0 < left removed a.max_vreg → Found removed a.max_vreg (best_node w a removed)
  unfolding best_node
  best_node-Found h = elim (search-Found a.max_vreg) [
    | inl (_, empty) ↦ absurd (omega arith)
    | inr found ↦ found
  ]

-- A register beyond the range does not count.
left-beyond :
    (removed : ℕ → Bool) (node n : ℕ) → n < node → left (put removed node true) n ≡ left removed n
left-beyond removed node zero h = refl
left-beyond removed node (suc n) h =
    let after = count_if-append (λ v. not (put removed node true v)) (vregs n) (suc n) in
    let before = count_if-append (λ v. not (removed v)) (vregs n) (suc n) in
    ground (arith, left-beyond removed node n (omega arith))

left-put :
    (removed : ℕ → Bool) (node n : ℕ)
    → 1 ≤ node
    → node ≤ n
    → removed node ≡ false
    → left removed n ≡ suc (left (put removed node true) n)
left-put removed node zero l u h = absurd (omega arith)
left-put removed node (suc n) l u h =
    let after = count_if-append (λ v. not (put removed node true v)) (vregs n) (suc n) in
    let before = count_if-append (λ v. not (removed v)) (vregs n) (suc n) in
    elim (Bool-cases (suc n == node)) [
      | inl last ↦
          let here : node ≡ suc n = ground arith in
          let kept : removed (suc n) ≡ false = rw here at h in
          ground (arith, left-beyond removed node n (omega arith))
      | inr other ↦ ground (arith, left-put removed node n l (ground arith) h)
    ]

-- How often a register stands on a stack.
pub times : ℕ → List ℕ → ℕ
times v [] = 0
times v (x ∷ xs) = (if x == v then 1 else 0) + times v xs

times-append : (v : ℕ) (xs ys : List ℕ) → times v (xs ++ ys) ≡ times v xs + times v ys
unfolding times
times-append v [] ys = omega arith
times-append v (x ∷ xs) ys = omega (arith, times-append v xs ys)

-- A register in range that is left.
abbrev pub is_left : (ℕ → Bool) → ℕ → ℕ → Bool
is_left removed n v = leb 1 v && (leb v n && not (removed v))

none_left : (removed : ℕ → Bool) (n v : ℕ) → left removed n ≡ 0 → is_left removed n v ≡ false
none_left removed zero v h = ground arith
none_left removed (suc n) v h =
    let split = count_if-append (λ v. not (removed v)) (vregs n) (suc n) in
    let before = none_left removed n v (ground arith) in
    elim (Bool-cases (suc n == v)) [
      | inl last ↦
          let here : suc n ≡ v = ground arith in
          let gone : removed (suc n) ≡ true = ground arith in
          let gone_too : removed v ≡ true = subst (λ u. removed u ≡ true) here gone in ground arith
      | inr other ↦ ground arith
    ]

taken_once :
    (removed : ℕ → Bool) (node n v : ℕ)
    → 1 ≤ node
    → node ≤ n
    → removed node ≡ false
    → (if is_left (put removed node true) n v then 1 else 0) + (if node == v then 1 else 0)
      ≡ (if is_left removed n v then 1 else 0)
taken_once removed node n v l u h = elim (Bool-cases (node == v)) [
  | inl same ↦
      let here : node ≡ v = ground arith in
      let kept : removed v ≡ false = subst (λ u. removed u ≡ false) here h in ground arith
  | inr other ↦ ground arith
]

-- Counting down from the number of registers that are left, the phase returns a stack on which every
-- register in range that is left is pushed exactly once and no other, above what was there, with the same
-- graph and colours.
pub simplify-Returns :
    (w : Weights) (remaining : ℕ) (a : RegAllocator) (removed : ℕ → Bool) (stack : List ℕ)
    → left removed a.max_vreg ≡ remaining
    → (b : RegAllocator) × (taken : List ℕ) × (simplify w remaining a removed stack
        ≡ some (b, taken ++ stack))
      × ((v : ℕ) → times v taken ≡ (if is_left removed a.max_vreg v then 1 else 0))
      × (b.adj_matrix ≡ a.adj_matrix)
      × (b.vreg_colors ≡ a.vreg_colors)
unfolding simplify lower_degrees times
simplify-Returns w zero a removed stack h =
    (a, [], refl, λ v. rw (none_left removed a.max_vreg v h) refl, refl, refl)
simplify-Returns w (suc remaining) a removed stack h =
    let (node, e, low, high, kept) = best_node-Found w a removed (omega arith) in
    let gone = put removed node true in
    let fewer = left-put removed node a.max_vreg low high kept in
    let (b, taken, returns, once, adj, colors) =
      simplify-Returns w remaining (lower_degrees a node gone) gone (node ∷ stack) (omega arith) in
    (
      b,
      taken ++ (node ∷ []),
      rw (e, simplify)
          (returns ∙ ap (λ l. some (b, l)) (sym (append_assoc taken (node ∷ []) stack))),
      λ v.
          let split = times-append v taken (node ∷ []) in
          let here = taken_once removed node a.max_vreg v low high kept in
          let before = once v in omega arith,
      adj,
      colors,
    )
