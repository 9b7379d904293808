-- ===== src/Symtab/Lookup.antt =====
-- `symtab_lookup` against its meaning: the innermost scope that binds the name.
use scorivm.Base.Lists.{length}
use scorivm.Base.Logic.{Bytes, Option-cases}
use scorivm.Base.{ℕ, zero, suc, ◌≤◌, ◌<◌, ◌≡◌, refl, ◌∙◌, ◌↔◌, inl, inr, none, some, arith}
use scorivm.Symtab.Invariant.{IsValid, parent-lt}
use scorivm.Symtab.{Symtab, parent_of, symtab_lookup_in_scope, lookup_from, symtab_lookup}

-- From scope `i` outwards, `s` is the first symbol that some scope has under the name.
pub data Resolves (st : Symtab) (q : Bytes) (s : ℕ) : ℕ → Type 0 where
  here : {i : ℕ} → symtab_lookup_in_scope st (some i) q ≡ some s → Resolves st q s i
  up :
      {i j : ℕ}
      → symtab_lookup_in_scope st (some i) q ≡ none
      → parent_of st i ≡ some j
      → Resolves st q s j
      → Resolves st q s i

-- No scope from `i` outwards has the name.
pub data Unbound (st : Symtab) (q : Bytes) : ℕ → Type 0 where
  top :
      {i : ℕ} → symtab_lookup_in_scope st (some i) q ≡ none → parent_of st i ≡ none → Unbound st q i
  outer :
      {i j : ℕ}
      → symtab_lookup_in_scope st (some i) q ≡ none
      → parent_of st i ≡ some j
      → Unbound st q j
      → Unbound st q i

module _ (st : Symtab) (v : IsValid st) (q : Bytes) where
  from-Resolves : (f i s : ℕ) → i < f → lookup_from f st (some i) q ≡ some s → Resolves st q s i
  unfolding lookup_from
  from-Resolves zero i s h e = absurd (omega arith)
  from-Resolves (suc f) i s h e = elim (Option-cases (symtab_lookup_in_scope st (some i) q)) [
    | inr (t, found) ↦ here (found ∙ rw (found, lookup_from) at e)
    | inl missing ↦
        let e₁ = rw (missing, lookup_from) at e in
        elim (Option-cases (parent_of st i)) [
          | inl root ↦ absurd (go f (rw root at e₁))
          | inr (j, parent) ↦
              up missing parent
                (from-Resolves f j s (omega (arith, parent-lt st i j v parent)) (rw parent at e₁))
        ]
  ]
    where
      go : (f : ℕ) → lookup_from f st none q ≡ some s → ⊥
      go zero e = cc
      go (suc f) e = cc

  Resolves-from :
      {s i : ℕ} (f : ℕ) → i < f → Resolves st q s i → lookup_from f st (some i) q ≡ some s
  unfolding lookup_from
  Resolves-from zero h r = absurd (omega arith)
  Resolves-from (suc f) h (here e) = rw (e, lookup_from)
  Resolves-from {i = i} (suc f) h (up {j = j} e p r) =
      rw (e, lookup_from) (rw p (Resolves-from f (omega (arith, parent-lt st i j v p)) r))

  from-Unbound : (f i : ℕ) → i < f → lookup_from f st (some i) q ≡ none → Unbound st q i
  unfolding lookup_from
  from-Unbound zero i h e = absurd (omega arith)
  from-Unbound (suc f) i h e = elim (Option-cases (symtab_lookup_in_scope st (some i) q)) [
    | inr (t, found) ↦ absurd (ground arith)
    | inl missing ↦
        let e₁ = rw (missing, lookup_from) at e in
        elim (Option-cases (parent_of st i)) [
          | inl root ↦ top missing root
          | inr (j, parent) ↦
              outer missing parent
                (from-Unbound f j (omega (arith, parent-lt st i j v parent)) (rw parent at e₁))
        ]
  ]

  Unbound-from : {i : ℕ} (f : ℕ) → i < f → Unbound st q i → lookup_from f st (some i) q ≡ none
  unfolding lookup_from
  Unbound-from zero h r = absurd (omega arith)
  Unbound-from (suc zero) h (top e p) = rw (e, lookup_from) refl
  Unbound-from (suc (suc f)) h (top e p) = rw (e, lookup_from) (rw p refl)
  Unbound-from {i = i} (suc f) h (outer {j = j} e p r) =
      rw (e, lookup_from) (rw p (Unbound-from f (omega (arith, parent-lt st i j v p)) r))

  -- `symtab_lookup` visits scopes until one has the name, and finds the innermost binding; it
  -- returns the null pointer exactly when no enclosing scope has the name.
  pub lookup-Resolves :
      ((s : ℕ) → (symtab_lookup st q ≡ some s) ↔ Resolves st q s st.current_scope)
      × ((symtab_lookup st q ≡ none) ↔ Unbound st q st.current_scope)
  unfolding symtab_lookup
  lookup-Resolves =
      let n = length st.scopes in
      let i = st.current_scope in
      (
        λ s. (from-Resolves n i s v.current_ok, Resolves-from n v.current_ok),
        (from-Unbound n i v.current_ok, Unbound-from n v.current_ok),
      )

-- Two tables that agree on the scopes up to `i` agree on the lookups from `i`, with any fuel that
-- is enough.
pub from-congr :
    (st st' : Symtab) (q : Bytes) (f g i : ℕ)
    → IsValid st
    → i < f
    → i < g
    → ((j : ℕ)
        → j ≤ i
        → symtab_lookup_in_scope st' (some j) q ≡ symtab_lookup_in_scope st (some j) q)
    → ((j : ℕ) → j ≤ i → parent_of st' j ≡ parent_of st j)
    → lookup_from f st' (some i) q ≡ lookup_from g st (some i) q
unfolding lookup_from
from-congr st st' q zero g i v hf hg same parents = absurd (omega arith)
from-congr st st' q (suc f) zero i v hf hg same parents = absurd (omega arith)
from-congr st st' q (suc f) (suc g) i v hf hg same parents =
    elim (Option-cases (symtab_lookup_in_scope st (some i) q)) [
      | inr (s, found) ↦
          rw (same i (omega arith) ∙ found, lookup_from) (rw (found, lookup_from) refl)
      | inl missing ↦
          rw (same i (omega arith) ∙ missing, lookup_from)
            (rw (missing, lookup_from)
              (elim (Option-cases (parent_of st i)) [
                | inl root ↦ rw (parents i (omega arith) ∙ root, root) (stop f g)
                | inr (j, p) ↦
                    let l = parent-lt st i j v p in
                    rw (parents i (omega arith) ∙ p, p)
                      (from-congr st st' q f g j v (omega arith) (omega arith)
                        (λ k h. same k (omega arith)) (λ k h. parents k (omega arith)))
              ]))
    ]
  where
    stop : (f g : ℕ) → lookup_from f st' none q ≡ lookup_from g st none q
    stop zero zero = refl
    stop zero (suc g) = refl
    stop (suc f) zero = refl
    stop (suc f) (suc g) = refl
