-- ===== src/Symtab/Innermost.antt =====
-- `symtab_lookup` of src/middleend/symtab.c against the symbols that stand in the chains of the scopes.
use mathlib.Core.Path.{subst}
use mathlib.Core.Option.{some-injective}
use scorivm.Base.Lists.{get_elem?, get_or, All}
use scorivm.Base.Logic.{Bytes, bytes_eq, bytes_eq_iff, Bool-cases, Option-cases}
use scorivm.Base.{ℕ, ◌%◌, ◌≡◌, sym, ap, ◌∙◌, ◌↔◌, inl, inr, none, some, List, [], ◌∷◌}
use scorivm.Symtab.Chain.{AtHome, Distinct, find-cons}
use scorivm.Symtab.Invariant.{IsValid}
use scorivm.Symtab.Lookup.{Resolves, here, up, Unbound, top, outer, lookup-Resolves}
use scorivm.Symtab.{
  Symbol, Scope, Symtab, hash_token, find, find_in, bucket, parent_of, symtab_lookup_in_scope,
  symtab_lookup,
}

pub data IsMember (s : ℕ) : List ℕ → Type 0 where
  first : {i : ℕ} {c : List ℕ} → i ≡ s → IsMember s (i ∷ c)
  later : {i : ℕ} {c : List ℕ} → IsMember s c → IsMember s (i ∷ c)

-- The symbol `s` has the name `q` and stands in some chain of the scope `i`.
pub record IsIn (st : Symtab) (i : ℕ) (q : Bytes) (s : ℕ) : Type 0 where
  pub scope : Scope
  pub of_table : get_elem? st.scopes i ≡ some scope
  pub chain : ℕ
  pub member : IsMember s (get_or scope.hash_table chain [])
  pub symbol : Symbol
  pub of_store : get_elem? st.symbols s ≡ some symbol
  pub named : symbol.name ≡ q

-- From scope `i` outwards, `s` is the symbol of the name in the first scope that has one.
pub data IsInnermost (st : Symtab) (q : Bytes) (s : ℕ) : ℕ → Type 0 where
  in_scope : {i : ℕ} → IsIn st i q s → IsInnermost st q s i
  outside :
      {i j : ℕ}
      → ((t : ℕ) → ¬ IsIn st i q t)
      → parent_of st i ≡ some j
      → IsInnermost st q s j
      → IsInnermost st q s i

-- No scope from `i` outwards has a symbol of the name.
pub data IsFree (st : Symtab) (q : Bytes) : ℕ → Type 0 where
  at_top : {i : ℕ} → ((t : ℕ) → ¬ IsIn st i q t) → parent_of st i ≡ none → IsFree st q i
  above :
      {i j : ℕ}
      → ((t : ℕ) → ¬ IsIn st i q t)
      → parent_of st i ≡ some j
      → IsFree st q j
      → IsFree st q i

module _ (syms : List Symbol) (q : Bytes) where
  find-IsMember :
      (b : ℕ) (c : List ℕ) (s : ℕ)
      → All (AtHome syms b) c
      → find syms q c ≡ some s
      → IsMember s c × (x : Symbol) × (get_elem? syms s ≡ some x) × (x.name ≡ q)
  unfolding find
  find-IsMember b [] s h e = cc
  find-IsMember b (i ∷ c) s h e =
      let (x, at_i, home) = h.0 in
      let e' = sym (find-cons syms q i c x at_i) ∙ e in
      elim (Bool-cases (bytes_eq x.name q)) [
        | inl same ↦
            let e₁ : i ≡ s = some-injective i s (rw same at e') in
            (
              first e₁,
              x,
              subst (λ j. get_elem? syms j ≡ some x) e₁ at_i,
              (bytes_eq_iff x.name q).0 same,
            )
        | inr other ↦
            let (m, y, stored, named) = find-IsMember b c s h.1 (rw other at e') in
            (later m, y, stored, named)
      ]

  IsMember-find :
      (b : ℕ) (c : List ℕ) (s : ℕ) (x : Symbol)
      → All (AtHome syms b) c
      → Distinct syms c
      → IsMember s c
      → get_elem? syms s ≡ some x
      → x.name ≡ q
      → find syms q c ≡ some s
  unfolding find
  IsMember-find b [] s x h d m e n = elim m [ ]
  IsMember-find b (i ∷ c) s x h d (first at) e n =
      find-cons syms q i c x (ap (get_elem? syms) at ∙ e)
      ∙ rw ((bytes_eq_iff x.name q).1 n) (ap (λ j. some j) at)
  IsMember-find b (i ∷ c) s x h d (later m) e n =
      let (y, at_i, home) = h.0 in
      let found = IsMember-find b c s x h.1 d.1 m e n in
      elim (Bool-cases (bytes_eq y.name q)) [
        | inl same ↦
            let absent = d.0 y at_i in
            let q' = (bytes_eq_iff y.name q).0 same in
            absurd (cc (ap (λ r. find syms r c) (sym q') ∙ absent))
        | inr other ↦ find-cons syms q i c y at_i ∙ rw other found
      ]

module _ (st : Symtab) (v : IsValid st) (i : ℕ) (q : Bytes) where
  found-IsIn : (s : ℕ) → symtab_lookup_in_scope st (some i) q ≡ some s → IsIn st i q s
  unfolding symtab_lookup_in_scope find_in
  found-IsIn s e = elim (Option-cases (get_elem? st.scopes i)) [
    | inl missing ↦ absurd (cc (rw (missing, symtab_lookup_in_scope) at e))
    | inr (sc, at_i) ↦
        let valid = (v.scope_ok i sc at_i).0 in
        let (m, x, stored, named) =
          find-IsMember st.symbols q (bucket sc q) (get_or sc.hash_table (bucket sc q) []) s
            (valid.placed (bucket sc q)) (rw (at_i, symtab_lookup_in_scope) at e) in
        record {
          scope = sc;
          of_table = at_i;
          chain = bucket sc q;
          member = m;
          symbol = x;
          of_store = stored;
          named = named;
        }
  ]

  IsIn-found : (s : ℕ) → IsIn st i q s → symtab_lookup_in_scope st (some i) q ≡ some s
  unfolding symtab_lookup_in_scope find_in
  IsIn-found s h =
      let valid = (v.scope_ok i h.scope h.of_table).0 in
      let at_home =
        home_of st.symbols h.chain (get_or h.scope.hash_table h.chain []) s (valid.placed h.chain)
          h.member in
      let (y, stored, hashed) = at_home in
      let same = some-injective y h.symbol (sym stored ∙ h.of_store) in
      let b : bucket h.scope q ≡ h.chain =
        ap (λ n. hash_token q % n) valid.capacity_eq
        ∙ (ap (λ (n : Bytes). hash_token n % 64) (sym (ap (λ (z : Symbol). z.name) same ∙ h.named))
            ∙ hashed) in
      rw (h.of_table, symtab_lookup_in_scope)
        (ap (λ n. find st.symbols q (get_or h.scope.hash_table n [])) b
          ∙ IsMember-find st.symbols q h.chain (get_or h.scope.hash_table h.chain []) s h.symbol
              (valid.placed h.chain) (valid.distinct h.chain) h.member h.of_store h.named)
    where
      home_of :
          (syms : List Symbol) (b : ℕ) (c : List ℕ) (s : ℕ)
          → All (AtHome syms b) c
          → IsMember s c
          → AtHome syms b s
      home_of syms b [] s h m = elim m [ ]
      home_of syms b (i ∷ c) s h (first at) = subst (AtHome syms b) at h.0
      home_of syms b (i ∷ c) s h (later m) = home_of syms b c s h.1 m

  absent_from : symtab_lookup_in_scope st (some i) q ≡ none → (t : ℕ) → ¬ IsIn st i q t
  absent_from e t h = cc (sym e ∙ IsIn-found t h)

  not_found : ((t : ℕ) → ¬ IsIn st i q t) → symtab_lookup_in_scope st (some i) q ≡ none
  not_found absent = elim (Option-cases (symtab_lookup_in_scope st (some i) q)) [
    | inl e ↦ e
    | inr (t, e) ↦ absurd (absent t (found-IsIn t e))
  ]

module _ (st : Symtab) (v : IsValid st) (q : Bytes) where
  Resolves-IsInnermost : (s i : ℕ) → Resolves st q s i → IsInnermost st q s i
  Resolves-IsInnermost s i (here e) = in_scope (found-IsIn st v i q s e)
  Resolves-IsInnermost s i (up {j = j} e p r) =
      outside (absent_from st v i q e) p (Resolves-IsInnermost s j r)

  IsInnermost-Resolves : (s i : ℕ) → IsInnermost st q s i → Resolves st q s i
  IsInnermost-Resolves s i (in_scope h) = here (IsIn-found st v i q s h)
  IsInnermost-Resolves s i (outside {j = j} h p r) =
      up (not_found st v i q h) p (IsInnermost-Resolves s j r)

  Unbound-IsFree : (i : ℕ) → Unbound st q i → IsFree st q i
  Unbound-IsFree i (top e p) = at_top (absent_from st v i q e) p
  Unbound-IsFree i (outer {j = j} e p r) = above (absent_from st v i q e) p (Unbound-IsFree j r)

  IsFree-Unbound : (i : ℕ) → IsFree st q i → Unbound st q i
  IsFree-Unbound i (at_top h p) = top (not_found st v i q h) p
  IsFree-Unbound i (above {j = j} h p r) = outer (not_found st v i q h) p (IsFree-Unbound j r)

  -- In a valid table `symtab_lookup` returns a symbol exactly when it is the one that has the name in a
  -- chain of the first scope outwards that has such a symbol, and the null pointer exactly when no
  -- enclosing scope has one.
  pub lookup-IsInnermost :
      ((s : ℕ) → (symtab_lookup st q ≡ some s) ↔ IsInnermost st q s st.current_scope)
      × ((symtab_lookup st q ≡ none) ↔ IsFree st q st.current_scope)
  lookup-IsInnermost =
      let (found, missing) = lookup-Resolves st v q in
      let i = st.current_scope in
      (
        λ s. (
          λ e. Resolves-IsInnermost s i ((found s).0 e),
          λ h. (found s).1 (IsInnermost-Resolves s i h),
        ),
        (λ e. Unbound-IsFree i (missing.0 e), λ h. missing.1 (IsFree-Unbound i h)),
      )
