-- ===== src/Symtab/Add.antt =====
-- A symbol that `symtab_define` or `symtab_insert_alias` adds: the table stays well formed, and the
-- lookups change at its name alone.
use mathlib.Core.Path.{subst}
use mathlib.Core.Option.{some-injective}
use scorivm.Base.Lists.{
  length, get_elem?, set, length-set, get_elem?-set, get_elem?_of_lt, get_elem?-concat,
}
use scorivm.Base.Logic.{◌==◌, Bytes, bytes_eq, if◌then◌else◌, Bool-cases, Option-cases}
use scorivm.Base.{
  ℕ, zero, suc, ◌<◌, ◌≡◌, refl, sym, ap, ◌∙◌, inl, inr, Bool, true, false, ◌&&◌, Option, none, some,
  [], ◌∷◌, ◌++◌, arith,
}
use scorivm.Symtab.Chain.{
  IsValidScope, IsValidScope-append, find_in-append, find_in-link, link-IsValidScope,
}
use scorivm.Symtab.Invariant.{IsBelow, IsValid}
use scorivm.Symtab.Lookup.{from-congr}
use scorivm.Symtab.{
  Symbol, Scope, Symtab, parent_of, find_in, symtab_lookup_in_scope, symtab_lookup_current,
  lookup_from, symtab_lookup, link, add_symbol,
}

lookup_at :
    (st : Symtab) (i : ℕ) (sc : Scope) (q : Bytes)
    → get_elem? st.scopes i ≡ some sc
    → symtab_lookup_in_scope st (some i) q ≡ find_in st.symbols sc q
unfolding symtab_lookup_in_scope
lookup_at st i sc q e = rw (e, symtab_lookup_in_scope) refl

from-here :
    (f : ℕ) (st : Symtab) (i : ℕ) (q : Bytes) (s : ℕ)
    → 0 < f
    → symtab_lookup_in_scope st (some i) q ≡ some s
    → lookup_from f st (some i) q ≡ some s
unfolding lookup_from
from-here zero st i q s h e = absurd (omega arith)
from-here (suc f) st i q s h e = rw (e, lookup_from) refl

lookup_at_none :
    (st : Symtab) (i : ℕ) (q : Bytes)
    → get_elem? st.scopes i ≡ none
    → symtab_lookup_in_scope st (some i) q ≡ none
unfolding symtab_lookup_in_scope
lookup_at_none st i q e = rw (e, symtab_lookup_in_scope) refl

-- A symbol that is added under a name which the current scope does not have.
module _ (st : Symtab) (s : Symbol) (v : IsValid st)
    (absent : symtab_lookup_current st s.name ≡ none)
    (below : IsBelow s.alias_target (length st.symbols)) where
  pub current : (sc : Scope) × (get_elem? st.scopes st.current_scope ≡ some sc)
  current = get_elem?_of_lt st.scopes st.current_scope v.current_ok

  pub added : add_symbol st s ≡ record st {
    symbols = st.symbols ++ s ∷ [];
    scopes = set st.scopes st.current_scope (link (length st.symbols) s.name current.0);
  }
  unfolding add_symbol
  added = rw (current.1, add_symbol)

  scope_at :
      (i : ℕ)
      → get_elem? (add_symbol st s).scopes i ≡ (
          if st.current_scope == i
          then some (link (length st.symbols) s.name current.0)
          else get_elem? st.scopes i)
  scope_at i = rw added (get_elem?-set st.scopes st.current_scope i _ v.current_ok)

  absent_in : find_in st.symbols current.0 s.name ≡ none
  unfolding symtab_lookup_current
  absent_in = rw (current.1, symtab_lookup_in_scope) at absent

  pub add-lookup_in_scope :
      (i : ℕ) (q : Bytes)
      → symtab_lookup_in_scope (add_symbol st s) (some i) q ≡ (
          if st.current_scope == i && bytes_eq s.name q
          then some (length st.symbols)
          else symtab_lookup_in_scope st (some i) q)
  add-lookup_in_scope i q =
      let id = length st.symbols in
      let symbols_at : (add_symbol st s).symbols ≡ st.symbols ++ s ∷ [] = rw added refl in
      elim (Bool-cases (st.current_scope == i)) [
        | inl here ↦
            let e : st.current_scope ≡ i = ground arith in
            lookup_at (add_symbol st s) i (link id s.name current.0) q (scope_at i ∙ rw here refl)
            ∙ ap (λ syms. find_in syms (link id s.name current.0) q) symbols_at
            ∙ find_in-link st.symbols s current.0 (v.scope_ok _ _ current.1).0 q
            ∙ rw here (
                ap (λ r. if bytes_eq s.name q then some id else r)
                  (sym (
                    lookup_at st i current.0 q
                      (subst (λ k. get_elem? st.scopes k ≡ some current.0) e current.1))))
        | inr other ↦ elim (Option-cases (get_elem? st.scopes i)) [
          | inl missing ↦
              lookup_at_none (add_symbol st s) i q (scope_at i ∙ rw other missing)
              ∙ rw other (sym (lookup_at_none st i q missing))
          | inr (sc, found) ↦
              lookup_at (add_symbol st s) i sc q (scope_at i ∙ rw other found)
              ∙ ap (λ syms. find_in syms sc q) symbols_at
              ∙ find_in-append st.symbols (s ∷ []) sc q (v.scope_ok i sc found).0
              ∙ rw other (sym (lookup_at st i sc q found))
        ]
      ]

  pub add-parent_of : (i : ℕ) → parent_of (add_symbol st s) i ≡ parent_of st i
  unfolding link
  add-parent_of i = elim (Bool-cases (st.current_scope == i)) [
    | inr other ↦ rw (scope_at i, parent_of) (rw other refl)
    | inl here ↦
        let e : st.current_scope ≡ i = ground arith in
        rw (scope_at i, parent_of)
          (rw here
            (subst (λ k. current.0.parent ≡ parent_of st k) e (rw (current.1, parent_of) refl)))
  ]

  scope_ok_after :
      (i : ℕ) (sc : Scope)
      → get_elem? (set st.scopes st.current_scope (link (length st.symbols) s.name current.0)) i
        ≡ some sc
      → IsValidScope (st.symbols ++ s ∷ []) sc × IsBelow sc.parent i
  unfolding link current
  scope_ok_after i sc e =
      let written =
        get_elem?-set st.scopes st.current_scope i (link (length st.symbols) s.name current.0)
          v.current_ok in
      elim (Bool-cases (st.current_scope == i)) [
        | inl here ↦
            let k : st.current_scope ≡ i = ground arith in
            let old = v.scope_ok st.current_scope current.0 current.1 in
            subst (λ (x : Scope). IsValidScope (st.symbols ++ s ∷ []) x × IsBelow x.parent i)
              (some-injective _ _ (sym (written ∙ rw here refl) ∙ e))
              (
                link-IsValidScope st.symbols s current.0 old.0 absent_in,
                subst (λ n. IsBelow current.0.parent n) k old.1,
              )
        | inr other ↦
            let found : get_elem? st.scopes i ≡ some sc = sym (written ∙ rw other refl) ∙ e in
            let old = v.scope_ok i sc found in
            (IsValidScope-append st.symbols (s ∷ []) sc old.0, old.1)
      ]

  pub add-IsValid : IsValid (add_symbol st s)
  add-IsValid = rw added (record {
    scope_ok = scope_ok_after;
    current_ok = rw length-set v.current_ok;
    universe_ok = rw length-set v.universe_ok;
    alias_ok = λ i t e. elim (get_elem?-concat st.symbols s t i e) [
      | inl (_, at_i) ↦ v.alias_ok i t at_i
      | inr (last, same) ↦ subst (λ (x : Symbol). IsBelow x.alias_target i) same (rw last below)
    ];
  })

  -- The new symbol hides what the name meant, and no other name changes its meaning.
  pub add-lookup :
      (q : Bytes)
      → symtab_lookup (add_symbol st s) q
        ≡ (if bytes_eq s.name q then some (length st.symbols) else symtab_lookup st q)
  unfolding symtab_lookup add_symbol
  add-lookup q =
      let id = length st.symbols in
      let st' = add_symbol st s in
      let cur = st.current_scope in
      let same_size : length st'.scopes ≡ length st.scopes =
        rw added (length-set st.scopes cur _) in
      let same_current : st'.current_scope ≡ cur = rw added refl in
      let self : (cur == cur) ≡ true = ground arith in
      rw (same_current, same_size)
        (elim (Bool-cases (bytes_eq s.name q)) [
          | inl bound ↦
              from-here (length st.scopes) st' cur q id (omega (arith, v.current_ok))
                (add-lookup_in_scope cur q ∙ rw (self, bound) refl)
              ∙ rw bound refl
          | inr free ↦
              from-congr st st' q (length st.scopes) (length st.scopes) cur v v.current_ok
                v.current_ok (λ j h. add-lookup_in_scope j q ∙ rw free (and_false _ _ (cur == j)))
                (λ j h. add-parent_of j)
              ∙ rw free refl
        ])
    where
      and_false : (x y : Option ℕ) (b : Bool) → (if b && false then x else y) ≡ y
      and_false x y true = refl
      and_false x y false = refl
