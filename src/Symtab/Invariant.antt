-- ===== src/Symtab/Invariant.antt =====
-- What every symbol table satisfies, and that its construction and the entering and leaving of
-- scopes keep it.
use mathlib.Core.Path.{subst}
use scorivm.Base.Lists.{
  length, get_elem?, replicate, length-append, get_elem?-append_left, get_elem?-append_self,
  get_or-replicate, get_elem?-concat,
}
use scorivm.Base.Logic.{◌==◌, Bytes, if◌then◌else◌, Bool-cases, Option-cases}
use scorivm.Base.{
  ℕ, ◌≤◌, ◌<◌, ◌≡◌, refl, ap, inl, inr, Option, none, some, List, [], ◌∷◌, ◌++◌, arith,
}
use scorivm.Symtab.Chain.{IsValidScope, empty-IsValidScope}
use scorivm.Symtab.{
  Symbol, Scope, Symtab, symtab_init, symtab_enter_scope, parent_of, symtab_leave_scope,
  symtab_lookup_in_scope, find_in, find, bucket,
}

abbrev pub IsBelow : Option ℕ → ℕ → Type 0
IsBelow none i = Unit
IsBelow (some p) i = p < i

-- Scopes are well formed and older than their children, the current scope exists, and an alias
-- points to an older symbol.
pub record IsValid (st : Symtab) : Type 0 where
  pub scope_ok :
      (i : ℕ) (sc : Scope)
      → get_elem? st.scopes i ≡ some sc
      → IsValidScope st.symbols sc × IsBelow sc.parent i
  pub current_ok : st.current_scope < length st.scopes
  pub universe_ok : st.universe_scope < length st.scopes
  pub alias_ok : (i : ℕ) (s : Symbol) → get_elem? st.symbols i ≡ some s → IsBelow s.alias_target i

pub parent-lt : (st : Symtab) (i p : ℕ) → IsValid st → parent_of st i ≡ some p → p < i
parent-lt st i p v e = elim (Option-cases (get_elem? st.scopes i)) [
  | inl missing ↦ absurd (ground arith)
  | inr (sc, found) ↦
      let h : sc.parent ≡ some p = rw (found, parent_of) at e in
      subst (λ o. IsBelow o i) h (v.scope_ok i sc found).1
]

abbrev empty_scope : Option ℕ → Scope
empty_scope parent = record {
  hash_table = replicate 64 [];
  capacity = 64;
  count = 0;
  parent = parent;
}

concat-scope_ok :
    (syms : List Symbol) (scopes : List Scope) (parent : Option ℕ)
    → ((i : ℕ) (sc : Scope)
        → get_elem? scopes i ≡ some sc
        → IsValidScope syms sc × IsBelow sc.parent i)
    → IsBelow parent (length scopes)
    → (i : ℕ) (sc : Scope) → get_elem? (scopes ++ empty_scope parent ∷ []) i ≡ some sc
    → IsValidScope syms sc × IsBelow sc.parent i
concat-scope_ok syms scopes parent old below i sc e =
    elim (get_elem?-concat scopes (empty_scope parent) sc i e) [
      | inl (_, found) ↦ old i sc found
      | inr (last, same) ↦
          subst (λ (x : Scope). IsValidScope syms x × IsBelow x.parent i) same
            (empty-IsValidScope syms parent, rw last below)
    ]

pub init-IsValid : IsValid symtab_init
unfolding symtab_init
init-IsValid = record {
  scope_ok = concat-scope_ok [] [] none (λ i sc e. absurd (ground arith)) tt;
  current_ok = omega arith;
  universe_ok = omega arith;
  alias_ok = λ i s e. absurd (ground arith);
}

pub enter-IsValid : (st : Symtab) → IsValid st → IsValid (symtab_enter_scope st)
unfolding symtab_enter_scope
enter-IsValid st v =
    let n = length-append st.scopes (empty_scope (some st.current_scope) ∷ []) in
    record {
      scope_ok =
          concat-scope_ok st.symbols st.scopes (some st.current_scope) v.scope_ok v.current_ok;
      current_ok = omega arith;
      universe_ok = let u = v.universe_ok in omega arith;
      alias_ok = v.alias_ok;
    }

pub leave-IsValid : (st : Symtab) → IsValid st → IsValid (symtab_leave_scope st)
unfolding symtab_leave_scope
leave-IsValid st v = elim (Option-cases (parent_of st st.current_scope)) [
  | inl root ↦ rw (root, symtab_leave_scope) v
  | inr (p, e) ↦
      rw (e, symtab_leave_scope)
        (record {
          scope_ok = v.scope_ok;
          current_ok = omega (arith, parent-lt st st.current_scope p v e, v.current_ok);
          universe_ok = v.universe_ok;
          alias_ok = v.alias_ok;
        })
]

module _ (st : Symtab) (i : ℕ) (h : i ≤ length st.scopes) where
  entered : get_elem? (symtab_enter_scope st).scopes i ≡ (
      if i == length st.scopes
      then some (empty_scope (some st.current_scope))
      else get_elem? st.scopes i)
  unfolding symtab_enter_scope
  entered = elim (Bool-cases (i == length st.scopes)) [
    | inl last ↦
        let k : i ≡ length st.scopes = ground arith in
        rw last (rw k (get_elem?-append_self st.scopes _))
    | inr before ↦ rw before (get_elem?-append_left st.scopes _ i (ground arith))
  ]

  -- A new scope is empty; the others are as before.
  pub enter-lookup_in_scope :
      (q : Bytes)
      → symtab_lookup_in_scope (symtab_enter_scope st) (some i) q
        ≡ (if i == length st.scopes then none else symtab_lookup_in_scope st (some i) q)
  unfolding symtab_enter_scope symtab_lookup_in_scope
  enter-lookup_in_scope q = elim (Bool-cases (i == length st.scopes)) [
    | inl last ↦
        let sc = empty_scope (some st.current_scope) in
        let none_there : find_in st.symbols sc q ≡ none =
          ap (find st.symbols q) (get_or-replicate {A = List ℕ} 64 (bucket sc q) []) in
        rw last (rw (entered, symtab_lookup_in_scope) (rw last none_there))
    | inr before ↦ rw before (rw (entered, symtab_lookup_in_scope) (rw before refl))
  ]

  -- The parent of a new scope is the scope that was current.
  pub enter-parent_of :
      parent_of (symtab_enter_scope st) i
      ≡ (if i == length st.scopes then some st.current_scope else parent_of st i)
  enter-parent_of = elim (Bool-cases (i == length st.scopes)) [
    | inl last ↦ rw last (rw (entered, parent_of) (rw last refl))
    | inr before ↦ rw before (rw (entered, parent_of) (rw before refl))
  ]
