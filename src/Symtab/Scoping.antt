-- ===== src/Symtab/Scoping.antt =====
-- Lexical scoping: what is declared between the entering and the leaving of a scope is forgotten.
use scorivm.Base.Lists.{length, get_elem?, length-append}
use scorivm.Base.Logic.{◌==◌, Bytes, if◌then◌else◌, Option-cases}
use scorivm.Base.{
  ℕ, ◌+◌, ◌≤◌, ◌<◌, ◌≡◌, ◌≢◌, refl, ap, ◌∙◌, inl, inr, Bool, false, Option, some, arith,
}
use scorivm.Symtab.Define.{Binds, define-Binds, insert_alias-Binds}
use scorivm.Symtab.Invariant.{
  IsValid, enter-IsValid, leave-IsValid, enter-lookup_in_scope, enter-parent_of,
}
use scorivm.Symtab.Lookup.{from-congr}
use scorivm.Symtab.{
  SymbolKind, Symtab, symtab_enter_scope, parent_of, symtab_leave_scope, symtab_lookup_in_scope,
  symtab_lookup_current, lookup_from, symtab_lookup, symtab_define, symtab_insert_alias,
}

-- The calls that a compiler pass makes inside one scope, with whole inner scopes among them.
pub data Block : Symtab → Symtab → Type 0 where
  done : {st : Symtab} → Block st st
  define :
      {st u : Symtab} (name : Bytes) (kind : SymbolKind) (type node : Option ℕ) (is_editus : Bool)
      → Block st u
      → Block st (symtab_define u name kind type node is_editus).1
  alias :
      {st u : Symtab} (name : Bytes) (target : ℕ)
      → Block st u
      → Block st (symtab_insert_alias u name target).1
  nested :
      {st u w : Symtab}
      → Block st u
      → Block (symtab_enter_scope u) w
      → Block st (symtab_leave_scope w)

-- `u` is `st` with changes in its current scope and in scopes made since alone.
pub record Keeps (st u : Symtab) : Type 0 where
  pub valid : IsValid u
  pub same_current : u.current_scope ≡ st.current_scope
  pub grows : length st.scopes ≤ length u.scopes
  pub others :
      (i : ℕ) (q : Bytes)
      → i < length st.scopes
      → i ≢ st.current_scope
      → symtab_lookup_in_scope u (some i) q ≡ symtab_lookup_in_scope st (some i) q
  pub parents : (i : ℕ) → i < length st.scopes → parent_of u i ≡ parent_of st i

Keeps-Binds : (st u w : Symtab) (name : Bytes) → Keeps st u → Binds u name w → Keeps st w
Keeps-Binds st u w name k b = record {
  valid = b.valid;
  same_current = b.same_current ∙ k.same_current;
  grows = omega (arith, k.grows, b.same_size);
  others = λ i q h ne.
      let elsewhere : (u.current_scope == i) ≡ false = ground (arith, k.same_current) in
      b.lookup_in_scope i q ∙ rw elsewhere (k.others i q h ne);
  parents = λ i h. b.same_parents i ∙ k.parents i h;
}

define-Keeps :
    (st u : Symtab) (name : Bytes) (kind : SymbolKind) (type node : Option ℕ) (is_editus : Bool)
    → Keeps st u
    → Keeps st (symtab_define u name kind type node is_editus).1
define-Keeps st u name kind type node is_editus k =
    let (refused, bound) = define-Binds u name kind type node is_editus k.valid in
    elim (Option-cases (symtab_lookup_current u name)) [
      | inl absent ↦ Keeps-Binds st u _ name k (bound absent).1
      | inr (s, present) ↦ rw (refused s present) k
    ]

alias-Keeps :
    (st u : Symtab) (name : Bytes) (target : ℕ)
    → Keeps st u
    → Keeps st (symtab_insert_alias u name target).1
unfolding symtab_insert_alias
alias-Keeps st u name target k = elim (Option-cases (get_elem? u.symbols target)) [
  | inr (t, found) ↦
      let (refused, bound) = insert_alias-Binds u name target t k.valid found in
      elim (Option-cases (symtab_lookup_current u name)) [
        | inl absent ↦ Keeps-Binds st u _ name k (bound absent).1
        | inr (s, present) ↦ rw (refused s present) k
      ]
  | inl missing ↦ elim (Option-cases (symtab_lookup_current u name)) [
    | inl absent ↦ rw (absent, symtab_insert_alias) (rw missing k)
    | inr (s, present) ↦ rw (present, symtab_insert_alias) k
  ]
]

-- After an inner scope is left, all scopes that there were before it are as they were.
pub record Restores (u w : Symtab) : Type 0 where
  pub valid : IsValid w
  pub same_current : w.current_scope ≡ u.current_scope
  pub grows : length u.scopes ≤ length w.scopes
  pub lookups :
      (i : ℕ) (q : Bytes)
      → i < length u.scopes
      → symtab_lookup_in_scope w (some i) q ≡ symtab_lookup_in_scope u (some i) q
  pub parents : (i : ℕ) → i < length u.scopes → parent_of w i ≡ parent_of u i

leave-Restores :
    (u w : Symtab) → IsValid u → Keeps (symtab_enter_scope u) w → Restores u (symtab_leave_scope w)
unfolding symtab_leave_scope symtab_enter_scope symtab_lookup_in_scope
leave-Restores u w v k =
    let n = length u.scopes in
    let size : length (symtab_enter_scope u).scopes ≡ n + 1 = length-append u.scopes _ in
    let parent : parent_of w w.current_scope ≡ some u.current_scope =
      rw k.same_current (k.parents n (omega arith) ∙ enter-parent_of u n (omega arith) ∙ self n) in
    let left : symtab_leave_scope w ≡ record w { current_scope = u.current_scope } =
      rw (parent, symtab_leave_scope) refl in
    record {
      valid = leave-IsValid w k.valid;
      same_current = rw left refl;
      grows = rw left (omega (arith, k.grows));
      lookups = λ i q h. rw left (
          k.others i q (omega arith) (omega (arith, h))
          ∙ enter-lookup_in_scope u i (omega arith) q
          ∙ before _ _ i h);
      parents = λ i h.
          rw left (k.parents i (omega arith) ∙ enter-parent_of u i (omega arith) ∙ before _ _ i h);
    }
  where
    self : (n : ℕ) → (if n == n then some u.current_scope else parent_of u n) ≡ some u.current_scope
    self n = ground arith

    before :
        (x y : Option ℕ) (i : ℕ) → i < length u.scopes → (if i == length u.scopes then x else y) ≡ y
    before x y i h = ground arith

Block-Keeps : {st u : Symtab} → IsValid st → Block st u → Keeps st u
Block-Keeps {st} v done = record {
  valid = v;
  same_current = refl;
  grows = omega arith;
  others = λ i q h ne. refl;
  parents = λ i h. refl;
}
Block-Keeps {st} v (define {u = u} name kind type node is_editus b) =
    define-Keeps st u name kind type node is_editus (Block-Keeps v b)
Block-Keeps {st} v (alias {u = u} name target b) = alias-Keeps st u name target (Block-Keeps v b)
Block-Keeps {st} v (nested {u = u} {w = w} b inner) =
    let k = Block-Keeps v b in
    let r = leave-Restores u w k.valid (Block-Keeps (enter-IsValid u k.valid) inner) in
    record {
      valid = r.valid;
      same_current = r.same_current ∙ k.same_current;
      grows = omega (arith, k.grows, r.grows);
      others = λ i q h ne. r.lookups i q (omega (arith, k.grows)) ∙ k.others i q h ne;
      parents = λ i h. r.parents i (omega (arith, k.grows)) ∙ k.parents i h;
    }

-- Whatever is declared between the entering of a scope and the leaving of it, in inner scopes too,
-- every lookup afterwards gives what it gave before, and the table is valid with the same current
-- scope.
pub Block-Restores :
    (st w : Symtab)
    → IsValid st
    → Block (symtab_enter_scope st) w
    → let after = symtab_leave_scope w in
      IsValid after
      × (after.current_scope ≡ st.current_scope)
      × ((q : Bytes) → symtab_lookup after q ≡ symtab_lookup st q)
unfolding symtab_lookup
Block-Restores st w v b =
    let r = leave-Restores st w v (Block-Keeps (enter-IsValid st v) b) in
    (
      r.valid,
      r.same_current,
      λ q.
          ap
            (λ i.
              lookup_from (length (symtab_leave_scope w).scopes) (symtab_leave_scope w) (some i) q)
            r.same_current
          ∙ from-congr st (symtab_leave_scope w) q _ _ st.current_scope v
              (omega (arith, v.current_ok, r.grows)) v.current_ok
              (λ j h. r.lookups j q (omega (arith, v.current_ok)))
              (λ j h. r.parents j (omega (arith, v.current_ok))),
    )
