-- ===== src/Symtab/Define.antt =====
-- The contracts of `symtab_define` and `symtab_insert_alias`.

use scorivm.Base.Lists.{
  length, get_elem?, length-set, get_elem?-append_left, get_elem?-append_self, lt_of_get_elem?,
}
use scorivm.Base.Logic.{◌==◌, Bytes, bytes_eq, if◌then◌else◌}
use scorivm.Base.{ℕ, ◌<◌, ◌≡◌, refl, ◌∙◌, Bool, true, false, ◌&&◌, Option, none, some, [], ◌∷◌}
use scorivm.Symtab.Invariant.{IsBelow, IsValid}
use scorivm.Symtab.Lookup.{from-congr}
use scorivm.Symtab.{
  SymbolKind, Symbol, Symtab, parent_of, symtab_lookup_in_scope, symtab_lookup_current,
  symtab_lookup, add_symbol, bind_node, symtab_define, alias_of, symtab_insert_alias,
}
use scorivm.Symtab.Add.{added, add-lookup_in_scope, add-parent_of, add-IsValid, add-lookup}

-- `st'` is `st` with a new symbol under `name` in the current scope.
pub record Binds (st : Symtab) (name : Bytes) (st' : Symtab) : Type 0 where
  pub valid : IsValid st'
  pub same_current : st'.current_scope ≡ st.current_scope
  pub same_size : length st'.scopes ≡ length st.scopes
  pub lookup :
      (q : Bytes)
      → symtab_lookup st' q
        ≡ (if bytes_eq name q then some (length st.symbols) else symtab_lookup st q)
  pub lookup_in_scope :
      (i : ℕ) (q : Bytes)
      → symtab_lookup_in_scope st' (some i) q ≡ (
          if st.current_scope == i && bytes_eq name q
          then some (length st.symbols)
          else symtab_lookup_in_scope st (some i) q)
  pub same_parents : (i : ℕ) → parent_of st' i ≡ parent_of st i
  pub old_symbols :
      (i : ℕ) → i < length st.symbols → get_elem? st'.symbols i ≡ get_elem? st.symbols i

add-Binds :
    (st : Symtab) (s : Symbol)
    → IsValid st
    → symtab_lookup_current st s.name ≡ none
    → IsBelow s.alias_target (length st.symbols)
    → Binds st s.name (add_symbol st s)
      × (get_elem? (add_symbol st s).symbols (length st.symbols) ≡ some s)
add-Binds st s v absent below =
    let shape = added st s v absent below in
    (
      record {
        valid = add-IsValid st s v absent below;
        same_current = rw shape refl;
        same_size = rw shape (length-set st.scopes st.current_scope _);
        lookup = add-lookup st s v absent below;
        lookup_in_scope = add-lookup_in_scope st s v absent below;
        same_parents = add-parent_of st s v absent below;
        old_symbols = λ i h. rw shape (get_elem?-append_left st.symbols (s ∷ []) i h);
      },
      rw shape (get_elem?-append_self st.symbols s),
    )

-- The field `resolved_symbol` of a node is no part of the table.
bind_node-Binds :
    (st st' : Symtab) (name : Bytes) (node : Option ℕ) (id : ℕ)
    → Binds st name st'
    → Binds st name (bind_node st' node id)
unfolding bind_node symtab_lookup symtab_lookup_in_scope
bind_node-Binds st st' name none id b = b
bind_node-Binds st st' name (some n) id b = record {
  valid = record {
    scope_ok = b.valid.scope_ok;
    current_ok = b.valid.current_ok;
    universe_ok = b.valid.universe_ok;
    alias_ok = b.valid.alias_ok;
  };
  same_current = b.same_current;
  same_size = b.same_size;
  lookup = λ q.
      from-congr st' _ q (length st'.scopes) (length st'.scopes) st'.current_scope b.valid
        b.valid.current_ok b.valid.current_ok (λ j h. refl) (λ j h. refl)
      ∙ b.lookup q;
  lookup_in_scope = b.lookup_in_scope;
  same_parents = b.same_parents;
  old_symbols = b.old_symbols;
}

bind_node-symbols :
    (st : Symtab) (node : Option ℕ) (id : ℕ) → (bind_node st node id).symbols ≡ st.symbols
unfolding bind_node
bind_node-symbols st none id = refl
bind_node-symbols st (some n) id = refl

-- `symtab_define` refuses a name that the current scope has and then changes nothing; otherwise it
-- adds the symbol that its arguments describe, which hides what the name meant until then.
pub define-Binds :
    (st : Symtab) (name : Bytes) (kind : SymbolKind) (type node : Option ℕ) (is_editus : Bool)
    → IsValid st
    → let r = symtab_define st name kind type node is_editus in
      ((s : ℕ) → symtab_lookup_current st name ≡ some s → r ≡ (false, st))
      × (symtab_lookup_current st name ≡ none
          → (r.0 ≡ true)
            × Binds st name r.1
            × (get_elem? r.1.symbols (length st.symbols)
                ≡ some (record {
                  name = name;
                  kind = kind;
                  type = type;
                  node = node;
                  is_editus = is_editus;
                  is_resolving = false;
                  ir_val = none;
                  module_scope = none;
                  alias_target = none;
                })))
unfolding symtab_define
define-Binds st name kind type node is_editus v = (
  λ s e. rw (e, symtab_define) refl,
  λ e.
      let s : Symbol = record {
        name = name;
        kind = kind;
        type = type;
        node = node;
        is_editus = is_editus;
        is_resolving = false;
        ir_val = none;
        module_scope = none;
        alias_target = none;
      } in
      let (b, stored) = add-Binds st s v e tt in
      let id = length st.symbols in
      rw (e, symtab_define)
        (
          refl,
          bind_node-Binds st (add_symbol st s) name node id b,
          rw (bind_node-symbols (add_symbol st s) node id) stored,
        ),
)

-- `symtab_insert_alias` refuses a name that the current scope has and then changes nothing;
-- otherwise it adds a symbol of that name with the kind, type, node and module scope of `target`,
-- which is recorded as the alias' target; the symbol is neither public nor being resolved and has no value.
pub insert_alias-Binds :
    (st : Symtab) (name : Bytes) (target : ℕ) (t : Symbol)
    → IsValid st
    → get_elem? st.symbols target ≡ some t
    → let r = symtab_insert_alias st name target in
      ((s : ℕ) → symtab_lookup_current st name ≡ some s → r ≡ (false, st))
      × (symtab_lookup_current st name ≡ none
          → (r.0 ≡ true)
            × Binds st name r.1
            × (get_elem? r.1.symbols (length st.symbols)
                ≡ some (record {
                  name = name;
                  kind = t.kind;
                  type = t.type;
                  node = t.node;
                  is_editus = false;
                  is_resolving = false;
                  ir_val = none;
                  module_scope = t.module_scope;
                  alias_target = some target;
                })))
unfolding symtab_insert_alias alias_of
insert_alias-Binds st name target t v found = (
  λ s e. rw (e, symtab_insert_alias) refl,
  λ e.
      let (b, stored) =
        add-Binds st (alias_of name target t) v e (lt_of_get_elem? st.symbols target t found) in
      rw (e, symtab_insert_alias) (rw found (refl, b, stored)),
)
