-- ===== src/Symtab.antt =====
-- The scoped symbol table of src/middleend/symtab.c. Scopes and symbols are objects with an
-- identity: a `Scope *` is an index into `scopes`, a `Symbol *` an index into `symbols`, both in the
-- order of creation. Types and AST nodes are pointers that this code only stores.
mod Chain
mod Lookup
mod Innermost
mod Invariant
mod Add
mod Define
mod Scoping
mod Free
mod Tests
use scorivm.Base.Lists.{length, get_elem?, get_or, set, replicate}
use scorivm.Base.Logic.{◌==◌, Bytes, bytes_eq, if◌then◌else◌}
use scorivm.Base.{
  ℕ, zero, suc, ◌+◌, ◌*◌, ◌%◌, ◌^◌, bit_xor, Bool, true, false, Option, none, some, List, [], ◌∷◌,
  ◌++◌,
}

pub data SymbolKind : Type 0 where
  sym_var sym_const sym_func sym_struct sym_union sym_module sym_type_alias sym_enum : SymbolKind

-- `next` is the order of the chain that the symbol stands in.
pub record Symbol : Type 0 where
  pub name : Bytes
  pub kind : SymbolKind
  pub type : Option ℕ
  pub node : Option ℕ
  pub is_editus : Bool
  pub is_resolving : Bool
  pub ir_val : Option ℕ
  pub module_scope : Option ℕ
  pub alias_target : Option ℕ

pub record Scope : Type 0 where
  pub hash_table : List (List ℕ)
  pub capacity : ℕ
  pub count : ℕ
  pub parent : Option ℕ

-- `resolved` is the field `resolved_symbol` of each AST node.
pub record Symtab : Type 0 where
  pub current_scope : ℕ
  pub universe_scope : ℕ
  pub scopes : List Scope
  pub symbols : List Symbol
  pub resolved : ℕ → Option ℕ

abbrev pub initial_capacity : ℕ
initial_capacity = 64

-- FNV-1a on 32 bits
unfoldable pub hash_from : ℕ → Bytes → ℕ
hash_from hash [] = hash
hash_from hash (b ∷ bs) = hash_from (bit_xor hash b * 16777619 % 2 ^ 32) bs

unfoldable pub hash_token : Bytes → ℕ
unfolding hash_from
hash_token name = hash_from 2166136261 name

-- A new scope, put at the end of the store.
pub create_scope : Symtab → Option ℕ → Symtab
create_scope st parent = record st {
  scopes =
      st.scopes
      ++ record {
        hash_table = replicate initial_capacity [];
        capacity = initial_capacity;
        count = 0;
        parent = parent;
      }
        ∷ [];
}

abbrev pub no_scopes : Symtab
no_scopes = record {
  current_scope = 0;
  universe_scope = 0;
  scopes = [];
  symbols = [];
  resolved = λ _. none;
}

pub symtab_init : Symtab
unfolding create_scope
symtab_init = create_scope no_scopes none

pub symtab_enter_scope : Symtab → Symtab
unfolding create_scope
symtab_enter_scope st = record (create_scope st (some st.current_scope)) {
  current_scope = length st.scopes;
}

-- The parent of a scope; the null pointer for a scope that is not there.
abbrev pub parent_of : Symtab → ℕ → Option ℕ
parent_of st i = elim (get_elem? st.scopes i) [ none ↦ none | some sc ↦ sc.parent ]

pub symtab_leave_scope : Symtab → Symtab
symtab_leave_scope st = elim (parent_of st st.current_scope) [
  | none ↦ st
  | some p ↦ record st { current_scope = p }
]

-- The loop over a chain.
pub find : List Symbol → Bytes → List ℕ → Option ℕ
find syms q [] = none
find syms q (i ∷ c) = elim (get_elem? syms i) [
  | none ↦ none
  | some s ↦ if bytes_eq s.name q then some i else find syms q c
]

abbrev pub bucket : Scope → Bytes → ℕ
bucket sc q = hash_token q % sc.capacity

pub find_in : List Symbol → Scope → Bytes → Option ℕ
unfolding find
find_in syms sc q = find syms q (get_or sc.hash_table (bucket sc q) [])

pub symtab_lookup_in_scope : Symtab → Option ℕ → Bytes → Option ℕ
unfolding find_in
symtab_lookup_in_scope st none q = none
symtab_lookup_in_scope st (some i) q = elim (get_elem? st.scopes i) [
  | none ↦ none
  | some sc ↦ find_in st.symbols sc q
]

pub symtab_lookup_current : Symtab → Bytes → Option ℕ
unfolding symtab_lookup_in_scope
symtab_lookup_current st q = symtab_lookup_in_scope st (some st.current_scope) q

-- The loop of `symtab_lookup` over the scopes, with fuel for the number of scopes that it visits.
pub lookup_from : ℕ → Symtab → Option ℕ → Bytes → Option ℕ
unfolding symtab_lookup_in_scope
lookup_from zero st o q = none
lookup_from (suc f) st none q = none
lookup_from (suc f) st (some i) q = elim (symtab_lookup_in_scope st (some i) q) [
  | some s ↦ some s
  | none ↦ lookup_from f st (parent_of st i) q
]

-- Every scope is visited at most once, so their number is fuel enough.
pub symtab_lookup : Symtab → Bytes → Option ℕ
unfolding lookup_from
symtab_lookup st q = lookup_from (length st.scopes) st (some st.current_scope) q

-- A symbol at the head of its chain in a scope.
pub link : ℕ → Bytes → Scope → Scope
link id name sc =
    let index = bucket sc name in
    record sc {
      hash_table = set sc.hash_table index (id ∷ get_or sc.hash_table index []);
      count = sc.count + 1;
    }

-- A new symbol, linked into the current scope.
pub add_symbol : Symtab → Symbol → Symtab
unfolding link
add_symbol st s = elim (get_elem? st.scopes st.current_scope) [
  | none ↦ st
  | some sc ↦ record st {
    symbols = st.symbols ++ s ∷ [];
    scopes = set st.scopes st.current_scope (link (length st.symbols) s.name sc);
  }
]

-- `node->resolved_symbol = sym`, if there is a node
pub bind_node : Symtab → Option ℕ → ℕ → Symtab
bind_node st none id = st
bind_node st (some n) id = record st { resolved = λ k. if k == n then some id else st.resolved k }

pub symtab_define : Symtab → Bytes → SymbolKind → Option ℕ → Option ℕ → Bool → Bool × Symtab
unfolding symtab_lookup_current add_symbol bind_node
symtab_define st name kind type node is_editus = elim (symtab_lookup_current st name) [
  | some _ ↦ (false, st)
  | none ↦ (
    true,
    bind_node
        (add_symbol st (record {
          name = name;
          kind = kind;
          type = type;
          node = node;
          is_editus = is_editus;
          is_resolving = false;
          ir_val = none;
          module_scope = none;
          alias_target = none;
        }))
        node (length st.symbols),
  )
]

-- The symbol that `symtab_insert_alias` makes for the symbol `target`.
pub alias_of : Bytes → ℕ → Symbol → Symbol
alias_of name target t = record {
  name = name;
  kind = t.kind;
  type = t.type;
  node = t.node;
  is_editus = false;
  is_resolving = false;
  ir_val = none;
  module_scope = t.module_scope;
  alias_target = some target;
}

-- `target` must point to a symbol.
pub symtab_insert_alias : Symtab → Bytes → ℕ → Bool × Symtab
unfolding symtab_lookup_current add_symbol alias_of
symtab_insert_alias st name target = elim (symtab_lookup_current st name) [
  | some _ ↦ (false, st)
  | none ↦ elim (get_elem? st.symbols target) [
    | none ↦ (false, st)
    | some t ↦ (true, add_symbol st (alias_of name target t))
  ]
]
