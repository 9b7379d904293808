-- ===== src/Symtab/Tests.antt =====
-- Runs of the symbol table, and the theorems at them.
use scorivm.Base.Lists.{length, get_elem?}
use scorivm.Base.Logic.{Bytes, codes, bytes_eq}
use scorivm.Base.{ℕ, ◌≡◌, refl, ◌↔◌, Bool, true, false, Option, none, some}
use scorivm.Symtab.Define.{Binds, define-Binds, insert_alias-Binds}
use scorivm.Symtab.Invariant.{IsValid, init-IsValid, enter-IsValid}
use scorivm.Symtab.Innermost.{IsInnermost, IsFree, lookup-IsInnermost}
use scorivm.Symtab.Scoping.{Block, done, define, alias, nested, Block-Restores}
use scorivm.Symtab.{
  SymbolKind, sym_var, sym_func, Symbol, Symtab, hash_token, symtab_init, symtab_enter_scope,
  symtab_leave_scope, symtab_lookup, symtab_lookup_current, symtab_define, symtab_insert_alias,
}

-- The published FNV-1a hash of "a".
hash_run : hash_token (codes "a") ≡ 0xe40c292c
unfolding hash_token
hash_run = refl

abbrev x : Bytes
x = codes "x"

abbrev f : Bytes
f = codes "f"

abbrev global : Symtab
global = (symtab_define symtab_init x sym_var (some 4) none true).1

-- An inner scope that shadows `x`, declares `f` and opens a further scope.
abbrev inner : Symtab
inner = symtab_enter_scope global

abbrev shadowed : Symtab
shadowed = (symtab_define inner x sym_func none (some 9) false).1

abbrev innermost : Symtab
innermost = (symtab_insert_alias (symtab_enter_scope shadowed) f 0).1

run : Unit {0}
unfolding symtab_init symtab_enter_scope symtab_leave_scope symtab_define symtab_insert_alias
    symtab_lookup symtab_lookup_current hash_token bytes_eq
run = tt

lookups_run :
    (symtab_lookup global x ≡ some 0)
    × (symtab_lookup innermost x ≡ some 1)
    × (symtab_lookup innermost f ≡ some 2)
    × (symtab_lookup (symtab_leave_scope innermost) f ≡ none)
    × (symtab_lookup (symtab_leave_scope (symtab_leave_scope innermost)) x ≡ some 0)
unfolding run
lookups_run = (refl, refl, refl, refl, refl)

global-IsValid : IsValid global
global-IsValid =
    ((define-Binds symtab_init x sym_var (some 4) none true init-IsValid).1
      (unfold run in refl)).1.valid

abbrev entry : Bytes → SymbolKind → Option ℕ → Option ℕ → Bool → Symbol
entry name kind type node is_editus = record {
  name = name;
  kind = kind;
  type = type;
  node = node;
  is_editus = is_editus;
  is_resolving = false;
  ir_val = none;
  module_scope = none;
  alias_target = none;
}

define-Binds_example :
    ((s : ℕ)
      → symtab_lookup_current inner x ≡ some s
      → symtab_define inner x sym_func none (some 9) false ≡ (false, inner))
    × (symtab_lookup_current inner x ≡ none
        → ((symtab_define inner x sym_func none (some 9) false).0 ≡ true)
          × Binds inner x shadowed
          × (get_elem? shadowed.symbols (length inner.symbols)
              ≡ some (entry x sym_func none (some 9) false)))
define-Binds_example =
    define-Binds inner x sym_func none (some 9) false (enter-IsValid global global-IsValid)

shadowed-IsValid : IsValid shadowed
shadowed-IsValid = (define-Binds_example.1 (unfold run in refl)).1.valid

insert_alias-Binds_example :
    let st = symtab_enter_scope shadowed in
    ((s : ℕ) → symtab_lookup_current st f ≡ some s → symtab_insert_alias st f 0 ≡ (false, st))
    × (symtab_lookup_current st f ≡ none
        → ((symtab_insert_alias st f 0).0 ≡ true)
          × Binds st f innermost
          × (get_elem? innermost.symbols (length st.symbols)
              ≡ some (record {
                name = f;
                kind = sym_var;
                type = some 4;
                node = none;
                is_editus = false;
                is_resolving = false;
                ir_val = none;
                module_scope = none;
                alias_target = some 0;
              })))
insert_alias-Binds_example =
    insert_alias-Binds (symtab_enter_scope shadowed) f 0 (entry x sym_var (some 4) none true)
      (enter-IsValid shadowed shadowed-IsValid) (unfold run in refl)

lookup-IsInnermost_example :
    ((s : ℕ)
      → (symtab_lookup shadowed x ≡ some s) ↔ IsInnermost shadowed x s shadowed.current_scope)
    × ((symtab_lookup shadowed x ≡ none) ↔ IsFree shadowed x shadowed.current_scope)
lookup-IsInnermost_example = lookup-IsInnermost shadowed shadowed-IsValid x

inner-Block : Block inner (symtab_leave_scope innermost)
inner-Block = nested (define x sym_func none (some 9) false done) (alias f 0 done)

Block-Restores_example :
    let after = symtab_leave_scope (symtab_leave_scope innermost) in
    IsValid after
    × (after.current_scope ≡ global.current_scope)
    × ((q : Bytes) → symtab_lookup after q ≡ symtab_lookup global q)
Block-Restores_example =
    Block-Restores global (symtab_leave_scope innermost) global-IsValid inner-Block
