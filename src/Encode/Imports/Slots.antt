-- ===== src/Encode/Imports/Slots.antt =====
-- The slots of the import table of src/backend/pe_idata.c.
use mathlib.Core.Path.{subst}
use scorivm.Base.Lists.{length}
use scorivm.Base.Logic.{Bytes, bytes_eq, bytes_eq_iff, Bool-cases}
use scorivm.Base.{
  ℕ, ◌+◌, ◌*◌, ◌%◌, ◌^◌, ◌≤◌, ◌<◌, ◌≡◌, refl, ap, inl, inr, Bool, true, List, [], ◌∷◌, ◌++◌, arith,
}
use scorivm.Encode.Imports.{
  ImportFunc, ImportDll, has_func, add_func, pe_idata_add_import, reserve_funcs, table_size,
  reserve, tables_size,
}

has_func-append :
    (list : List ImportFunc) (name : Bytes) (offset : ℕ)
    → has_func (list ++ (record { func_name = name; iat_offset = offset } ∷ [])) name ≡ true
unfolding has_func
has_func-append [] name offset = rw ((bytes_eq_iff name name).1 refl) refl
has_func-append (f ∷ list) name offset = elim (Bool-cases (bytes_eq f.func_name name)) [
  | inl here ↦ rw here refl
  | inr later ↦ rw later (has_func-append list name offset)
]

has_func-add_func :
    (list : List ImportFunc) (name : Bytes) → has_func (add_func list name) name ≡ true
unfolding add_func
has_func-add_func list name = elim (Bool-cases (has_func list name)) [
  | inl known ↦ rw known known
  | inr new ↦ rw new (has_func-append list name 0)
]

add_func-twice :
    (list : List ImportFunc) (name : Bytes)
    → add_func (add_func list name) name ≡ add_func list name
unfolding add_func
add_func-twice list name = elim (Bool-cases (has_func list name)) [
  | inl known ↦ rw (known, known) refl
  | inr new ↦ rw (new, has_func-append list name 0) refl
]

-- Adding an import that was added before changes nothing.
pub add_import-twice :
    (stricmp : Bytes → Bytes → Bool)
    → ((name : Bytes) → stricmp name name ≡ true)
    → (dlls : List ImportDll) (dll name : Bytes)
    → let once = pe_idata_add_import stricmp dlls dll name in
      pe_idata_add_import stricmp once dll name ≡ once
unfolding pe_idata_add_import
add_import-twice stricmp same [] dll name = rw (same dll, add_func-twice [] name) refl
add_import-twice stricmp same (d ∷ dlls) dll name = elim (Bool-cases (stricmp d.dll_name dll)) [
  | inl here ↦ rw (here, here, add_func-twice d.imports name) refl
  | inr later ↦ rw (later, later) (ap (λ l. d ∷ l) (add_import-twice stricmp same dlls dll name))
]

-- A list of functions and the same functions with places: each has the eight bytes from its place on for
-- itself, between two bounds, and eight bytes are left behind the last for the end of the list.
pub data AreSpaced : ℕ → List ImportFunc → List ImportFunc → ℕ → Type 0 where
  nil : {from to : ℕ} → from + 8 ≤ to → AreSpaced from [] [] to
  cons :
      {from to : ℕ} {f g : ImportFunc} {list placed : List ImportFunc}
      → g.func_name ≡ f.func_name
      → from ≤ g.iat_offset
      → AreSpaced (g.iat_offset + 8) list placed to
      → AreSpaced from (f ∷ list) (g ∷ placed) to

pub data AreApart : ℕ → List ImportDll → List ImportDll → ℕ → Type 0 where
  nil : {from to : ℕ} → from ≤ to → AreApart from [] [] to
  cons :
      {from between to : ℕ} {d e : ImportDll} {dlls placed : List ImportDll}
      → e.dll_name ≡ d.dll_name
      → AreSpaced from d.imports e.imports between
      → AreApart between dlls placed to
      → AreApart from (d ∷ dlls) (e ∷ placed) to

reserve_funcs-AreSpaced :
    (size to : ℕ) (list : List ImportFunc)
    → size + 8 * length list + 8 ≤ to
    → to < 2 ^ 32
    → AreSpaced size list (reserve_funcs size list) to
unfolding reserve_funcs
reserve_funcs-AreSpaced size to [] h k = nil (omega arith)
reserve_funcs-AreSpaced size to (f ∷ list) h k =
    let small : size ≡ size % 2 ^ 32 = omega arith in
    cons refl (omega arith) (
      subst (λ n. AreSpaced (n + 8) list (reserve_funcs (size + 8) list) to) small
        (reserve_funcs-AreSpaced (size + 8) to list (omega arith) k))

-- While the table ends below 2^32, the libraries keep their names and functions in their order, every
-- function gets a slot of eight bytes that no other shares, a slot is left behind the last one of each
-- library, and all lie inside the table.
pub reserve-AreApart :
    (size : ℕ) (dlls : List ImportDll)
    → size + tables_size dlls < 2 ^ 32
    → AreApart size dlls (reserve size dlls) (size + tables_size dlls)
unfolding reserve tables_size
reserve-AreApart size [] h = nil (omega arith)
reserve-AreApart size (d ∷ dlls) h =
    let sum : size + table_size d.imports + tables_size dlls
        ≡ size + (table_size d.imports + tables_size dlls) =
      omega arith in
    cons refl
      (reserve_funcs-AreSpaced size (size + table_size d.imports) d.imports (omega arith)
        (omega arith))
      (subst
        (AreApart (size + table_size d.imports) dlls (reserve (size + table_size d.imports) dlls))
        sum (reserve-AreApart (size + table_size d.imports) dlls (omega (arith, sum))))
