-- ===== src/Encode/Imports.antt =====
-- The import table: src/backend/pe_idata.c. The buffer is the list of its bytes; allocation does not
-- fail. The comparison of library names is that of the platform, `_stricmp`, a parameter; so is what
-- it takes as equal.
pub mod Slots
use scorivm.Base.Lists.{length}
use scorivm.Base.Logic.{Bytes, bytes_eq, ◌==◌, if◌then◌else◌}
use scorivm.Base.{
  ℕ, zero, suc, ◌+◌, ◌-◌, ◌*◌, ◌/◌, ◌%◌, ◌^◌, Bool, true, false, List, [], ◌∷◌, ◌++◌,
}
use scorivm.Encode.{emit32}

pub record ImportFunc : Type 0 where
  pub func_name : Bytes
  pub iat_offset : ℕ

pub record ImportDll : Type 0 where
  pub dll_name : Bytes
  pub imports : List ImportFunc

unfoldable pub has_func : List ImportFunc → Bytes → Bool
has_func [] name = false
has_func (f ∷ list) name = if bytes_eq f.func_name name then true else has_func list name

-- A function that is there already is not added.
unfoldable pub add_func : List ImportFunc → Bytes → List ImportFunc
add_func list name =
    if has_func list name then list else list ++ (record { func_name = name; iat_offset = 0 } ∷ [])

module _ (stricmp : Bytes → Bytes → Bool) where
  unfoldable pub pe_idata_add_import : List ImportDll → Bytes → Bytes → List ImportDll
  pe_idata_add_import [] dll name = record { dll_name = dll; imports = add_func [] name } ∷ []
  pe_idata_add_import (d ∷ dlls) dll name =
      if stricmp d.dll_name dll
      then record { dll_name = d.dll_name; imports = add_func d.imports name } ∷ dlls
      else d ∷ pe_idata_add_import dlls dll name

  -- The place of a function among those of a library, or what is found behind it.
  unfoldable pub offset_in : List ImportFunc → Bytes → ℕ → ℕ
  offset_in [] name later = later
  offset_in (f ∷ list) name later =
      if bytes_eq f.func_name name then f.iat_offset else offset_in list name later

  unfoldable pub pe_idata_get_iat_offset : List ImportDll → Bytes → Bytes → ℕ
  pe_idata_get_iat_offset [] dll name = 0
  pe_idata_get_iat_offset (d ∷ dlls) dll name =
      let later = pe_idata_get_iat_offset dlls dll name in
      if stricmp d.dll_name dll then offset_in d.imports name later else later

unfoldable pub zeros : ℕ → Bytes
zeros zero = []
zeros (suc n) = 0 ∷ zeros n

-- At most 7 bytes are missing to a multiple of 8.
unfoldable pub align_from : ℕ → Bytes → Bytes
align_from zero bs = bs
align_from (suc fuel) bs = if length bs % 8 == 0 then bs else align_from fuel (bs ++ (0 ∷ []))

abbrev pub align_buffer : Bytes → Bytes
align_buffer bs = align_from 7 bs

-- Eight bytes for each function, given out from a size on, and eight behind those of a library.
unfoldable pub reserve_funcs : ℕ → List ImportFunc → List ImportFunc
reserve_funcs size [] = []
reserve_funcs size (f ∷ list) =
    record { func_name = f.func_name; iat_offset = size % 2 ^ 32 } ∷ reserve_funcs (size + 8) list

abbrev pub table_size : List ImportFunc → ℕ
table_size list = 8 * length list + 8

unfoldable pub reserve : ℕ → List ImportDll → List ImportDll
reserve size [] = []
reserve size (d ∷ dlls) =
    record { dll_name = d.dll_name; imports = reserve_funcs size d.imports }
    ∷ reserve (size + table_size d.imports) dlls

unfoldable pub tables_size : List ImportDll → ℕ
tables_size [] = 0
tables_size (d ∷ dlls) = table_size d.imports + tables_size dlls

-- Where the table of each library begins in the second copy.
unfoldable pub int_offsets : ℕ → List ImportDll → List ℕ
int_offsets size [] = []
int_offsets size (d ∷ dlls) = size % 2 ^ 32 ∷ int_offsets (size + table_size d.imports) dlls

-- A hint of 0 and a name with its terminator, in an even number of bytes.
abbrev pub hint_name : Bytes → Bytes → Bytes
hint_name bs name =
    let named : Bytes = bs ++ (0 ∷ 0 ∷ (name ++ (0 ∷ []))) in
    if length named % 2 == 0 then named else named ++ (0 ∷ [])

-- The names of the functions of a library behind a buffer, and where each begins.
unfoldable pub write_names : Bytes → List ImportFunc → Bytes × List ℕ
write_names bs [] = (bs, [])
write_names bs (f ∷ list) =
    let (last, offsets) : Bytes × List ℕ = write_names (hint_name bs f.func_name) list in
    (last, length bs % 2 ^ 32 ∷ offsets)

unfoldable pub write_hints : Bytes → List ImportDll → Bytes × List (List ℕ)
write_hints bs [] = (bs, [])
write_hints bs (d ∷ dlls) =
    let (named, offsets) : Bytes × List ℕ = write_names bs d.imports in
    let (last, rest) : Bytes × List (List ℕ) = write_hints named dlls in (last, offsets ∷ rest)

unfoldable pub write_dll_names : Bytes → List ImportDll → Bytes × List ℕ
write_dll_names bs [] = (bs, [])
write_dll_names bs (d ∷ dlls) =
    let (last, offsets) : Bytes × List ℕ = write_dll_names (bs ++ (d.dll_name ++ (0 ∷ []))) dlls in
    (last, length bs % 2 ^ 32 ∷ offsets)

abbrev pub first_slot : List ImportFunc → ℕ
first_slot [] = 0
first_slot (f ∷ list) = f.iat_offset

-- A descriptor of five words for each library.
unfoldable pub directory : ℕ → List ImportDll → List ℕ → List ℕ → Bytes
directory rva (d ∷ dlls) (int_off ∷ ints) (name_off ∷ names) =
    emit32 ((rva + int_off) % 2 ^ 32)
    ++ (emit32 0
        ++ (emit32 0
            ++ (emit32 ((rva + name_off) % 2 ^ 32)
                ++ (emit32 ((rva + first_slot d.imports) % 2 ^ 32)
                    ++ directory rva dlls ints names))))
directory rva _ _ _ = []

-- `memcpy` into the buffer.
unfoldable pub write_at : Bytes → ℕ → Bytes → Bytes
write_at [] at bs = []
write_at (c ∷ buffer) zero [] = c ∷ buffer
write_at (c ∷ buffer) zero (x ∷ bs) = x ∷ write_at buffer zero bs
write_at (c ∷ buffer) (suc at) bs = c ∷ write_at buffer at bs

-- The address of a name, in 8 bytes, of which the upper half is 0.
abbrev pub name_rva : ℕ → ℕ → Bytes
name_rva rva offset = emit32 ((rva + offset) % 2 ^ 32) ++ zeros 4

unfoldable pub fill_funcs : ℕ → Bytes → ℕ → List ImportFunc → List ℕ → Bytes
fill_funcs rva bs int_off (f ∷ list) (offset ∷ offsets) =
    fill_funcs rva
      (write_at (write_at bs f.iat_offset (name_rva rva offset)) int_off (name_rva rva offset))
      ((int_off + 8) % 2 ^ 32) list offsets
fill_funcs rva bs int_off _ _ = bs

unfoldable pub fill : ℕ → Bytes → List ImportDll → List ℕ → List (List ℕ) → Bytes
fill rva bs (d ∷ dlls) (int_off ∷ ints) (offsets ∷ rest) =
    fill rva (fill_funcs rva bs int_off d.imports offsets) dlls ints rest
fill rva bs _ _ _ = bs

-- The buffer, the libraries with their slots, and where the directory and the slots are.
pub record ImportData : Type 0 where
  pub rdata : Bytes
  pub libraries : List ImportDll
  pub import_dir_offset : ℕ
  pub import_dir_size : ℕ
  pub iat_rva : ℕ
  pub iat_size : ℕ

abbrev build_from : ℕ → Bytes → List ImportDll → ImportData
build_from rva start dlls =
    let iat_start : ℕ = length start in
    let placed : List ImportDll = reserve iat_start dlls in
    let iat_end : ℕ = iat_start + tables_size dlls in
    let ints : List ℕ = int_offsets iat_end dlls in
    let (hinted, hints) : Bytes × List (List ℕ) =
      write_hints (start ++ zeros (tables_size dlls + tables_size dlls)) dlls in
    let (named, names) : Bytes × List ℕ = write_dll_names hinted dlls in
    let before : Bytes = align_buffer named in
    let whole : Bytes = before ++ (directory rva placed ints names ++ zeros 20) in
    record {
      rdata = fill rva whole placed ints hints;
      libraries = placed;
      import_dir_offset = length before % 2 ^ 32;
      import_dir_size = length whole - length before;
      iat_rva = (rva + iat_start) % 2 ^ 32;
      iat_size = iat_end - iat_start;
    }

unfoldable pub pe_idata_build : ℕ → Bytes → List ImportDll → ImportData
pe_idata_build rva rdata [] = record {
  rdata = rdata;
  libraries = [];
  import_dir_offset = 0;
  import_dir_size = 0;
  iat_rva = 0;
  iat_size = 0;
}
pe_idata_build rva rdata (d ∷ dlls) = build_from rva (align_buffer rdata) (d ∷ dlls)
